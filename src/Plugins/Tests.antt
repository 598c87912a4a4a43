-- ===== src/Plugins/Tests.antt =====
-- Examples for the plugins.
use xmdm.Common.{◌≡◌, ◌≢◌, refl, inl, [], ◌∷◌, true, false, none, some, str_eq, trim_space}
use xmdm.Auth.{Session, has_permission, new_session, new_service_with_permissions}
use xmdm.Plugins.{
  CommandType, Plugin, Manager, command_types_for, supports_command_type, offered_by, offered_all,
  offered, permission_catalog,
}
use xmdm.Plugins.Offers.{IsPermitted, supports_command_type-IsPermitted}
use xmdm.Plugins.Complete.{supports_command_type_complete}

abbrev wipe : CommandType
wipe = record {
  type = " wipe ";
  label = "";
  target_scope = "device";
  payload_schema = "";
  required_permission = "wipe.run";
}

abbrev cleaner : Plugin
cleaner = record {
  id = "cleaner";
  name = "Cleaner";
  description = "";
  enabled = true;
  permissions = [];
  routes = [];
  device_actions = [];
  command_types = wipe ∷ [];
}

abbrev manager : Manager
manager = record { enabled = true; plugins = cleaner ∷ [] }

-- The session of an administrator whose service was made with the catalog.
abbrev admin_session : Session
admin_session =
    new_session (λ n. "s") "admin" (permission_catalog (some manager))
      (new_service_with_permissions "admin" "pw" 60 (permission_catalog (some manager)) 0)

abbrev few_session : Session
few_session = record admin_session { permissions = "wipe.run" ∷ [] }

abbrev wipe_shown : CommandType
wipe_shown = record wipe { type = "wipe"; label = "wipe" }

wipe_found : supports_command_type (some manager) (some few_session) "wipe " ≡ some wipe_shown
unfolding supports_command_type command_types_for offered_by offered_all offered has_permission
    trim_space
wipe_found = refl

supports_command_type-IsPermitted_example :
    (wipe_shown.type ≡ trim_space "wipe ") × IsPermitted few_session wipe_shown
supports_command_type-IsPermitted_example =
    supports_command_type-IsPermitted manager few_session "wipe " wipe_shown wipe_found

is_typed : str_eq (trim_space wipe.type) "" ≡ false
unfolding trim_space
is_typed = refl

supports_command_type_complete_example :
    supports_command_type (some manager) (some admin_session) wipe.type ≢ none
supports_command_type_complete_example =
    supports_command_type_complete manager admin_session cleaner wipe refl refl (inl refl) refl
      (inl refl) is_typed
