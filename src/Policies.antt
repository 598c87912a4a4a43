-- ===== src/Policies.antt =====
-- server/internal/policy/postgres/store.go: the policies of a tenant; Bindings has what they assign.
-- The JSON of the restrictions is read and written by encoding/json, which is a parameter: what it
-- reads into the struct of the source and whether it succeeded, and what it writes. A request has no
-- restrictions, or JSON. The column of the version is an integer of 32 bits; an update that would
-- leave its range is one of the statements that fail.
pub mod Bindings
pub mod Passcode
pub mod Effects
mod Tests
use xmdm.Common.{
  ℕ, suc, List, [], String, Bool, true, false, ◌&&◌, ◌||◌, not, Option, none, some, if◌then◌else◌,
  str_eq, trim_space, ◌==◌, find_if, length,
}
use xmdm.Common.Json.{Json, null, obj, end}
use xmdm.Pagination.{Params}
use xmdm.Database.Rows.{Db, PolicyRow}
use xmdm.Database.{
  invalid_input, not_found, database, Env, Store, pure, raise, ◌>>=◌, ◌>>◌, query, exec, now,
  new_uuid, require, found,
}
use xmdm.Database.Table.{
  of_tenant, of_id, is_active, is_retired, new_base, retired_base, newest_first, select_all,
  select_page, select_one, insert_row, update_row, retire_row, answered, count_of, count_all,
}
use xmdm.Database.Tables.{policies_table}

pub record PolicyUpsert : Type 0 where
  pub name : String
  pub kiosk_mode : Bool
  pub kiosk_app_package : String
  pub restrictions : Option Json

pub record OverviewStats : Type 0 where
  pub total : ℕ
  pub active : ℕ
  pub retired : ℕ

-- `policyRestrictionsPayload`
pub record Restrictions : Type 0 where
  pub allow_packages : List String
  pub block_packages : List String
  pub suspend_packages : List String
  pub kiosk_keep_screen_on : Bool
  pub kiosk_stay_awake_while_plugged_in : Bool
  pub kiosk_unlock_on_boot : Bool
  pub kiosk_exit_passcode : String
  pub kiosk_exit_passcode_hash : String

-- encoding/json on that struct; `unmarshal` gives what it filled in and whether it succeeded.
pub record Codec : Type 0 where
  pub unmarshal : Json → Restrictions × Bool
  pub marshal : Restrictions → Json

abbrev pub is_null : Json → Bool
is_null null = true
is_null _ = false

-- The restrictions of a request, `{}` where there are none
unfoldable pub given_restrictions : Option Json → Json
given_restrictions none = obj end
given_restrictions (some r) = if is_null r then obj end else r

abbrev pub no_restrictions : Restrictions
no_restrictions = record {
  allow_packages = [];
  block_packages = [];
  suspend_packages = [];
  kiosk_keep_screen_on = false;
  kiosk_stay_awake_while_plugged_in = false;
  kiosk_unlock_on_boot = false;
  kiosk_exit_passcode = "";
  kiosk_exit_passcode_hash = "";
}

abbrev pub read_restrictions : Codec → Json → Restrictions
read_restrictions codec r = if is_null r then no_restrictions else (codec.unmarshal r).0

abbrev pub blank : String → Bool
blank s = str_eq (trim_space s) ""

-- `kioskExitPasscodeConfigured`
unfoldable pub kiosk_exit_passcode_configured : Codec → Json → Bool
kiosk_exit_passcode_configured codec r =
    if is_null r
    then false
    else let (parsed, read) = codec.unmarshal r in
      if not read
      then false
      else not (blank parsed.kiosk_exit_passcode) || not (blank parsed.kiosk_exit_passcode_hash)

-- The passcode that `mergeKioskExitPasscode` carries over.
unfoldable pub carried : Restrictions → Restrictions → Restrictions
carried current updated =
    if not (blank updated.kiosk_exit_passcode)
    then updated
    else let passcode = trim_space current.kiosk_exit_passcode in
      if str_eq passcode ""
      then record updated {
        kiosk_exit_passcode = passcode;
        kiosk_exit_passcode_hash = trim_space current.kiosk_exit_passcode_hash;
      }
      else record updated { kiosk_exit_passcode = passcode }

-- `mergeKioskExitPasscode`; a struct of texts and flags can always be written.
unfoldable pub merge_kiosk_exit_passcode : Codec → Json → Json → Json
merge_kiosk_exit_passcode codec existing next =
    codec.marshal (carried (read_restrictions codec existing) (read_restrictions codec next))

-- UNIQUE (tenant_id, name, version)
abbrev pub clashes : String → String → ℕ → PolicyRow → Bool
clashes tenant name version p =
    of_tenant policies_table tenant p && str_eq p.name name && p.version == version

-- `CreatePolicy`
unfoldable pub create_policy : Env → String → PolicyUpsert → Store PolicyRow
create_policy env tenant req = if str_eq req.name "" then raise invalid_input else (do
  id ← new_uuid env
  t ← now
  created ← now
  row ← exec (
      insert_row policies_table (clashes tenant req.name 1) (record {
        base = new_base id tenant created t;
        name = req.name;
        version = 1;
        kiosk_mode = req.kiosk_mode;
        kiosk_app_package = req.kiosk_app_package;
        restrictions = given_restrictions req.restrictions;
      }))
  answered database row)

-- `ListPolicies`
unfoldable pub list_policies : String → Params → Store (List PolicyRow)
list_policies tenant page =
    select_page policies_table (newest_first policies_table) (of_tenant policies_table tenant) page

-- `ListActivePolicies`
unfoldable pub list_active_policies : String → Store (List PolicyRow)
list_active_policies tenant =
    select_all policies_table (newest_first policies_table)
      (λ p. of_tenant policies_table tenant p && is_active p.base.status)

-- `GetOverviewStats`
unfoldable pub get_overview_stats : String → Store OverviewStats
get_overview_stats tenant = query (λ db. record {
  total = count_all policies_table tenant db;
  active = count_of policies_table tenant is_active db;
  retired = count_of policies_table tenant is_retired db;
})

-- `GetPolicy`
unfoldable pub get_policy : String → String → Store PolicyRow
get_policy tenant id =
    if str_eq tenant "" || str_eq id ""
    then raise invalid_input
    else select_one policies_table (of_id policies_table tenant id)

-- The restrictions that `UpdatePolicy` writes over those of a policy in kiosk mode.
unfoldable pub kept_restrictions : Codec → PolicyRow → Json → Json
kept_restrictions codec existing next =
    if existing.kiosk_mode && not (kiosk_exit_passcode_configured codec next)
    then merge_kiosk_exit_passcode codec existing.restrictions next
    else next

-- The SET clause of `UpdatePolicy`.
abbrev pub updated_policy : ℕ → PolicyUpsert → Json → PolicyRow → PolicyRow
updated_policy t req restrictions p = record {
  base = record p.base { updated_at = t };
  name = req.name;
  version = suc p.version;
  kiosk_mode = req.kiosk_mode;
  kiosk_app_package = req.kiosk_app_package;
  restrictions = restrictions;
}

-- The UPDATE of `UpdatePolicy`.
unfoldable pub write_policy : String → String → PolicyUpsert → Json → Store PolicyRow
write_policy tenant id req restrictions = do
  t ← now
  row ← exec (
      update_row policies_table (of_id policies_table tenant id) (updated_policy t req restrictions)
        (λ p other. clashes tenant req.name p.version other))
  answered database row

-- `UpdatePolicy`
unfoldable pub update_policy : Codec → String → String → PolicyUpsert → Store PolicyRow
update_policy codec tenant id req =
    if str_eq req.name ""
    then raise invalid_input
    else if req.kiosk_mode
    then (do
      existing ← select_one policies_table (of_id policies_table tenant id)
      write_policy tenant id req
          (kept_restrictions codec existing (given_restrictions req.restrictions)))
    else write_policy tenant id req (given_restrictions req.restrictions)

-- `RetirePolicy`
unfoldable pub retire_policy : String → String → Store PolicyRow
retire_policy tenant id =
    retire_row policies_table (λ t p. record p { base = retired_base t p.base })
      (of_id policies_table tenant id)
