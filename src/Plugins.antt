-- ===== src/Plugins.antt =====
-- server/internal/plugins/manager.go: the plugins that are registered, the command types that they
-- offer a session, and the permissions that they know. A manager that is nil is no manager, and nil
-- lists are empty ones.
pub mod Catalog
pub mod Complete
pub mod Offers
mod Tests
use Prim.Native.Nat.{lt, eq, gt}
use Prim.Native.String.{compare}
use xmdm.Common.{
  List, [], ◌∷◌, ◌++◌, String, Bool, true, false, not, ◌&&◌, Option, none, some, if◌then◌else◌,
  str_eq, trim_space, find_if,
}
use xmdm.Common.Maps.{lookup, put}
use xmdm.Auth.{Session, all_permissions, has_permission}

pub record RouteSpec : Type 0 where
  pub method : String
  pub path : String

pub record DeviceAction : Type 0 where
  pub plugin_id : String
  pub action_id : String
  pub label : String
  pub href : String
  pub required_permission : String
  pub enabled : Bool
  pub disabled_reason : String

pub record CommandType : Type 0 where
  pub type : String
  pub label : String
  pub target_scope : String
  pub payload_schema : String
  pub required_permission : String

pub record Plugin : Type 0 where
  pub id : String
  pub name : String
  pub description : String
  pub enabled : Bool
  pub permissions : List String
  pub routes : List RouteSpec
  pub device_actions : List DeviceAction
  pub command_types : List CommandType

pub record Manager : Type 0 where
  pub enabled : Bool
  pub plugins : List Plugin

-- `map[auth.Permission]struct{}`
abbrev pub PermissionSet : Type 0
PermissionSet = List (String × Unit {0})

abbrev pub is_blank : String → Bool
is_blank s = str_eq (trim_space s) ""

abbrev pub less : String → String → Bool
less a b = elim (compare a b) as (λ x. Bool) [ lt ↦ true | eq ↦ false | gt ↦ false ]

-- `slices.Sort` of texts, as an insertion sort.
unfoldable pub insert_text : String → List String → List String
insert_text x [] = x ∷ []
insert_text x (y ∷ ys) = let rest = insert_text x ys in if less y x then y ∷ rest else x ∷ y ∷ ys

unfoldable pub sort_texts : List String → List String
unfolding insert_text
sort_texts [] = []
sort_texts (x ∷ xs) = insert_text x (sort_texts xs)

unfoldable pub keys : {A : Type 0} → List (String × A) → List String
keys [] = []
keys (e ∷ m) = e.0 ∷ keys m

-- The loop of `clonePlugin`; the copies of the lists are the lists. That the loop also writes into
-- the list of the caller is left out.
unfoldable pub own_actions : String → List DeviceAction → List DeviceAction
own_actions id [] = []
own_actions id (a ∷ actions) =
    (if is_blank a.plugin_id then record a { plugin_id = id } else a) ∷ own_actions id actions

-- `clonePlugin`
unfoldable pub clone_plugin : Plugin → Plugin
unfolding own_actions
clone_plugin def = record def { device_actions = own_actions def.id def.device_actions }

-- The first loop of `normalizePlugins`: a later plugin replaces one of the same id.
unfoldable pub plugins_by_id : List Plugin → List (String × Plugin) → List (String × Plugin)
unfolding clone_plugin
plugins_by_id [] m = m
plugins_by_id (def ∷ defs) m =
    let id = trim_space def.id in
    plugins_by_id defs
      (if str_eq id "" then m else put id (clone_plugin (record def { id = id })) m)

-- The last loop of `normalizePlugins`; every id is one of the map.
unfoldable pub plugins_of : List String → List (String × Plugin) → List Plugin
plugins_of [] m = []
plugins_of (id ∷ ids) m =
    let rest = plugins_of ids m in elim (lookup id m) [ none ↦ rest | some p ↦ p ∷ rest ]

-- `normalizePlugins`
unfoldable pub normalize_plugins : List Plugin → List Plugin
unfolding plugins_by_id plugins_of sort_texts keys
normalize_plugins defs = let m = plugins_by_id defs [] in plugins_of (sort_texts (keys m)) m

-- `Disabled`
abbrev pub disabled : Manager
disabled = record { enabled = false; plugins = [] }

-- `New`
abbrev pub new_manager : List Plugin → Manager
new_manager defs = record { enabled = true; plugins = normalize_plugins defs }

-- The body of the inner loop of `CommandTypesFor`.
unfoldable pub offered : Session → CommandType → Option CommandType
offered session command_type =
    let type = trim_space command_type.type in
    let perm = trim_space command_type.required_permission in
    if str_eq type ""
    then none
    else if not (str_eq perm "") && not (has_permission session.permissions perm)
    then none
    else some (record command_type {
      type = type;
      label = if is_blank command_type.label then type else command_type.label;
    })

-- The inner loop of `CommandTypesFor`.
unfoldable pub offered_all : Session → List CommandType → List CommandType
unfolding offered
offered_all session [] = []
offered_all session (c ∷ cs) =
    let rest = offered_all session cs in
    elim (offered session c) [ none ↦ rest | some spec ↦ spec ∷ rest ]

-- The outer loop of `CommandTypesFor`.
unfoldable pub offered_by : Session → List Plugin → List CommandType
unfolding offered_all
offered_by session [] = []
offered_by session (plugin ∷ plugins) =
    let rest = offered_by session plugins in
    if plugin.enabled then offered_all session plugin.command_types ++ rest else rest

-- `CommandTypesFor`
unfoldable pub command_types_for : Option Manager → Option Session → List CommandType
unfolding offered_by
command_types_for none session = []
command_types_for (some m) none = []
command_types_for (some m) (some session) = if m.enabled then offered_by session m.plugins else []

-- `SupportsCommandType`
unfoldable pub supports_command_type : Option Manager → Option Session → String → Option CommandType
unfolding command_types_for
supports_command_type m session command_type =
    let type = trim_space command_type in
    if str_eq type ""
    then none
    else find_if (λ spec. str_eq spec.type type) (command_types_for m session)

-- A permission goes into the set of `permissionCatalog`, unless it is blank.
unfoldable pub add_permission : String → PermissionSet → PermissionSet
add_permission perm catalog =
    let perm' = trim_space perm in if str_eq perm' "" then catalog else put perm' tt catalog

unfoldable pub add_permissions : List String → PermissionSet → PermissionSet
unfolding add_permission
add_permissions [] catalog = catalog
add_permissions (perm ∷ perms) catalog = add_permissions perms (add_permission perm catalog)

-- The loop over the device actions of a plugin.
unfoldable pub add_actions : List DeviceAction → PermissionSet → PermissionSet
unfolding add_permission
add_actions [] catalog = catalog
add_actions (a ∷ actions) catalog =
    add_actions actions (add_permission a.required_permission catalog)

-- The loop over the command types of a plugin.
unfoldable pub add_types : List CommandType → PermissionSet → PermissionSet
unfolding add_permission
add_types [] catalog = catalog
add_types (c ∷ types) catalog = add_types types (add_permission c.required_permission catalog)

-- The loop over the plugins.
unfoldable pub add_plugins : List Plugin → PermissionSet → PermissionSet
unfolding add_permissions add_actions add_types
add_plugins [] catalog = catalog
add_plugins (p ∷ plugins) catalog = add_plugins plugins (
    add_types p.command_types
      (add_actions p.device_actions (add_permissions p.permissions catalog)))

-- The loop over `AllPermissions`.
unfoldable pub base_catalog : List String → PermissionSet → PermissionSet
base_catalog [] catalog = catalog
base_catalog (perm ∷ perms) catalog = base_catalog perms (put perm tt catalog)

-- `PermissionCatalog`
unfoldable pub permission_catalog : Option Manager → List String
unfolding add_plugins base_catalog sort_texts keys
permission_catalog none = all_permissions
permission_catalog (some m) =
    sort_texts (keys (add_plugins m.plugins (base_catalog all_permissions [])))
