-- ===== src/Devices.antt =====
-- server/internal/device/postgres/store.go: the devices of a tenant, their groups, and the check of
-- a device's secret. The search by health and name, a read over the reports of the devices, is not
-- modelled. Text is ordered by its code points, and the default of created_at is one more reading
-- of the clock. The extras of a device are JSON already.
pub mod Reads
mod Names
mod Access
mod Enrolled
mod Tests
use Prim.Native.String.{compare}
use Prim.Native.Nat.{Ordering}
use xmdm.Common.{
  ℕ, List, [], ◌∷◌, ◌++◌, map, String, Bool, true, false, not, ◌&&◌, ◌||◌, Option, none, some,
  if◌then◌else◌, str_eq, trim_space, any_of, keep_if, find_if, length,
}
use xmdm.Common.Int.{pos}
use xmdm.Common.Json.{Json}
use xmdm.Pagination.{Params, default_limit, normalize}
use xmdm.Database.Rows.{
  Time, Db, DeviceRow, DeviceStatus, pending, enrolled, active, locked, suspended, retired, wiped,
  unknown, RecordStatus, DeviceGroupRow,
}
use xmdm.Database.{
  not_found, invalid_input, disable, Env, Store, pure, raise, ◌>>=◌, ◌>>◌, query, exec, begin_tx,
  tx_query, tx_exec, commit, now, new_uuid, provision, require, found,
}
use xmdm.Database.Query.{order_by, slice, update_where, count_where, returning, earlier}

-- `device.Device`
pub record Device : Type 0 where
  pub id : String
  pub tenant_id : String
  pub status : DeviceStatus
  pub created_at : Time
  pub updated_at : Time
  pub deleted_at : Option Time
  pub name : String
  pub policy_id : Option String
  pub group_ids : List String
  pub bootstrap_extras : Option Json

pub record DeviceUpsert : Type 0 where
  pub name : String
  pub secret_hash : String
  pub policy_id : String
  pub group_ids : List String

-- The items that are seen for the first time, behind those of `seen`.
unfoldable pub first_seen : List String → List String → List String
first_seen seen [] = []
first_seen seen (item ∷ items) =
    let fresh = item ∷ first_seen (item ∷ seen) items in
    let rest = first_seen seen items in if any_of (λ s. str_eq s item) seen then rest else fresh

abbrev pub text_before : String → String → Bool
text_before a b = elim (compare a b) [ Ordering.lt ↦ true | _ ↦ false ]

abbrev pub nonblank : List String → List String
nonblank items = keep_if (λ s. not (str_eq s "")) (map trim_space items)

-- `uniqueStrings`
unfoldable pub unique_strings : List String → List String
unique_strings items = order_by text_before (first_seen [] (nonblank items))

-- `array_agg(DISTINCT dg.group_id ORDER BY dg.group_id)` over the join
abbrev pub groups_of : Db → DeviceRow → List String
groups_of db row = order_by text_before (
    first_seen [] (
      map (λ m. m.group_id)
        (keep_if (λ m. str_eq m.tenant_id row.tenant_id && str_eq m.device_id row.id)
          db.device_groups)))

-- The columns that a row is scanned from: `scanDevice`
abbrev pub view : Db → DeviceRow → Device
view db row = record {
  id = row.id;
  tenant_id = row.tenant_id;
  status = row.status;
  created_at = row.created_at;
  updated_at = row.updated_at;
  deleted_at = row.deleted_at;
  name = row.display_name;
  policy_id = row.policy_id;
  group_ids = groups_of db row;
  bootstrap_extras = row.bootstrap_extras;
}

abbrev pub of_tenant : String → DeviceRow → Bool
of_tenant tenant row = str_eq row.tenant_id tenant

abbrev pub of_key : String → String → DeviceRow → Bool
of_key tenant id row = str_eq row.tenant_id tenant && str_eq row.id id

abbrev pub view_of : Db → Option DeviceRow → Option Device
view_of db none = none
view_of db (some row) = some (view db row)

-- `loadDevice`, within a transaction
unfoldable pub load_device : String → String → Store Device
load_device tenant id = do
  device ← tx_query (λ db. view_of db (find_if (of_key tenant id) db.devices))
  found device not_found

abbrev pub is_active_group : RecordStatus → Bool
is_active_group RecordStatus.active = true
is_active_group _ = false

-- `ensureActiveGroups`
unfoldable pub ensure_active_groups : String → List String → Store (Unit {0})
ensure_active_groups tenant [] = pure tt
ensure_active_groups tenant (group ∷ groups) =
    if str_eq group "" then ensure_active_groups tenant groups else (do
      row ← tx_query (λ db.
          find_if
            (λ g.
              str_eq g.base.tenant_id tenant
              && str_eq g.base.id group
              && is_active_group g.base.status)
            db.groups)
      found row not_found
      ensure_active_groups tenant groups)

abbrev pub insert_group : String → String → Time → String → Db → Unit {0} × Db
insert_group tenant device t group db =
    let row : DeviceGroupRow = record {
      tenant_id = tenant;
      device_id = device;
      group_id = group;
      created_at = t;
    } in
    (tt, record db { device_groups = db.device_groups ++ row ∷ [] })

-- The loop that inserts the groups of a device.
unfoldable pub insert_groups : String → String → Time → List String → Store (Unit {0})
insert_groups tenant device t [] = pure tt
insert_groups tenant device t (group ∷ groups) = do
  tx_exec (insert_group tenant device t group)
  insert_groups tenant device t groups

abbrev pub optional : String → Option String
optional s = if str_eq s "" then none else some s

abbrev pub insert_device : DeviceRow → Db → Unit {0} × Db
insert_device row db = (tt, record db { devices = db.devices ++ row ∷ [] })

abbrev pub new_device : String → String → DeviceUpsert → Time → Time → DeviceRow
new_device id tenant req t created = record {
  id = id;
  tenant_id = tenant;
  display_name = req.name;
  secret_hash = req.secret_hash;
  status = pending;
  policy_id = optional req.policy_id;
  bootstrap_extras = none;
  created_at = created;
  updated_at = t;
  deleted_at = none;
}

-- The UPDATE of `UpdateDevice`: an empty hash leaves the hash as it is.
abbrev pub updated_device : DeviceUpsert → Time → DeviceRow → DeviceRow
updated_device req t row = record row {
  display_name = req.name;
  secret_hash = if str_eq req.secret_hash "" then row.secret_hash else req.secret_hash;
  policy_id = optional req.policy_id;
  updated_at = t;
}

abbrev pub update_row : String → String → DeviceUpsert → Time → Db → Option DeviceRow × Db
update_row tenant id req t db = (
  returning (of_key tenant id) (updated_device req t) db.devices,
  record db { devices = update_where (of_key tenant id) (updated_device req t) db.devices },
)

abbrev pub delete_groups : String → String → Db → Unit {0} × Db
delete_groups tenant device db = (
  tt,
  record db {
    device_groups =
        keep_if (λ m. not (str_eq m.tenant_id tenant && str_eq m.device_id device))
          db.device_groups;
  },
)

abbrev pub retired_device : Time → DeviceRow → DeviceRow
retired_device t row = record row { status = retired; deleted_at = some t; updated_at = t }

abbrev pub retire_row : String → String → Time → Db → Option Device × Db
retire_row tenant id t db = (
  view_of db (returning (of_key tenant id) (retired_device t) db.devices),
  record db { devices = update_where (of_key tenant id) (retired_device t) db.devices },
)

-- `canAuthenticateDeviceStatus`
unfoldable pub can_authenticate : DeviceStatus → Bool
can_authenticate retired = false
can_authenticate wiped = false
can_authenticate _ = true

module _ (env : Env) where
  -- `CreateDevice`
  unfoldable pub create_device : String → DeviceUpsert → Store Device
  create_device tenant req = do
    require (not (str_eq req.name "" || str_eq req.secret_hash "")) invalid_input
    t ← now
    let groups = unique_strings req.group_ids
    id ← new_uuid env
    begin_tx
    created ← now
    ensure_active_groups tenant groups
    tx_exec (insert_device (new_device id tenant req t created))
    insert_groups tenant id t groups
    device ← load_device tenant id
    commit
    pure device

  -- `RetireDevice`; an error of the provisioner is only logged
  unfoldable pub retire_device : String → String → Store Device
  retire_device tenant id = do
    t ← now
    changed ← exec (retire_row tenant id t)
    device ← found changed not_found
    provision env (disable device.id)
    pure device

  -- `Authenticate`
  unfoldable pub authenticate : String → String → String → Store Device
  authenticate tenant device secret = do
    require (not (str_eq tenant "" || str_eq device "" || str_eq secret "")) invalid_input
    row ← query (λ db. view_of db (
        find_if (λ d. of_key tenant device d && str_eq d.secret_hash (env.hash_token secret))
          db.devices))
    d ← found row not_found
    require (can_authenticate d.status) not_found
    pure d

-- `UpdateDevice`
unfoldable pub update_device : String → String → DeviceUpsert → Store Device
update_device tenant id req = do
  require (not (str_eq req.name "")) invalid_input
  t ← now
  begin_tx
  let groups = unique_strings req.group_ids
  ensure_active_groups tenant groups
  changed ← tx_exec (update_row tenant id req t)
  row ← found changed not_found
  tx_exec (delete_groups tenant row.id)
  insert_groups tenant row.id t groups
  device ← load_device tenant row.id
  commit
  pure device
