-- ===== src/Commands/Targets.antt =====
-- The devices that a command is for: `resolveTargets` and `listTargetDeviceIDs` of
-- server/internal/commands/postgres/store.go.
use mathlib.Core.List.{flat_map}
use xmdm.Common.{
  List, map, String, Bool, true, false, not, ◌&&◌, ◌||◌, if◌then◌else◌, str_eq, keep_if,
}
use xmdm.Database.Rows.{Db, DeviceRow, DeviceStatus, retired, wiped, RecordStatus, DeviceGroupRow}
use xmdm.Database.{invalid_input, invalid_target_type, Store, raise, ◌>>◌, query, require}
use xmdm.Database.Query.{order_by, earlier}
use xmdm.Commands.{Target}

-- `status <> 'retired' AND status <> 'wiped'`
abbrev pub takes_commands : DeviceStatus → Bool
takes_commands retired = false
takes_commands wiped = false
takes_commands _ = true

abbrev pub is_active_group : RecordStatus → Bool
is_active_group RecordStatus.active = true
is_active_group _ = false

abbrev device_order : DeviceRow → DeviceRow → Bool
device_order d e = earlier d.created_at d.id e.created_at e.id

abbrev ids : List DeviceRow → List String
ids = map (λ d. d.id)

unfoldable pub one_device : String → String → Db → List String
one_device tenant device db = ids (
    order_by device_order (
      keep_if (λ d. str_eq d.tenant_id tenant && str_eq d.id device && takes_commands d.status)
        db.devices))

-- The two joins: the rows of the group, its active groups, and the devices.
unfoldable pub group_devices : String → String → Db → List String
group_devices tenant group db =
    let members =
      keep_if (λ m. str_eq m.tenant_id tenant && str_eq m.group_id group) db.device_groups in
    let group_of = λ (m : DeviceGroupRow).
      keep_if
        (λ g.
          str_eq g.base.tenant_id m.tenant_id
          && str_eq g.base.id m.group_id
          && is_active_group g.base.status)
        db.groups in
    let device_of = λ (m : DeviceGroupRow).
      keep_if
        (λ d. str_eq d.tenant_id m.tenant_id && str_eq d.id m.device_id && takes_commands d.status)
        db.devices in
    ids (order_by device_order (flat_map (λ m. flat_map (λ g. device_of m) (group_of m)) members))

unfoldable pub all_devices : String → Db → List String
all_devices tenant db = ids (
    order_by device_order
      (keep_if (λ d. str_eq d.tenant_id tenant && takes_commands d.status) db.devices))

-- `resolveTargets` with `listTargetDeviceIDs`
unfoldable pub resolve_targets : String → Target → Store (List String)
resolve_targets tenant target =
    if str_eq target.type "" || str_eq target.type "device"
    then (do
      require (not (str_eq target.device_id "")) invalid_input
      query (one_device tenant target.device_id))
    else if str_eq target.type "group"
    then (do
      require (not (str_eq target.group_id "")) invalid_input
      query (group_devices tenant target.group_id))
    else if str_eq target.type "broadcast"
    then query (all_devices tenant)
    else raise invalid_target_type
