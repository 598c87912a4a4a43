-- ===== src/Groups.antt =====
-- server/internal/group/postgres/store.go: the groups of a tenant and the devices that are in them.
pub mod Retired
mod Tests
use xmdm.Common.{List, map, String, Bool, ◌&&◌, if◌then◌else◌, str_eq, keep_if, any_of}
use xmdm.Common.Int.{pos}
use xmdm.Pagination.{Params, default_limit, normalize}
use xmdm.Database.Rows.{Db, DeviceRow, GroupRow}
use xmdm.Database.{database, invalid_input, Env, Store, raise, ◌>>=◌, query, exec, now, new_uuid}
use xmdm.Database.Query.{order_by, slice}
use xmdm.Database.Table.{
  Table, of_tenant, of_id, is_active, new_base, retired_base, newest_first, select_all, select_page,
  select_one, insert_row, update_row, retire_row, answered,
}
use xmdm.Devices.{Device, view}
use xmdm.Devices.Reads.{oldest_first}

abbrev pub groups_table : Table GroupRow
groups_table = record {
  rows = λ db. db.groups;
  with_rows = λ rows db. record db { groups = rows };
  base = λ g. g.base;
}

-- UNIQUE (tenant_id, name)
abbrev pub has_name : String → String → GroupRow → Bool
has_name tenant name g = of_tenant groups_table tenant g && str_eq g.name name

-- `CreateGroup`
unfoldable pub create_group : Env → String → String → Store GroupRow
create_group env tenant name = if str_eq name "" then raise invalid_input else (do
  id ← new_uuid env
  t ← now
  created ← now
  row ← exec (
      insert_row groups_table (has_name tenant name)
        (record { base = new_base id tenant created t; name = name }))
  answered database row)

-- `ListGroups`
unfoldable pub list_groups : String → Params → Store (List GroupRow)
list_groups tenant page =
    select_page groups_table (newest_first groups_table) (of_tenant groups_table tenant) page

-- `ListActiveGroups`
unfoldable pub list_active_groups : String → Store (List GroupRow)
list_active_groups tenant =
    select_all groups_table (newest_first groups_table)
      (λ g. of_tenant groups_table tenant g && is_active g.base.status)

-- `GetGroup`
unfoldable pub get_group : String → String → Store GroupRow
get_group tenant id = select_one groups_table (of_id groups_table tenant id)

abbrev in_group : Db → String → String → DeviceRow → Bool
in_group db tenant group d =
    str_eq d.tenant_id tenant
    && any_of
        (λ m. str_eq m.tenant_id d.tenant_id && str_eq m.device_id d.id && str_eq m.group_id group)
        db.device_groups

-- `ListGroupDevices`
unfoldable pub list_group_devices : String → String → Params → Store (List Device)
list_group_devices tenant group page =
    let p = normalize page default_limit (pos 100) in
    query (λ db.
      map (view db)
        (slice p (order_by oldest_first (keep_if (in_group db tenant group) db.devices))))

-- `UpdateGroup`
unfoldable pub update_group : String → String → String → Store GroupRow
update_group tenant id name = if str_eq name "" then raise invalid_input else (do
  t ← now
  row ← exec (
      update_row groups_table (of_id groups_table tenant id)
        (λ g. record g { base = record g.base { updated_at = t }; name = name })
        (λ g other. has_name tenant name other))
  answered database row)

-- `RetireGroup`
unfoldable pub retire_group : String → String → Store GroupRow
retire_group tenant id =
    retire_row groups_table (λ t g. record g { base = retired_base t g.base })
      (of_id groups_table tenant id)
