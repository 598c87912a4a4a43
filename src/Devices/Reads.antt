-- ===== src/Devices/Reads.antt =====
-- The reads of server/internal/device/postgres/store.go.
use xmdm.Common.{
  ℕ, List, map, String, Bool, true, false, ◌&&◌, ◌||◌, Option, none, some, keep_if, find_if, length,
}
use xmdm.Common.Int.{pos}
use xmdm.Pagination.{Params, default_limit, normalize}
use xmdm.Database.Rows.{
  DeviceRow, DeviceStatus, pending, enrolled, active, locked, suspended, retired, wiped,
}
use xmdm.Database.{not_found, Store, ◌>>=◌, query, found}
use xmdm.Database.Query.{order_by, slice, count_where, earlier}
use xmdm.Devices.{Device, view, view_of, of_tenant, of_key}

pub record OverviewStats : Type 0 where
  pub total : ℕ
  pub active : ℕ
  pub pending : ℕ
  pub retired_or_wiped : ℕ
  pub assigned_policy : ℕ

pub record StatusCounts : Type 0 where
  pub pending : ℕ
  pub enrolled : ℕ
  pub active : ℕ
  pub locked : ℕ
  pub suspended : ℕ
  pub retired : ℕ
  pub wiped : ℕ

abbrev newest_first : DeviceRow → DeviceRow → Bool
newest_first a b = earlier b.created_at b.id a.created_at a.id

abbrev pub oldest_first : DeviceRow → DeviceRow → Bool
oldest_first a b = earlier a.created_at a.id b.created_at b.id

-- `ListDevices`
unfoldable pub list_devices : String → Params → Store (List Device)
list_devices tenant page = do
  let p = normalize page default_limit (pos 100)
  query (λ db.
      map (view db) (slice p (order_by newest_first (keep_if (of_tenant tenant) db.devices))))

abbrev is_in_use : DeviceStatus → Bool
is_in_use active = true
is_in_use enrolled = true
is_in_use _ = false

-- `ListActiveDevices`
unfoldable pub list_active_devices : String → Store (List Device)
list_active_devices tenant = query (λ db.
    map (view db)
      (order_by oldest_first (keep_if (λ d. of_tenant tenant d && is_in_use d.status) db.devices)))

abbrev pub same_status : DeviceStatus → DeviceStatus → Bool
same_status pending pending = true
same_status enrolled enrolled = true
same_status active active = true
same_status locked locked = true
same_status suspended suspended = true
same_status retired retired = true
same_status wiped wiped = true
same_status _ _ = false

abbrev has_policy : Option String → Bool
has_policy none = false
has_policy (some id) = true

-- `GetOverviewStats`
unfoldable pub get_overview_stats : String → Store OverviewStats
get_overview_stats tenant = query (λ db.
    let rows = keep_if (of_tenant tenant) db.devices in
    record {
      total = length rows;
      active = count_where (λ d. same_status d.status active) rows;
      pending = count_where (λ d. same_status d.status pending) rows;
      retired_or_wiped =
          count_where (λ d. same_status d.status retired || same_status d.status wiped) rows;
      assigned_policy = count_where (λ d. has_policy d.policy_id) rows;
    })

-- `GetStatusCounts`
unfoldable pub get_status_counts : String → Store StatusCounts
get_status_counts tenant = query (λ db.
    let counted : DeviceStatus → ℕ = λ status.
      count_where (λ d. same_status d.status status) (keep_if (of_tenant tenant) db.devices) in
    record {
      pending = counted pending;
      enrolled = counted enrolled;
      active = counted active;
      locked = counted locked;
      suspended = counted suspended;
      retired = counted retired;
      wiped = counted wiped;
    })

-- `GetDevice`
unfoldable pub get_device : String → String → Store Device
get_device tenant id = do
  device ← query (λ db. view_of db (find_if (of_key tenant id) db.devices))
  found device not_found
