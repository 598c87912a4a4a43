-- ===== src/Apps.antt =====
-- server/internal/apps/postgres/store.go: the apps of a tenant and their versions.
pub mod Versions
pub mod System
pub mod Latest
mod Tests
use xmdm.Common.{
  ℕ, suc, List, [], String, Bool, true, false, ◌&&◌, ◌||◌, not, Option, none, some, if◌then◌else◌,
  str_eq, find_if,
}
use xmdm.Pagination.{Params}
use xmdm.Database.Rows.{Db, AppRow, RecordStatus}
use xmdm.Database.{
  invalid_input, not_found, forbidden, conflict, Env, Store, pure, raise, ◌>>=◌, catch, query, exec,
  now, new_uuid, found,
}
use xmdm.Database.Table.{
  of_tenant, of_id, is_active, new_base, retired_base, newest_first, select_page, select_one,
  insert_row, update_row, change_row, answered, count_of, count_all, Written, none_fits, violates,
  written,
}
use xmdm.Database.Tables.{apps_table}

pub record AppUpsert : Type 0 where
  pub package_name : String
  pub name : String

pub record OverviewStats : Type 0 where
  pub total : ℕ
  pub active : ℕ

-- UNIQUE (tenant_id, package_name)
abbrev pub of_package : String → String → AppRow → Bool
of_package tenant package_id a = of_tenant apps_table tenant a && str_eq a.package_name package_id

abbrev pub is_blank_app : AppUpsert → Bool
is_blank_app req = str_eq req.package_name "" || str_eq req.name ""

-- The row of `CreateApp` and `UpsertSystemOwnedApp`.
abbrev pub new_app : String → String → ℕ → ℕ → AppUpsert → Bool → AppRow
new_app id tenant created t req system_owned = record {
  base = new_base id tenant created t;
  package_name = req.package_name;
  name = req.name;
  system_owned = system_owned;
}

-- The INSERT of an app.
unfoldable pub insert_app : Env → String → AppUpsert → Bool → Store AppRow
insert_app env tenant req system_owned = do
  id ← new_uuid env
  t ← now
  created ← now
  row ← exec (
      insert_row apps_table (of_package tenant req.package_name)
        (new_app id tenant created t req system_owned))
  answered conflict row

-- The SET clause of `UpsertSystemOwnedApp`.
abbrev pub renamed_app : ℕ → String → AppRow → AppRow
renamed_app t name a = record a {
  base = record a.base { status = RecordStatus.active; updated_at = t };
  name = name;
}

-- `UpsertSystemOwnedApp`, with the app that has the package name
unfoldable pub upsert_found : Env → String → AppUpsert → Option AppRow → Store AppRow
upsert_found env tenant req none = insert_app env tenant req true
upsert_found env tenant req (some a) = if not a.system_owned then raise forbidden else (do
  t ← now
  row ← exec (
      change_row apps_table (λ b. of_package tenant req.package_name b && b.system_owned)
        (renamed_app t req.name))
  answered conflict row)

-- `UpsertSystemOwnedApp`
unfoldable pub upsert_system_owned_app : Env → String → AppUpsert → Store AppRow
upsert_system_owned_app env tenant req = if is_blank_app req then raise invalid_input else (do
  row ← query (λ db. find_if (of_package tenant req.package_name) db.catalog.apps)
  upsert_found env tenant req row)

-- `CreateApp`
unfoldable pub create_app : Env → String → AppUpsert → Store AppRow
create_app env tenant req =
    if is_blank_app req then raise invalid_input else insert_app env tenant req false

-- `ListApps`
unfoldable pub list_apps : String → Params → Store (List AppRow)
list_apps tenant page =
    select_page apps_table (newest_first apps_table) (of_tenant apps_table tenant) page

-- `GetOverviewStats`
unfoldable pub get_overview_stats : String → Store OverviewStats
get_overview_stats tenant = query (λ db. record {
  total = count_all apps_table tenant db;
  active = count_of apps_table tenant is_active db;
})

-- `GetApp`
unfoldable pub get_app : String → String → Store AppRow
get_app tenant id = select_one apps_table (of_id apps_table tenant id)

-- `GetAppByPackageName`
unfoldable pub get_app_by_package_name : String → String → Store AppRow
get_app_by_package_name tenant package_id = select_one apps_table (of_package tenant package_id)

-- `isSystemOwnedApp`
unfoldable pub is_system_owned_app : String → String → Store Bool
is_system_owned_app tenant id = do
  a ← select_one apps_table (of_id apps_table tenant id)
  pure a.system_owned

-- `UpdateApp` and `RetireApp` after their UPDATE: an app that it did not fit may be a system-owned one.
unfoldable pub changed_app : String → String → Written AppRow → Store AppRow
changed_app tenant id none_fits = do
  locked ← catch (is_system_owned_app tenant id) (λ e. pure false)
  if locked then raise forbidden else raise not_found
changed_app tenant id violates = raise conflict
changed_app tenant id (written a) = pure a

-- The WHERE clause of `UpdateApp` and `RetireApp`.
abbrev pub of_operator : String → String → AppRow → Bool
of_operator tenant id a = of_id apps_table tenant id a && not a.system_owned

-- The SET clause of `UpdateApp`.
abbrev pub updated_app : ℕ → AppUpsert → AppRow → AppRow
updated_app t req a = record a {
  base = record a.base { updated_at = t };
  package_name = req.package_name;
  name = req.name;
}

abbrev pub retired_app : ℕ → AppRow → AppRow
retired_app t a = record a { base = retired_base t a.base }

-- `UpdateApp`
unfoldable pub update_app : String → String → AppUpsert → Store AppRow
update_app tenant id req = if is_blank_app req then raise invalid_input else (do
  t ← now
  row ← exec (
      update_row apps_table (of_operator tenant id) (updated_app t req)
        (λ a other. of_package tenant req.package_name other))
  changed_app tenant id row)

-- `RetireApp`
unfoldable pub retire_app : String → String → Store AppRow
retire_app tenant id = do
  t ← now
  row ← exec (change_row apps_table (of_operator tenant id) (retired_app t))
  changed_app tenant id row
