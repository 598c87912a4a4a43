-- ===== src/Policies/Bindings.antt =====
-- What a policy of server/internal/policy/postgres/store.go assigns: apps, certificates and managed
-- files. The three tables have the same columns and the same six operations.
use xmdm.Common.{
  List, String, Bool, ◌&&◌, ◌||◌, not, if◌then◌else◌, str_eq, any_of, ◌==◌, none, some,
}
use xmdm.Pagination.{Params}
use xmdm.Database.Rows.{Db, Time, BindingRow, RecordStatus}
use xmdm.Database.{
  invalid_input, not_found, conflict, Env, Store, raise, ◌>>=◌, ◌>>◌, query, exec, now, new_uuid,
  require,
}
use xmdm.Database.Query.{update_where, count_where}
use xmdm.Database.Table.{
  Table, of_tenant, of_id, is_active, is_retired, new_base, oldest_first, select_all, select_page,
  select_one, upsert_row, answered,
}
use xmdm.Database.Tables.{
  policies_table, policy_apps_table, policy_certificates_table, policy_managed_files_table,
  apps_table, certificates_table, managed_files_table,
}

-- A row of the table that is not retired.
abbrev pub in_use : {R : Type 0} → Table R → String → String → Db → Bool
in_use T tenant id db =
    any_of (λ r. of_id T tenant id r && not (is_retired (T.base r).status)) (T.rows db)

abbrev pub active_base : Time → BindingRow → BindingRow
active_base t b = record b {
  base = record b.base { status = RecordStatus.active; updated_at = t; deleted_at = none };
}

abbrev pub disabled_base : Time → BindingRow → BindingRow
disabled_base t b = record b {
  base = record b.base { status = RecordStatus.disabled; updated_at = t; deleted_at = some t };
}

module _ (T : Table BindingRow) where
  abbrev pub of_policy : String → String → BindingRow → Bool
  of_policy tenant policy b = of_tenant T tenant b && str_eq b.policy_id policy

  -- WHERE tenant_id = … AND policy_id = … AND app_id = …
  abbrev pub of_pair : String → String → String → BindingRow → Bool
  of_pair tenant policy item b = of_policy tenant policy b && str_eq b.item_id item

  unfoldable pub list_bindings : String → String → Params → Store (List BindingRow)
  list_bindings tenant policy page = select_page T (oldest_first T) (of_policy tenant policy) page

  unfoldable pub list_active_bindings : String → String → Store (List BindingRow)
  list_active_bindings tenant policy =
      select_all T (oldest_first T) (λ b. of_policy tenant policy b && is_active b.base.status)

  unfoldable pub get_binding : String → String → String → Store BindingRow
  get_binding tenant policy item = select_one T (of_pair tenant policy item)

  unfoldable pub add_binding :
      {R : Type 0} → Table R → Env → String → String → String → Store BindingRow
  add_binding items env tenant policy item =
      if str_eq tenant "" || str_eq policy "" || str_eq item "" then raise invalid_input else (do
        policy_exists ← query (in_use policies_table tenant policy)
        require policy_exists not_found
        item_exists ← query (in_use items tenant item)
        require item_exists not_found
        id ← new_uuid env
        t ← now
        row ← exec (
            upsert_row T (of_pair tenant policy item)
              (record { base = new_base id tenant t t; policy_id = policy; item_id = item })
              (active_base t))
        answered conflict row)

  unfoldable pub remove_binding : String → String → String → Store (Unit {0})
  remove_binding tenant policy item = do
    t ← now
    affected ← exec (λ db. (
      count_where (of_pair tenant policy item) (T.rows db),
      T.with_rows (update_where (of_pair tenant policy item) (disabled_base t) (T.rows db)) db,
    ))
    require (not (affected == 0)) not_found

-- `ListPolicyApps`
unfoldable pub list_policy_apps : String → String → Params → Store (List BindingRow)
list_policy_apps = list_bindings policy_apps_table

-- `ListActivePolicyApps`
unfoldable pub list_active_policy_apps : String → String → Store (List BindingRow)
list_active_policy_apps = list_active_bindings policy_apps_table

-- `GetPolicyApp`
unfoldable pub get_policy_app : String → String → String → Store BindingRow
get_policy_app = get_binding policy_apps_table

-- `AddPolicyApp`
unfoldable pub add_policy_app : Env → String → String → String → Store BindingRow
add_policy_app = add_binding policy_apps_table apps_table

-- `RemovePolicyApp`
unfoldable pub remove_policy_app : String → String → String → Store (Unit {0})
remove_policy_app = remove_binding policy_apps_table

-- `ListPolicyCertificates`
unfoldable pub list_policy_certificates : String → String → Params → Store (List BindingRow)
list_policy_certificates = list_bindings policy_certificates_table

-- `ListActivePolicyCertificates`
unfoldable pub list_active_policy_certificates : String → String → Store (List BindingRow)
list_active_policy_certificates = list_active_bindings policy_certificates_table

-- `GetPolicyCertificate`
unfoldable pub get_policy_certificate : String → String → String → Store BindingRow
get_policy_certificate = get_binding policy_certificates_table

-- `AddPolicyCertificate`
unfoldable pub add_policy_certificate : Env → String → String → String → Store BindingRow
add_policy_certificate = add_binding policy_certificates_table certificates_table

-- `RemovePolicyCertificate`
unfoldable pub remove_policy_certificate : String → String → String → Store (Unit {0})
remove_policy_certificate = remove_binding policy_certificates_table

-- `ListPolicyManagedFiles`
unfoldable pub list_policy_managed_files : String → String → Params → Store (List BindingRow)
list_policy_managed_files = list_bindings policy_managed_files_table

-- `ListActivePolicyManagedFiles`
unfoldable pub list_active_policy_managed_files : String → String → Store (List BindingRow)
list_active_policy_managed_files = list_active_bindings policy_managed_files_table

-- `GetPolicyManagedFile`
unfoldable pub get_policy_managed_file : String → String → String → Store BindingRow
get_policy_managed_file = get_binding policy_managed_files_table

-- `AddPolicyManagedFile`
unfoldable pub add_policy_managed_file : Env → String → String → String → Store BindingRow
add_policy_managed_file = add_binding policy_managed_files_table managed_files_table

-- `RemovePolicyManagedFile`
unfoldable pub remove_policy_managed_file : String → String → String → Store (Unit {0})
remove_policy_managed_file = remove_binding policy_managed_files_table
