-- ===== src/Files/Managed.antt =====
-- server/internal/managedfiles/postgres/store.go: the files that devices are given, by path.
use xmdm.Common.{
  ℕ, List, String, Bool, ◌&&◌, ◌||◌, not, Option, none, str_eq, trim_space, find_if, keep_if,
}
use xmdm.Common.Int.{pos}
use xmdm.Pagination.{Params, default_limit, normalize}
use xmdm.Database.Rows.{Db, Time, RecordStatus, ArtifactRow, FileRow, ManagedFileRow}
use xmdm.Database.{
  database, invalid_input, not_found, Env, Store, pure, ◌>>=◌, ◌>>◌, query, now, new_uuid, begin_tx,
  tx_query, tx_exec, commit, require, found,
}
use xmdm.Database.Query.{order_by, slice}
use xmdm.Database.Table.{
  of_tenant, of_id, is_active, new_base, retired_base, newest_first, upsert_row, retire_row,
  answered, count_of, count_all,
}
use xmdm.Database.Tables.{files_table, managed_files_table}
use xmdm.Files.{joined, chained, beside, file_with_artifact, optional}

pub record ManagedFileUpsert : Type 0 where
  pub file_id : String
  pub path : String
  pub replace_variables : Bool

pub record OverviewStats : Type 0 where
  pub total : ℕ
  pub active : ℕ

-- The query of `loadSourceFile`.
abbrev pub source_of : String → String → Db → Option (FileRow × ArtifactRow)
source_of tenant id db =
    chained (file_with_artifact db) (find_if (of_id files_table tenant id) db.catalog.files)

-- `loadSourceFile`, with the read that it is given: one of a transaction or of the pool
unfoldable pub load_source_file :
    ((Db → Option (FileRow × ArtifactRow)) → Store (Option (FileRow × ArtifactRow)))
    → String
    → String
    → Store (FileRow × ArtifactRow)
load_source_file read tenant id = do
  row ← read (source_of tenant id)
  source ← found row not_found
  require (is_active source.0.base.status) not_found
  pure source

-- UNIQUE (tenant_id, path)
abbrev pub of_path : String → String → ManagedFileRow → Bool
of_path tenant path m = of_tenant managed_files_table tenant m && str_eq m.path path

-- The DO UPDATE clause of `CreateManagedFile`.
abbrev pub replaced : Time → ManagedFileUpsert → ManagedFileRow → ManagedFileRow
replaced t req m = record m {
  base = record m.base { status = RecordStatus.active; deleted_at = none; updated_at = t };
  file_id = req.file_id;
  replace_variables = req.replace_variables;
}

-- `CreateManagedFile`
unfoldable pub create_managed_file :
    Env → String → ManagedFileUpsert → Store (ManagedFileRow × (FileRow × ArtifactRow))
create_managed_file env tenant req = do
  require (not (str_eq req.file_id "" || str_eq (trim_space req.path) "")) invalid_input
  begin_tx
  source ← load_source_file tx_query tenant req.file_id
  id ← new_uuid env
  t ← now
  created ← now
  row ← tx_exec (
      upsert_row managed_files_table (of_path tenant (trim_space req.path))
        (record {
          base = new_base id tenant created t;
          file_id = req.file_id;
          path = trim_space req.path;
          replace_variables = req.replace_variables;
        })
        (replaced t req))
  m ← answered database row
  commit
  pure (m, source)

-- The joins with the file and its artifact.
unfoldable pub with_source : Db → ManagedFileRow → Option (ManagedFileRow × (FileRow × ArtifactRow))
with_source db m = beside m (source_of m.base.tenant_id m.file_id db)

-- `ListManagedFiles`
unfoldable pub list_managed_files :
    String → Params → Store (List (ManagedFileRow × (FileRow × ArtifactRow)))
list_managed_files tenant page = do
  let p = normalize page default_limit (pos 100)
  query (λ db. slice p (
      joined (with_source db) (
        order_by (newest_first managed_files_table)
          (keep_if (of_tenant managed_files_table tenant) db.catalog.managed_files))))

-- `GetOverviewStats`
unfoldable pub get_overview_stats : String → Store OverviewStats
get_overview_stats tenant = query (λ db. record {
  total = count_all managed_files_table tenant db;
  active = count_of managed_files_table tenant is_active db;
})

-- `GetManagedFile`
unfoldable pub get_managed_file : String → String → Store (ManagedFileRow × (FileRow × ArtifactRow))
get_managed_file tenant id = do
  row ← query (λ db.
      chained (with_source db)
        (find_if (of_id managed_files_table tenant id) db.catalog.managed_files))
  found row not_found

-- `RetireManagedFile`; the file is shown where it can be loaded and is active
unfoldable pub retire_managed_file :
    String → String → Store (ManagedFileRow × Option (FileRow × ArtifactRow))
retire_managed_file tenant id = do
  m ←
      retire_row managed_files_table (λ t m. record m { base = retired_base t m.base })
        (of_id managed_files_table tenant id)
  source ← optional (load_source_file query tenant m.file_id)
  pure (m, source)
