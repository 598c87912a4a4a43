-- ===== src/Files.antt =====
-- server/internal/files/postgres/store.go: the files of a tenant and the artifacts that hold their
-- bytes. A foreign key keeps an artifact that a file or a certificate refers to.
pub mod Managed
pub mod Certificates
use xmdm.Common.{
  ℕ, List, [], ◌∷◌, String, Bool, true, false, ◌&&◌, ◌||◌, not, Option, none, some, if◌then◌else◌,
  str_eq, find_if, keep_if, any_of, ltb,
}
use xmdm.Common.Int.{ℤ, pos, ltb_ℤ, leb_ℤ}
use xmdm.Pagination.{Params, default_limit, normalize}
use xmdm.Database.Rows.{Db, ArtifactRow, FileRow, CertificateRow, VersionRow}
use xmdm.Database.{
  database, invalid_input, not_found, conflict, Env, Store, pure, raise, ◌>>=◌, ◌>>◌, catch, query,
  exec, now, new_uuid, begin_tx, tx_query, tx_exec, commit, require, found,
}
use xmdm.Database.Query.{order_by, slice}
use xmdm.Database.Table.{
  of_tenant, of_id, new_base, retired_base, oldest_first, insert_row, change_row, retire_row,
  answered, Written, none_fits, violates, written,
}
use xmdm.Database.Tables.{artifacts_table, files_table, certificates_table}

-- `FileUpsert`, and `CertificateUpsert` of server/internal/certificates/model.go
pub record Upload : Type 0 where
  pub name : String
  pub storage_key : String
  pub checksum : String
  pub size_bytes : ℤ
  pub mime_type : String

-- The rows that a JOIN finds a partner for.
abbrev pub joined {ℓ κ} : {A : Type ℓ} {B : Type κ} → (A → Option B) → List A → List B
joined f [] = []
joined f (a ∷ rest) = let tail = joined f rest in elim (f a) [ none ↦ tail | some b ↦ b ∷ tail ]

-- JOIN artifacts a ON a.tenant_id = … AND a.id = …
abbrev pub artifact_by_id : Db → String → String → Option ArtifactRow
artifact_by_id db tenant id = find_if (of_id artifacts_table tenant id) db.catalog.artifacts

abbrev pub beside : {A B : Type 0} → A → Option B → Option (A × B)
beside a none = none
beside a (some b) = some (a, b)

unfoldable pub file_with_artifact : Db → FileRow → Option (FileRow × ArtifactRow)
file_with_artifact db f = beside f (artifact_by_id db f.base.tenant_id f.artifact_id)

abbrev pub chained : {A B : Type 0} → (A → Option B) → Option A → Option B
chained f none = none
chained f (some a) = f a

abbrev pub eq_size : ℤ → ℤ → Bool
eq_size a b = leb_ℤ a b && leb_ℤ b a

-- The artifact under the storage key is the one of the upload.
abbrev pub same_content : Upload → ArtifactRow → Bool
same_content req a =
    str_eq a.checksum req.checksum
    && eq_size a.size_bytes req.size_bytes
    && str_eq a.mime_type req.mime_type

-- UNIQUE (tenant_id, storage_key)
abbrev pub of_key : String → String → ArtifactRow → Bool
of_key tenant key a = of_tenant artifacts_table tenant a && str_eq a.storage_key key

-- `ensureArtifact`, with the artifact that has the storage key
unfoldable pub reuse_or_insert : Env → String → Upload → Option ArtifactRow → Store ArtifactRow
reuse_or_insert env tenant req (some a) =
    if not (same_content req a) then raise conflict else pure a
reuse_or_insert env tenant req none = do
  id ← new_uuid env
  t ← now
  created ← now
  row ← tx_exec (
      insert_row artifacts_table (of_key tenant req.storage_key) (record {
        base = new_base id tenant created t;
        storage_key = req.storage_key;
        checksum = req.checksum;
        size_bytes = req.size_bytes;
        mime_type = req.mime_type;
      }))
  answered conflict row

-- `ensureArtifact`
unfoldable pub ensure_artifact : Env → String → Upload → Store ArtifactRow
ensure_artifact env tenant req = do
  row ← tx_query (λ db. find_if (of_key tenant req.storage_key) db.catalog.artifacts)
  reuse_or_insert env tenant req row

abbrev pub is_invalid_upload : Upload → Bool
is_invalid_upload req =
    str_eq req.name ""
    || str_eq req.storage_key ""
    || str_eq req.checksum ""
    || str_eq req.mime_type ""
    || ltb_ℤ req.size_bytes (pos 0)

-- UNIQUE (tenant_id, name)
abbrev pub file_named : String → String → FileRow → Bool
file_named tenant name f = of_tenant files_table tenant f && str_eq f.name name

-- `CreateFile`
unfoldable pub create_file : Env → String → Upload → Store (FileRow × ArtifactRow)
create_file env tenant req = do
  require (not (is_invalid_upload req)) invalid_input
  begin_tx
  a ← ensure_artifact env tenant req
  id ← new_uuid env
  t ← now
  created ← now
  row ← tx_exec (
      insert_row files_table (file_named tenant req.name) (record {
        base = new_base id tenant created t;
        name = req.name;
        artifact_id = a.base.id;
        checksum = req.checksum;
        mime_type = req.mime_type;
      }))
  f ← answered conflict row
  commit
  pure (f, a)

-- `ListFiles`
unfoldable pub list_files : String → Params → Store (List (FileRow × ArtifactRow))
list_files tenant page = do
  let p = normalize page default_limit (pos 100)
  query (λ db. slice p (
      joined (file_with_artifact db) (
        order_by (oldest_first files_table)
          (keep_if (of_tenant files_table tenant) db.catalog.files))))

-- `GetFile`
unfoldable pub get_file : String → String → Store (FileRow × ArtifactRow)
get_file tenant id = do
  row ← query (λ db.
      chained (file_with_artifact db) (find_if (of_id files_table tenant id) db.catalog.files))
  found row not_found

-- `loadArtifactByID`
unfoldable pub load_artifact_by_id : String → String → Store ArtifactRow
load_artifact_by_id tenant id = do
  row ← query (λ db. artifact_by_id db tenant id)
  found row database

abbrev pub optional : {A : Type 0} → Store A → Store (Option A)
optional m = catch (m >>= λ a. pure (some a)) (λ e. pure none)

-- `RetireFile`; the artifact is shown where it can be loaded
unfoldable pub retire_file : String → String → Store (FileRow × Option ArtifactRow)
retire_file tenant id = do
  f ←
      retire_row files_table (λ t f. record f { base = retired_base t f.base })
        (of_id files_table tenant id)
  a ← optional (load_artifact_by_id tenant f.artifact_id)
  pure (f, a)

abbrev pub file_refers : ArtifactRow → FileRow → Bool
file_refers a f = str_eq f.base.tenant_id a.base.tenant_id && str_eq f.artifact_id a.base.id

abbrev pub certificate_refers : ArtifactRow → CertificateRow → Bool
certificate_refers a c = str_eq c.base.tenant_id a.base.tenant_id && str_eq c.artifact_id a.base.id

abbrev pub names_artifact : Option String → String → Bool
names_artifact none id = false
names_artifact (some used) id = str_eq used id

abbrev pub version_refers : ArtifactRow → VersionRow → Bool
version_refers a v = str_eq v.tenant_id a.base.tenant_id && names_artifact v.artifact_id a.base.id

-- The WHERE clause of `ListOrphanArtifacts`.
unfoldable pub is_orphan : Db → String → ArtifactRow → Bool
is_orphan db tenant a =
    of_tenant artifacts_table tenant a
    && not (any_of (file_refers a) db.catalog.files)
    && not (any_of (certificate_refers a) db.catalog.certificates)
    && not (any_of (version_refers a) db.catalog.app_versions)

-- `ListOrphanArtifacts`; rows of one time come in the order of the table
unfoldable pub list_orphan_artifacts : String → Store (List ArtifactRow)
list_orphan_artifacts tenant = query (λ db.
    order_by (λ a b. ltb a.base.created_at b.base.created_at)
      (keep_if (is_orphan db tenant) db.catalog.artifacts))

-- A row, or the error of the driver where the statement fits none.
unfoldable pub row_or_error : {R : Type 0} → Written R → Store R
row_or_error none_fits = raise database
row_or_error violates = raise database
row_or_error (written row) = pure row

-- `RetireArtifact`
unfoldable pub retire_artifact : String → String → Store ArtifactRow
retire_artifact tenant id = do
  t ← now
  row ← exec (
      change_row artifacts_table (of_id artifacts_table tenant id)
        (λ a. record a { base = retired_base t a.base }))
  row_or_error row

-- The foreign keys of files and certificates.
abbrev pub is_held : String → String → Db → Bool
is_held tenant id db =
    any_of (λ f. str_eq f.base.tenant_id tenant && str_eq f.artifact_id id) db.catalog.files
    || any_of (λ c. str_eq c.base.tenant_id tenant && str_eq c.artifact_id id)
        db.catalog.certificates

-- DELETE FROM artifacts …, which the foreign keys may refuse.
unfoldable pub delete_row : String → String → Db → Bool × Db
delete_row tenant id db = if is_held tenant id db then (false, db) else (
  true,
  record db {
    catalog = record db.catalog {
      artifacts = keep_if (λ a. not (of_id artifacts_table tenant id a)) db.catalog.artifacts;
    };
  },
)

-- `DeleteArtifact`
unfoldable pub delete_artifact : String → String → Store (Unit {0})
delete_artifact tenant id = do done ← exec (delete_row tenant id); require done database
