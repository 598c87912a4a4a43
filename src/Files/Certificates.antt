-- ===== src/Files/Certificates.antt =====
-- server/internal/certificates/postgres/store.go: the certificates of a tenant, with the artifacts
-- that hold them.
use xmdm.Common.{ℕ, List, String, Bool, ◌&&◌, not, Option, str_eq, find_if, keep_if}
use xmdm.Common.Int.{pos}
use xmdm.Pagination.{Params, default_limit, normalize}
use xmdm.Database.Rows.{Db, ArtifactRow, CertificateRow}
use xmdm.Database.{
  invalid_input, not_found, conflict, Env, Store, pure, ◌>>=◌, ◌>>◌, query, now, new_uuid, begin_tx,
  tx_exec, commit, require, found,
}
use xmdm.Database.Query.{order_by, slice}
use xmdm.Database.Table.{
  of_tenant, of_id, is_active, new_base, retired_base, newest_first, insert_row, retire_row,
  answered, count_of, count_all,
}
use xmdm.Database.Tables.{certificates_table}
use xmdm.Files.{
  Upload, joined, chained, beside, artifact_by_id, is_invalid_upload, ensure_artifact,
  load_artifact_by_id, optional,
}

pub record OverviewStats : Type 0 where
  pub total : ℕ
  pub active : ℕ

-- UNIQUE (tenant_id, name)
abbrev certificate_named : String → String → CertificateRow → Bool
certificate_named tenant name c = of_tenant certificates_table tenant c && str_eq c.name name

unfoldable pub certificate_with_artifact :
    Db → CertificateRow → Option (CertificateRow × ArtifactRow)
certificate_with_artifact db c = beside c (artifact_by_id db c.base.tenant_id c.artifact_id)

-- `CreateCertificate`; its `ensureArtifact` is the one of the files
unfoldable pub create_certificate : Env → String → Upload → Store (CertificateRow × ArtifactRow)
create_certificate env tenant req = do
  require (not (is_invalid_upload req)) invalid_input
  begin_tx
  a ← ensure_artifact env tenant req
  id ← new_uuid env
  t ← now
  created ← now
  row ← tx_exec (
      insert_row certificates_table (certificate_named tenant req.name) (record {
        base = new_base id tenant created t;
        name = req.name;
        artifact_id = a.base.id;
        checksum = req.checksum;
      }))
  c ← answered conflict row
  commit
  pure (c, a)

abbrev page_of :
    String → (CertificateRow → Bool) → Params → Db → List (CertificateRow × ArtifactRow)
page_of tenant fits p db = slice p (
    joined (certificate_with_artifact db)
      (order_by (newest_first certificates_table) (keep_if fits db.catalog.certificates)))

-- `ListCertificates`
unfoldable pub list_certificates : String → Params → Store (List (CertificateRow × ArtifactRow))
list_certificates tenant page = do
  let p = normalize page default_limit (pos 100)
  query (page_of tenant (of_tenant certificates_table tenant) p)

-- `GetOverviewStats`
unfoldable pub get_overview_stats : String → Store OverviewStats
get_overview_stats tenant = query (λ db. record {
  total = count_all certificates_table tenant db;
  active = count_of certificates_table tenant is_active db;
})

-- `ListActiveCertificates`
unfoldable pub list_active_certificates :
    String → Params → Store (List (CertificateRow × ArtifactRow))
list_active_certificates tenant page = do
  let p = normalize page default_limit (pos 100)
  query (page_of tenant (λ c. of_tenant certificates_table tenant c && is_active c.base.status) p)

-- `GetCertificate`
unfoldable pub get_certificate : String → String → Store (CertificateRow × ArtifactRow)
get_certificate tenant id = do
  row ← query (λ db.
      chained (certificate_with_artifact db)
        (find_if (of_id certificates_table tenant id) db.catalog.certificates))
  found row not_found

-- `RetireCertificate`; the artifact is shown where it can be loaded
unfoldable pub retire_certificate : String → String → Store (CertificateRow × Option ArtifactRow)
retire_certificate tenant id = do
  c ←
      retire_row certificates_table (λ t c. record c { base = retired_base t c.base })
        (of_id certificates_table tenant id)
  a ← optional (load_artifact_by_id tenant c.artifact_id)
  pure (c, a)
