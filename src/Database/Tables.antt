-- ===== src/Database/Tables.antt =====
-- The tables of policies, of what they assign, of apps, artifacts, files and certificates.
use xmdm.Database.Rows.{
  PolicyRow, BindingRow, AppRow, ArtifactRow, FileRow, CertificateRow, ManagedFileRow,
}
use xmdm.Database.Table.{Table}

abbrev pub policies_table : Table PolicyRow
policies_table = record {
  rows = λ db. db.catalog.policies;
  with_rows = λ rows db. record db { catalog = record db.catalog { policies = rows } };
  base = λ p. p.base;
}

abbrev pub policy_apps_table : Table BindingRow
policy_apps_table = record {
  rows = λ db. db.catalog.policy_apps;
  with_rows = λ rows db. record db { catalog = record db.catalog { policy_apps = rows } };
  base = λ b. b.base;
}

abbrev pub policy_certificates_table : Table BindingRow
policy_certificates_table = record {
  rows = λ db. db.catalog.policy_certificates;
  with_rows = λ rows db. record db { catalog = record db.catalog { policy_certificates = rows } };
  base = λ b. b.base;
}

abbrev pub policy_managed_files_table : Table BindingRow
policy_managed_files_table = record {
  rows = λ db. db.catalog.policy_managed_files;
  with_rows = λ rows db. record db { catalog = record db.catalog { policy_managed_files = rows } };
  base = λ b. b.base;
}

abbrev pub apps_table : Table AppRow
apps_table = record {
  rows = λ db. db.catalog.apps;
  with_rows = λ rows db. record db { catalog = record db.catalog { apps = rows } };
  base = λ a. a.base;
}

abbrev pub artifacts_table : Table ArtifactRow
artifacts_table = record {
  rows = λ db. db.catalog.artifacts;
  with_rows = λ rows db. record db { catalog = record db.catalog { artifacts = rows } };
  base = λ a. a.base;
}

abbrev pub files_table : Table FileRow
files_table = record {
  rows = λ db. db.catalog.files;
  with_rows = λ rows db. record db { catalog = record db.catalog { files = rows } };
  base = λ f. f.base;
}

abbrev pub certificates_table : Table CertificateRow
certificates_table = record {
  rows = λ db. db.catalog.certificates;
  with_rows = λ rows db. record db { catalog = record db.catalog { certificates = rows } };
  base = λ c. c.base;
}

abbrev pub managed_files_table : Table ManagedFileRow
managed_files_table = record {
  rows = λ db. db.catalog.managed_files;
  with_rows = λ rows db. record db { catalog = record db.catalog { managed_files = rows } };
  base = λ m. m.base;
}
