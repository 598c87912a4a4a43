-- ===== src/Cleanup/Tests.antt =====
-- A cleanup of server/internal/artifactcleanup/cleanup.go at given rows.
use xmdm.Common.{◌≡◌, refl, String, [], ◌∷◌, true, none, some, find_if, inl, inr, Among}
use xmdm.Common.Int.{pos}
use xmdm.Database.Rows.{Db, ArtifactRow, VersionRow, uploaded, empty_db, empty_catalog}
use xmdm.Database.{
  Sys, calm, pure, ◌>>=◌, query, exec, now, step, attempt, advance, require, handled, delete_object,
}
use xmdm.Database.Query.{update_where, order_by, insert_by}
use xmdm.Database.Table.{of_id, new_base, change_row}
use xmdm.Files.{
  is_orphan, list_orphan_artifacts, retire_artifact, row_or_error, delete_row, delete_artifact,
}
use xmdm.Cleanup.{run, clean_found, clean_all, retire_first, delete_both}
use xmdm.Database.Tables.{artifacts_table}
use xmdm.Cleanup.Spared.{is_referred}
use xmdm.Cleanup.References.{run-spares}

abbrev artifact : String → ArtifactRow
artifact id = record {
  base = new_base id "t" 1 1;
  storage_key = id;
  checksum = "c";
  size_bytes = pos 4;
  mime_type = "m";
}

abbrev version : VersionRow
version = record {
  id = "v";
  tenant_id = "t";
  app_id = "p";
  status = uploaded;
  version_name = "1";
  version_code = pos 1;
  artifact_id = some "a1";
  checksum = "c";
  published_at = none;
  created_at = 1;
}

abbrev tables : Db
tables = record empty_db {
  catalog = record empty_catalog {
    artifacts = artifact "a1" ∷ artifact "a2" ∷ [];
    app_versions = version ∷ [];
  };
}

abbrev start : Sys
start = record (calm tables 5) { objects = "a1" ∷ "a2" ∷ [] }

-- The artifact of no version goes, its bytes too.
orphan_gone :
    ((run true true "t" true start).1.objects ≡ "a1" ∷ [])
    × ((run true true "t" true start).1.db.catalog.artifacts ≡ artifact "a1" ∷ [])
unfolding run clean_found clean_all retire_first delete_both list_orphan_artifacts is_orphan
    retire_artifact row_or_error delete_row delete_artifact change_row update_where order_by
    insert_by query exec now step attempt advance require handled delete_object ◌>>=◌ pure
orphan_gone = (refl, refl)

referred : is_referred start.db "t" "a1" ≡ true
unfolding is_referred
referred = refl

run-spares_example :
    (find_if (of_id artifacts_table "t" "a1") (run true true "t" true start).1.db.catalog.artifacts
      ≡ some (artifact "a1"))
    × Among "a1" (run true true "t" true start).1.objects
run-spares_example =
    run-spares true true true "t" "t" "a1" (artifact "a1") start referred refl
      (inl refl, (inr refl, tt)) (inl refl)
