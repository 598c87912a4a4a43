-- ===== src/Apps/Versions.antt =====
-- The versions of an app in server/internal/apps/postgres/store.go.
use xmdm.Common.{
  ◌++◌, List, [], ◌∷◌, String, Bool, true, false, ◌&&◌, ◌||◌, not, Option, none, some,
  if◌then◌else◌, str_eq, find_if, keep_if, any_of, ltb, ◌==◌,
}
use xmdm.Common.Int.{ℤ, pos, leb_ℤ}
use xmdm.Pagination.{Params, default_limit, normalize}
use xmdm.Database.Rows.{Db, Time, VersionRow, VersionStatus, ArtifactRow, uploaded, published}
use xmdm.Database.{
  invalid_input, not_found, conflict, Env, Store, pure, ◌>>=◌, ◌>>◌, query, now, new_uuid, begin_tx,
  tx_query, tx_exec, commit, require, found,
}
use xmdm.Database.Query.{order_by, slice, earlier}
use xmdm.Database.Table.{of_id, is_retired, Written, violates, written, answered}
use xmdm.Database.Tables.{apps_table, artifacts_table}

pub record VersionUpsert : Type 0 where
  pub version_name : String
  pub version_code : ℤ
  pub artifact_id : Option String
  pub checksum : String
  pub publish : Bool

abbrev pub eq_ℤ : ℤ → ℤ → Bool
eq_ℤ a b = leb_ℤ a b && leb_ℤ b a

-- WHERE tenant_id = … AND app_id = …
abbrev pub of_app : String → String → VersionRow → Bool
of_app tenant app v = str_eq v.tenant_id tenant && str_eq v.app_id app

abbrev pub is_published : VersionStatus → Bool
is_published published = true
is_published uploaded = false

-- ORDER BY created_at DESC, id DESC
abbrev pub newest_version : VersionRow → VersionRow → Bool
newest_version a b = earlier b.created_at b.id a.created_at a.id

-- COALESCE(published_at, created_at)
abbrev pub release_time : VersionRow → Time
release_time v = elim v.published_at [ none ↦ v.created_at | some t ↦ t ]

-- ORDER BY COALESCE(published_at, created_at) DESC, created_at DESC, id DESC
abbrev pub latest_release : VersionRow → VersionRow → Bool
latest_release a b =
    if ltb (release_time b) (release_time a)
    then true
    else release_time a == release_time b && newest_version a b

-- LIMIT 1
abbrev pub first_of : List VersionRow → Option VersionRow
first_of [] = none
first_of (v ∷ vs) = some v

-- `ListVersions`
unfoldable pub list_versions : String → String → Params → Store (List VersionRow)
list_versions tenant app page = do
  let p = normalize page default_limit (pos 100)
  exists ← query (λ db. find_if (of_id apps_table tenant app) db.catalog.apps)
  found exists not_found
  query (λ db.
      slice p (order_by newest_version (keep_if (of_app tenant app) db.catalog.app_versions)))

-- `GetVersionByCode`
unfoldable pub get_version_by_code : String → String → ℤ → Store VersionRow
get_version_by_code tenant app code = do
  v ← query (λ db. first_of (
      order_by newest_version
        (keep_if (λ v. of_app tenant app v && eq_ℤ v.version_code code) db.catalog.app_versions)))
  found v not_found

-- `GetLatestPublishedVersion`
unfoldable pub get_latest_published_version : String → String → Store VersionRow
get_latest_published_version tenant app = do
  v ← query (λ db. first_of (
      order_by latest_release
        (keep_if (λ v. of_app tenant app v && is_published v.status) db.catalog.app_versions)))
  found v not_found

-- The LEFT JOIN of `GetVersion`.
abbrev artifact_of : Db → VersionRow → Option ArtifactRow
artifact_of db v = elim v.artifact_id [
  | none ↦ none
  | some id ↦ find_if (of_id artifacts_table v.tenant_id id) db.catalog.artifacts
]

abbrev shown : Db → Option VersionRow → Option (VersionRow × Option ArtifactRow)
shown db none = none
shown db (some v) = some (v, artifact_of db v)

-- `GetVersion`
unfoldable pub get_version : String → String → String → Store (VersionRow × Option ArtifactRow)
get_version tenant app version = do
  v ← query (λ db.
      shown db (find_if (λ v. of_app tenant app v && str_eq v.id version) db.catalog.app_versions))
  found v not_found

-- UNIQUE (tenant_id, app_id, version_name, version_code), and the primary key
abbrev pub clashes : VersionRow → VersionRow → Bool
clashes v w =
    str_eq w.id v.id
    || (of_app v.tenant_id v.app_id w
        && str_eq w.version_name v.version_name
        && eq_ℤ w.version_code v.version_code)

unfoldable pub insert_version : VersionRow → Db → Written VersionRow × Db
insert_version v db = if any_of (clashes v) db.catalog.app_versions then (violates, db) else (
  written v,
  record db { catalog = record db.catalog { app_versions = db.catalog.app_versions ++ v ∷ [] } },
)

-- The artifact of a new version has to have its checksum.
unfoldable pub check_artifact : String → Option String → String → Store (Unit {0})
check_artifact tenant none checksum = pure tt
check_artifact tenant (some id) checksum = do
  row ← tx_query (λ db. find_if (of_id artifacts_table tenant id) db.catalog.artifacts)
  a ← found row not_found
  require (str_eq a.checksum checksum) invalid_input

-- The row of `CreateVersion`.
abbrev pub new_version : String → String → String → Time → VersionUpsert → VersionRow
new_version id tenant app t req = record {
  id = id;
  tenant_id = tenant;
  app_id = app;
  status = if req.publish then published else uploaded;
  version_name = req.version_name;
  version_code = req.version_code;
  artifact_id = req.artifact_id;
  checksum = req.checksum;
  published_at = if req.publish then some t else none;
  created_at = t;
}

abbrev pub is_invalid_version : VersionUpsert → Bool
is_invalid_version req =
    str_eq req.version_name "" || leb_ℤ req.version_code (pos 0) || str_eq req.checksum ""

-- `CreateVersion`
unfoldable pub create_version : Env → String → String → VersionUpsert → Store VersionRow
create_version env tenant app req = do
  require (not (is_invalid_version req)) invalid_input
  t ← now
  begin_tx
  exists ← tx_query (λ db.
      find_if (λ a. of_id apps_table tenant app a && not (is_retired a.base.status))
        db.catalog.apps)
  found exists not_found
  check_artifact tenant req.artifact_id req.checksum
  id ← new_uuid env
  row ← tx_exec (insert_version (new_version id tenant app t req))
  v ← answered conflict row
  commit
  pure v
