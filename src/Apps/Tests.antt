-- ===== src/Apps/Tests.antt =====
-- Apps and versions of server/internal/apps at given rows.
use xmdm.Common.{ℕ, ◌≡◌, ◌≤◌, ◌&&◌, refl, String, [], ◌∷◌, true, false, Option, none, some, All}
use xmdm.Common.Int.{pos}
use xmdm.Database.Rows.{Db, AppRow, VersionRow, uploaded, published, empty_db, empty_catalog}
use xmdm.Database.{
  err, forbidden, conflict, Env, calm, pure, raise, ◌>>=◌, query, exec, now, step, attempt, advance,
  found, catch, new_uuid,
}
use xmdm.Database.Query.{order_by, insert_by, earlier}
use xmdm.Database.Table.{new_base, change_row, insert_row, select_one, answered}
use xmdm.Apps.{create_app, insert_app, retire_app, changed_app, is_system_owned_app}
use xmdm.Apps.Versions.{of_app, is_published, release_time, get_latest_published_version}
use xmdm.Apps.System.{
  do_update, do_retire, do_upsert_system_owned, perform_all, has_locked, perform_all-has_locked,
}
use xmdm.Apps.Latest.{releases_of, get_latest_published_version-latest}

abbrev agent : AppRow
agent = record {
  base = new_base "p1" "t" 1 1;
  package_name = "xmdm.agent";
  name = "Agent";
  system_owned = true;
}

abbrev version : String → ℕ → Option ℕ → VersionRow
version id created release = record {
  id = id;
  tenant_id = "t";
  app_id = "p1";
  status = elim release [ none ↦ uploaded | some t ↦ published ];
  version_name = id;
  version_code = pos created;
  artifact_id = none;
  checksum = "c";
  published_at = release;
  created_at = created;
}

abbrev tables : Db
tables = record empty_db {
  catalog = record empty_catalog {
    apps = agent ∷ [];
    app_versions = version "v1" 1 (some 9) ∷ version "v2" 2 (some 4) ∷ version "v3" 3 none ∷ [];
  };
}

abbrev env : Env
env = record {
  uuid = λ n. "u";
  secret = λ n. "s";
  hash_token = λ s. s;
  publisher = none;
  has_provisioner = false;
}

retire-agent : (retire_app "t" "p1" (calm tables 5)).0 ≡ err forbidden
unfolding retire_app changed_app is_system_owned_app change_row select_one query exec now step
    attempt advance found catch ◌>>=◌ pure raise
retire-agent = refl

create-agent :
    (create_app env "t" (record { package_name = "xmdm.agent"; name = "Mine" }) (calm tables 5)).0
    ≡ err conflict
unfolding create_app insert_app insert_row answered new_uuid exec now step attempt advance ◌>>=◌
    raise
create-agent = refl

perform_all-has_locked_example :
    has_locked "t" "p1" "xmdm.agent"
      (perform_all env
        (do_retire "t" "p1"
          ∷ do_update "t" "p1" (record { package_name = "other"; name = "Other" })
          ∷ do_upsert_system_owned "t" (record { package_name = "xmdm.agent"; name = "New" })
          ∷ [])
        (calm tables 5)).db
    ≡ true
unfolding has_locked
perform_all-has_locked_example =
    perform_all-has_locked env "t" "p1" "xmdm.agent"
      (do_retire "t" "p1"
        ∷ do_update "t" "p1" (record { package_name = "other"; name = "Other" })
        ∷ do_upsert_system_owned "t" (record { package_name = "xmdm.agent"; name = "New" })
        ∷ [])
      (calm tables 5) refl refl

get_latest_published_version-latest_example :
    ((of_app "t" "p1" (version "v1" 1 (some 9)) && is_published published) ≡ true)
    × All (λ w. release_time w ≤ 9) (releases_of "t" "p1" tables)
unfolding get_latest_published_version order_by insert_by earlier query step attempt ◌>>=◌ found
get_latest_published_version-latest_example =
    get_latest_published_version-latest "t" "p1" tables 5 (version "v1" 1 (some 9)) refl
