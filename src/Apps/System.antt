-- ===== src/Apps/System.antt =====
-- The apps that the system owns, over any sequence of the calls that change apps
-- (server/internal/apps/postgres/store.go).
use xmdm.Common.{
  ◌≡◌, refl, List, [], ◌∷◌, String, Bool, true, false, ◌&&◌, not, Option, none, some, str_eq,
  any_of, arith,
}
use xmdm.Database.Rows.{Db, AppRow}
use xmdm.Database.{Error, Env, Sys, Store}
use xmdm.Database.Keeps.{
  Holds, Keeps, Keeps-pure, Keeps-raise, Keeps-exec, Keeps-now, Keeps-new_uuid, Keeps-bind,
  Keeps-if, Keeps-query, keeps_rules,
}
use xmdm.Database.Table.{
  is_active, of_id, answered, select_one, Written, none_fits, violates, written,
}
use xmdm.Database.Tables.{apps_table}
use xmdm.Database.Stands.{any_of-insert_row, any_of-change_row, any_of-update_row}
use xmdm.Apps.{
  AppUpsert, insert_app, upsert_found, upsert_system_owned_app, create_app, is_system_owned_app,
  changed_app, update_app, retire_app,
}

-- The calls that change apps.
pub data AppCall : Type 0 where
  do_create do_upsert_system_owned : String → AppUpsert → AppCall
  do_update : String → String → AppUpsert → AppCall
  do_retire : String → String → AppCall

unfoldable pub perform : Env → AppCall → Store AppRow
perform env (do_create tenant req) = create_app env tenant req
perform env (do_upsert_system_owned tenant req) = upsert_system_owned_app env tenant req
perform env (do_update tenant id req) = update_app tenant id req
perform env (do_retire tenant id) = retire_app tenant id

-- The calls one after the other, each whether or not those before it failed.
unfoldable pub perform_all : Env → List AppCall → Sys → Sys
perform_all env [] s = s
perform_all env (call ∷ calls) s = perform_all env calls (perform env call s).1

-- The row is the app of the system with that id and package name, and it is active.
abbrev pub is_locked : String → String → String → AppRow → Bool
is_locked tenant id package_id a =
    of_id apps_table tenant id a
    && str_eq a.package_name package_id
    && a.system_owned
    && is_active a.base.status

unfoldable pub has_locked : String → String → String → Db → Bool
has_locked tenant id package_id db = any_of (is_locked tenant id package_id) db.catalog.apps

module _ (env : Env) (tenant id package_id : String) where
  Locked : Db → Type 0
  Locked d = has_locked tenant id package_id d ≡ true

  Keeps-answered : (e : Error) (w : Written AppRow) → Keeps Locked (answered e w)
  unfolding answered
  Keeps-answered e none_fits = Keeps-raise _
  Keeps-answered e violates = Keeps-raise _
  Keeps-answered e (written a) = Keeps-pure a

  Keeps-changed_app : (t i : String) (w : Written AppRow) → Keeps Locked (changed_app t i w)
  unfolding changed_app is_system_owned_app select_one
  Keeps-changed_app t i none_fits = search keeps_rules
  Keeps-changed_app t i violates = Keeps-raise _
  Keeps-changed_app t i (written a) = Keeps-pure a

  Keeps-insert_app :
      (t : String) (req : AppUpsert) (owned : Bool) → Keeps Locked (insert_app env t req owned)
  unfolding insert_app Locked has_locked
  Keeps-insert_app t req owned = Keeps-bind _ _ (Keeps-new_uuid env) λ i.
      Keeps-bind _ _ Keeps-now λ time. Keeps-bind _ _ Keeps-now λ created.
        Keeps-bind _ _
          (Keeps-exec _ λ d h.
            any_of-insert_row apps_table (λ rows db. refl) (is_locked tenant id package_id) _ _ d h)
          λ w. Keeps-answered _ w

  Keeps-upsert_found :
      (t : String) (req : AppUpsert) (o : Option AppRow) → Keeps Locked (upsert_found env t req o)
  unfolding upsert_found Locked has_locked
  Keeps-upsert_found t req none = Keeps-insert_app t req true
  Keeps-upsert_found t req (some a) = Keeps-if (not a.system_owned) _ _ (Keeps-raise _) (
      Keeps-bind _ _ Keeps-now λ time.
        Keeps-bind _ _
          (Keeps-exec _ λ d h.
            any_of-change_row apps_table (λ rows db. refl) (is_locked tenant id package_id) _ _ d
              (λ r fit own. ground arith) h)
          λ w. Keeps-answered _ w)

  Keeps-perform : (call : AppCall) → Keeps Locked (perform env call)
  unfolding perform create_app upsert_system_owned_app update_app retire_app Locked has_locked
  Keeps-perform (do_create t req) = Keeps-if _ _ _ (Keeps-raise _) (Keeps-insert_app t req false)
  Keeps-perform (do_upsert_system_owned t req) =
      Keeps-if _ _ _ (Keeps-raise _)
        (Keeps-bind _ _ (Keeps-query _) λ o. Keeps-upsert_found t req o)
  Keeps-perform (do_update t i req) = Keeps-if _ _ _ (Keeps-raise _) (
      Keeps-bind _ _ Keeps-now λ time.
        Keeps-bind _ _
          (Keeps-exec _ λ d h.
            any_of-update_row apps_table (λ rows db. refl) (is_locked tenant id package_id) _ _ _ d
              (λ r fit own. absurd (ground arith)) h)
          λ w. Keeps-changed_app t i w)
  Keeps-perform (do_retire t i) = Keeps-bind _ _ Keeps-now λ time.
      Keeps-bind _ _
        (Keeps-exec _ λ d h.
          any_of-change_row apps_table (λ rows db. refl) (is_locked tenant id package_id) _ _ d
            (λ r fit own. absurd (ground arith)) h)
        λ w. Keeps-changed_app t i w

  Holds-perform_all :
      (calls : List AppCall) (s : Sys) → Holds Locked s → Holds Locked (perform_all env calls s)
  unfolding perform_all
  Holds-perform_all [] s h = h
  Holds-perform_all (call ∷ calls) s h =
      Holds-perform_all calls (perform env call s).1 ((Keeps-perform call).at s h)

-- An active app that the system owns is still there after any calls, with its id and package name,
-- owned by the system and active, whichever statements fail.
pub perform_all-has_locked :
    (env : Env) (tenant id package_id : String) (calls : List AppCall) (s : Sys)
    → s.work ≡ s.db
    → has_locked tenant id package_id s.db ≡ true
    → has_locked tenant id package_id (perform_all env calls s).db ≡ true
unfolding Locked
perform_all-has_locked env tenant id package_id calls s idle held =
    (Holds-perform_all env tenant id package_id calls s
      (record { at_db = held; at_work = rw idle held })).at_db
