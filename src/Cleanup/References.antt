-- ===== src/Cleanup/References.antt =====
-- What the cleanup of server/internal/artifactcleanup/cleanup.go leaves alone.
use xmdm.Common.{
  ltb, ◌≡◌, refl, List, [], ◌∷◌, String, Bool, true, false, not, some, str_eq, eq_iff, find_if,
  keep_if, All, Among,
}
use xmdm.Database.Rows.{Db, ArtifactRow}
use xmdm.Database.{Sys, Store, Result, ok, err, pure, handled}
use xmdm.Database.Triples.{
  Triple, Triple-raise, Triple-pure, Triple-bind, Triple-now, Triple-exec, Triple-if, Triple-query,
  Triple-handled, Triple-delete_object, Triple-require, Triple-weaken, Ends,
}
use xmdm.Database.Query.{order_by, All-order_by, All-keep_if}
use xmdm.Database.Table.{is_active, of_id, Written, none_fits, violates, written}
use xmdm.Database.Tables.{artifacts_table}
use xmdm.Files.{is_orphan, list_orphan_artifacts, retire_artifact, row_or_error, delete_artifact}
use xmdm.Cleanup.{
  Cleaned, no_result, with_deleted, retire_first, delete_both, clean_all, clean_found, run,
}
use xmdm.Cleanup.Rows.{All-keep, All-zip, Among-keep_if}
use xmdm.Cleanup.Spared.{
  is_referred, KeyIsOwn, IsOwn, IsOther, home_of, orphan-IsOther, IsSpared, Spares, IsOtherRow,
  IsSpared-change, IsSpared-delete, apart_of, retired_other,
}

module _ (tenant t i : String) (row : ArtifactRow) where
  -- An operation of the loop spares the artifact, whether it returns or fails.
  abbrev Sparing : {A : Type 0} → Store A → Type 0
  Sparing m =
      Triple (Spares tenant t i row) m (λ a s. (Spares tenant t i row) s) (Spares tenant t i row)

  Triple-row_or_error :
      (w : Written ArtifactRow)
      → Triple
          (λ s.
            (Spares tenant t i row) s
            × ((b : ArtifactRow) → w ≡ written b → (IsOtherRow tenant t i row) b))
          (row_or_error w)
          (λ b s. (Spares tenant t i row) s × (IsOtherRow tenant t i row) b)
          (Spares tenant t i row)
  unfolding row_or_error
  Triple-row_or_error none_fits = Triple-raise _ (λ s h. h.0)
  Triple-row_or_error violates = Triple-raise _ (λ s h. h.0)
  Triple-row_or_error (written b) = Triple-pure b (λ s h. (h.0, h.1 b refl))

  Triple-retire_artifact :
      (id : String)
      → IsOther tenant id t i
      → Triple
          (Spares tenant t i row)
          (retire_artifact tenant id)
          (λ b s. (Spares tenant t i row) s × (IsOtherRow tenant t i row) b)
          (Spares tenant t i row)
  unfolding retire_artifact
  Triple-retire_artifact id other =
      Triple-bind _ _ (λ time s. (Spares tenant t i row) s) (Triple-now _ (λ s time ticks h. h))
        λ time.
          Triple-bind _ _
            (λ (w : Written ArtifactRow) (s : Sys).
              (Spares tenant t i row) s
              × ((b : ArtifactRow) → w ≡ written b → (IsOtherRow tenant t i row) b))
            (Triple-exec _ (λ s fs h. h)
              λ s fs h. (
                (IsSpared-change tenant t i row) id time s.db s.objects other h,
                λ b w. (retired_other tenant t i row) id time s.db b s.objects other h w,
              ))
            λ w. Triple-row_or_error w

  Triple-retire_first :
      (a : ArtifactRow) (r : Cleaned)
      → (IsOtherRow tenant t i row) a
      → Triple
          (Spares tenant t i row)
          (retire_first tenant a r)
          (λ p s. (Spares tenant t i row) s × (IsOtherRow tenant t i row) p.0)
          (Spares tenant t i row)
  unfolding retire_first
  Triple-retire_first a r h =
      Triple-if (is_active a.base.status) _ _
        (Triple-bind _ _ (λ b s. (Spares tenant t i row) s × (IsOtherRow tenant t i row) b)
          (Triple-retire_artifact a.base.id h.other) λ b. Triple-pure _ (λ s k. k))
        (Triple-pure _ (λ s k. (k, h)))

  Triple-delete_both :
      (a : ArtifactRow)
      → Triple
          (λ s. (Spares tenant t i row) s × (IsOtherRow tenant t i row) a)
          (delete_both tenant a)
          (λ _ s. (Spares tenant t i row) s)
          (Spares tenant t i row)
  unfolding delete_both delete_artifact
  Triple-delete_both a =
      Triple-bind _ _ (λ _ s. (Spares tenant t i row) s × (IsOtherRow tenant t i row) a)
        (Triple-delete_object a.storage_key _ (λ s fs h. h.0)
          λ s fs h. (
            record {
              referred = h.0.referred;
              stands = h.0.stands;
              own = h.0.own;
              held =
                  Among-keep_if (λ k. not (str_eq k a.storage_key)) row.storage_key s.objects
                    (rw h.1.apart refl) h.0.held;
            },
            h.1,
          ))
        λ _.
          Triple-bind _ _ (λ _ s. (Spares tenant t i row) s)
            (Triple-exec _ (λ s fs h. h.0)
              λ s fs h. (IsSpared-delete tenant t i row) a.base.id s.db s.objects h.1.other h.0)
            λ done. Triple-weaken _ (Triple-require done _ (λ s h. h)) (λ u s h. h.1)

  Triple-clean_all :
      (candidates : List ArtifactRow) (r : Cleaned)
      → All (IsOtherRow tenant t i row) candidates
      → Sparing (clean_all tenant candidates r)
  unfolding clean_all
  Triple-clean_all [] r h = Triple-pure _ (λ s k. k)
  Triple-clean_all (a ∷ rest) r h =
      Triple-handled _ _ _ (λ p s. (Spares tenant t i row) s × (IsOtherRow tenant t i row) p.0)
        (Spares tenant t i row) (Triple-retire_first a r h.0) (λ e. Triple-pure _ (λ s k. k))
        λ p.
          Triple-handled _ _ _ (λ _ s. (Spares tenant t i row) s) (Spares tenant t i row)
            (Triple-delete_both p.0) (λ e. Triple-pure _ (λ s k. k))
            λ _. Triple-clean_all rest (with_deleted p.0 p.1) h.1

  orphan_other :
      (d : Db) (a : ArtifactRow)
      → is_referred d t i ≡ true
      → is_orphan d tenant a ≡ true
      → IsOwn t i row.storage_key a
      → (IsOtherRow tenant t i row) a
  unfolding is_orphan
  orphan_other d a referred orphan own =
      let other = orphan-IsOther d tenant t i a referred orphan in
      let home = (eq_iff a.base.tenant_id tenant).0 (home_of _ _ _ _ orphan) in
      record { other = other; apart = (apart_of tenant t i row) a own (rw home other) }

  All-orphan_other :
      (d : Db) (rows : List ArtifactRow)
      → is_referred d t i ≡ true
      → All (λ a. (is_orphan d tenant a ≡ true) × IsOwn t i row.storage_key a) rows
      → All (IsOtherRow tenant t i row) rows
  All-orphan_other d [] h k = tt
  All-orphan_other d (a ∷ rows) h k =
      (orphan_other d a h k.0.0 k.0.1, All-orphan_other d rows h k.1)

  -- The orphans that a SELECT finds in tables that spare the artifact.
  found_other :
      (d : Db) (objects : List String)
      → (IsSpared tenant t i row) d objects
      → All (IsOtherRow tenant t i row) (
          order_by
            (λ a b. ltb a.base.created_at b.base.created_at)
            (keep_if (is_orphan d tenant) d.catalog.artifacts))
  found_other d objects h =
      let rows = keep_if (is_orphan d tenant) d.catalog.artifacts in
      let orphans = All-keep_if (is_orphan d tenant) d.catalog.artifacts in
      let owned =
        All-keep (IsOwn t i row.storage_key) (is_orphan d tenant) d.catalog.artifacts h.own in
      All-order_by _ _ _ (
        All-orphan_other d rows h.referred (
          All-zip (λ (a : ArtifactRow). is_orphan d tenant a ≡ true) (IsOwn t i row.storage_key)
            rows orphans owned))

  Triple-clean_found :
      (apply : Bool) (found : List ArtifactRow)
      → Triple
          (λ s. (Spares tenant t i row) s × All (IsOtherRow tenant t i row) found)
          (clean_found tenant apply found)
          (λ a s. (Spares tenant t i row) s)
          (Spares tenant t i row)
  unfolding clean_found
  Triple-clean_found true found = record {
    at = λ s h. (Triple-clean_all found (record no_result { candidates = found }) h.1).at s h.0;
  }
  Triple-clean_found false found = Triple-pure _ (λ s h. h.0)

  Triple-listed :
      (apply : Bool)
      → Sparing (
          handled
            (list_orphan_artifacts tenant)
            (λ e. pure (no_result, some e))
            (clean_found tenant apply))
  unfolding list_orphan_artifacts
  Triple-listed apply =
      Triple-handled _ _ _
        (λ found s. (Spares tenant t i row) s × All (IsOtherRow tenant t i row) found)
        (Spares tenant t i row)
        (Triple-query _ (λ s fs h. h) (λ s fs h. (h, found_other s.db s.objects h)))
        (λ e. Triple-pure _ (λ s h. h)) λ found. Triple-clean_found apply found

  Triple-run : (has_repo has_objects apply : Bool) → Sparing (run has_repo has_objects tenant apply)
  unfolding run
  Triple-run false has_objects apply = Triple-pure _ (λ s h. h)
  Triple-run true false apply = Triple-pure _ (λ s h. h)
  Triple-run true true apply =
      Triple-if (str_eq tenant "") _ _ (Triple-pure _ (λ s h. h)) (Triple-listed apply)

spared_either :
    {A : Type 0} (Q : Sys → Type 0) (r : Result A) (s : Sys) → Ends (λ a s. Q s) Q r s → Q s
spared_either Q (ok a) s h = h
spared_either Q (err e) s h = h

-- An artifact that a file, a certificate or a version of an app refers to keeps its row as it is,
-- and its bytes in the object store, over Run of any tenant, whichever statements and deletions
-- fail and wherever it stops, if no other artifact has its storage key.
pub run-spares :
    (has_repo has_objects apply : Bool) (tenant t i : String) (row : ArtifactRow) (s : Sys)
    → is_referred s.db t i ≡ true
    → find_if (of_id artifacts_table t i) s.db.catalog.artifacts ≡ some row
    → KeyIsOwn t i row.storage_key s.db
    → Among row.storage_key s.objects
    → (find_if
          (of_id artifacts_table t i)
          (run has_repo has_objects tenant apply s).1.db.catalog.artifacts
        ≡ some row)
      × Among row.storage_key (run has_repo has_objects tenant apply s).1.objects
run-spares has_repo has_objects apply tenant t i row s referred standing own held =
    let start : IsSpared tenant t i row s.db s.objects = record {
      referred = referred;
      stands = standing;
      own = own;
      held = held;
    } in
    let after =
      spared_either (Spares tenant t i row) _ _
        ((Triple-run tenant t i row has_repo has_objects apply).at s start) in
    (after.stands, after.held)
