-- ===== src/Cleanup.antt =====
-- server/internal/artifactcleanup/cleanup.go: the artifacts that nothing refers to are retired and
-- their bytes and rows deleted, one after the other, up to the first error.
pub mod References
mod Rows
mod Spared
mod Tests
use xmdm.Common.{
  List, [], ◌∷◌, ◌++◌, String, Bool, true, false, not, Option, none, some, if◌then◌else◌, str_eq,
}
use xmdm.Database.Rows.{ArtifactRow}
use xmdm.Database.{Error, missing, Store, pure, ◌>>=◌, ◌>>◌, handled, delete_object}
use xmdm.Database.Table.{is_active}
use xmdm.Files.{list_orphan_artifacts, retire_artifact, delete_artifact}

-- `Result`
pub record Cleaned : Type 0 where
  pub candidates : List ArtifactRow
  pub retired : List ArtifactRow
  pub deleted : List ArtifactRow

-- `Run` returns its result beside its error.
abbrev pub Run : Type 0
Run = Cleaned × Option Error

abbrev pub no_result : Cleaned
no_result = record { candidates = []; retired = []; deleted = [] }

abbrev pub with_retired : ArtifactRow → Cleaned → Cleaned
with_retired a r = record r { retired = r.retired ++ a ∷ [] }

abbrev pub with_deleted : ArtifactRow → Cleaned → Cleaned
with_deleted a r = record r { deleted = r.deleted ++ a ∷ [] }

-- The first step of a turn of the loop: an active artifact is retired.
unfoldable pub retire_first : String → ArtifactRow → Cleaned → Store (ArtifactRow × Cleaned)
retire_first tenant a r =
    if is_active a.base.status
    then (do retired ← retire_artifact tenant a.base.id; pure (retired, with_retired retired r))
    else pure (a, r)

-- The second step: the bytes and the row are deleted.
unfoldable pub delete_both : String → ArtifactRow → Store (Unit {0})
delete_both tenant a = do delete_object a.storage_key; delete_artifact tenant a.base.id

-- The loop of `Run`.
unfoldable pub clean_all : String → List ArtifactRow → Cleaned → Store Run
clean_all tenant [] r = pure (r, none)
clean_all tenant (a ∷ rest) r =
    handled (retire_first tenant a r) (λ e. pure (r, some e))
      λ step.
        handled (delete_both tenant step.0) (λ e. pure (step.1, some e))
          λ _. clean_all tenant rest (with_deleted step.0 step.1)

-- `Run`, once the candidates are listed
unfoldable pub clean_found : String → Bool → List ArtifactRow → Store Run
clean_found tenant apply found =
    let start = record no_result { candidates = found } in
    if not apply then pure (start, none) else clean_all tenant found start

-- `Run`; the flags tell whether there is a repository and an object store
unfoldable pub run : Bool → Bool → String → Bool → Store Run
run has_repo has_objects tenant apply =
    if not has_repo
    then pure (no_result, some (missing "cleanup repository"))
    else if not has_objects
    then pure (no_result, some (missing "artifact object store"))
    else if str_eq tenant ""
    then pure (no_result, some (missing "tenant id"))
    else handled (list_orphan_artifacts tenant) (λ e. pure (no_result, some e))
        (clean_found tenant apply)
