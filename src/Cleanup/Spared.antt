-- ===== src/Cleanup/Spared.antt =====
-- An artifact that is referred to, among the statements of server/internal/artifactcleanup/cleanup.go.
use xmdm.Common.{
  ◌≡◌, refl, sym, ◌∙◌, subst, List, String, Bool, true, false, ◌&&◌, ◌||◌, not, Option, none, some,
  fun_ext, str_eq, eq_iff, eq_refl, any_of, find_if, All, Among, ◌⊎◌, arith, Bool-cases,
  Option-cases, inl, inr, and_parts,
}
use xmdm.Database.Rows.{Db, Time, ArtifactRow}
use xmdm.Database.{Sys}
use xmdm.Database.Query.{find_if_passes}
use xmdm.Database.Table.{of_id, of_tenant, retired_base, none_fits, written, change_row}
use xmdm.Database.Tables.{artifacts_table}
use xmdm.Files.{names_artifact, is_orphan, is_held, delete_row}
use xmdm.Cleanup.Rows.{
  All-keep, All-update_where, find_if-All, find_if-update_other, find_if-keep_if,
}

abbrev names : Option String → String → Bool
names none id = false
names (some used) id = str_eq used id

abbrev referred_by : (Option String → String → Bool) → Db → String → String → Bool
referred_by names_it db tenant id =
    any_of (λ f. str_eq f.base.tenant_id tenant && str_eq f.artifact_id id) db.catalog.files
    || any_of (λ c. str_eq c.base.tenant_id tenant && str_eq c.artifact_id id)
        db.catalog.certificates
    || any_of (λ v. str_eq v.tenant_id tenant && names_it v.artifact_id id) db.catalog.app_versions

-- A file, a certificate or a version of the tenant refers to the artifact.
unfoldable pub is_referred : Db → String → String → Bool
is_referred db tenant id = referred_by names db tenant id

names-names_artifact : (used : Option String) (id : String) → names used id ≡ names_artifact used id
names-names_artifact none id = refl
names-names_artifact (some used) id = refl

-- The code's test of a version is this one.
referred_by_code :
    (d : Db) (t i : String) → is_referred d t i ≡ true → referred_by names_artifact d t i ≡ true
unfolding is_referred
referred_by_code d t i h =
    subst (λ f. referred_by f d t i ≡ true)
      (fun_ext λ used. fun_ext λ id. names-names_artifact used id) h

-- The artifact of the tenant with the id is another than the one of `t` with `i`.
abbrev pub IsOther : String → String → String → String → Type 0
IsOther tenant id t i = (str_eq tenant t && str_eq id i) ≡ false

same_key :
    (tenant id t i : String) → (str_eq tenant t && str_eq id i) ≡ true → (tenant ≡ t) × (id ≡ i)
same_key tenant id t i h =
    let parts = and_parts (str_eq tenant t) (str_eq id i) h in
    ((eq_iff tenant t).0 parts.0, (eq_iff id i).0 parts.1)

no_reference : (b x y z : Bool) → (b && not x && not y && not z) ≡ true → (x || y || z) ≡ true → ⊥
no_reference b x y z h k = ground arith

clash : true ≡ false → ⊥
clash h = ground arith

pub home_of : (b x y z : Bool) → (b && not x && not y && not z) ≡ true → b ≡ true
home_of b x y z h = ground arith

pub orphan-IsOther :
    (d : Db) (tenant t i : String) (a : ArtifactRow)
    → is_referred d t i ≡ true
    → is_orphan d tenant a ≡ true
    → IsOther tenant a.base.id t i
unfolding is_orphan is_referred
orphan-IsOther d tenant t i a referred orphan =
    elim (Bool-cases (str_eq tenant t && str_eq a.base.id i)) [
      | inr other ↦ other
      | inl same ↦
          let key = same_key tenant a.base.id t i same in
          let home = (eq_iff a.base.tenant_id tenant).0 (home_of _ _ _ _ orphan) in
          absurd (
            no_reference (of_tenant artifacts_table tenant a) _ _ _ orphan
              (rw (home ∙ key.0, key.1) (referred_by_code d t i referred)))
    ]

spared :
    (tenant id t i : String) (r : ArtifactRow)
    → IsOther tenant id t i
    → of_id artifacts_table t i r ≡ true
    → not (of_id artifacts_table tenant id r) ≡ true
spared tenant id t i r other here = elim (Bool-cases (of_id artifacts_table tenant id r)) [
  | inr apart ↦ rw apart refl
  | inl both ↦
      let first = same_key r.base.tenant_id r.base.id t i here in
      let second = same_key r.base.tenant_id r.base.id tenant id both in
      absurd (
        clash (
          rw (sym first.0 ∙ second.0, sym first.1 ∙ second.1, eq_refl tenant, eq_refl id) at other))
]

negated : (b : Bool) → not b ≡ true → b ≡ false
negated b h = ground arith

not_written : (b : ArtifactRow) → none_fits ≡ written b → ⊥
not_written b h = ground arith

written_inj : (a b : ArtifactRow) → written a ≡ written b → a ≡ b
written_inj a b h = cc h

-- The artifact of the tenant with the id, or one with another storage key.
abbrev pub IsOwn : String → String → String → ArtifactRow → Type 0
IsOwn t i key a = (of_id artifacts_table t i a ≡ true) ⊎ (str_eq key a.storage_key ≡ false)

-- No other artifact has the storage key.
abbrev pub KeyIsOwn : String → String → String → Db → Type 0
KeyIsOwn t i key d = All (IsOwn t i key) d.catalog.artifacts

module _ (tenant t i : String) (row : ArtifactRow) where
  -- What the loop keeps: the artifact is referred to, its row is as it was, no other has its key,
  -- and its bytes are there.
  pub record IsSpared (d : Db) (objects : List String) : Type 0 where
    pub referred : is_referred d t i ≡ true
    pub stands : find_if (of_id artifacts_table t i) d.catalog.artifacts ≡ some row
    pub own : KeyIsOwn t i row.storage_key d
    pub held : Among row.storage_key objects

  abbrev pub Spares : Sys → Type 0
  Spares s = IsSpared s.db s.objects

  -- Another artifact, with another storage key.
  pub record IsOtherRow (a : ArtifactRow) : Type 0 where
    pub other : IsOther tenant a.base.id t i
    pub apart : str_eq row.storage_key a.storage_key ≡ false

  not_this :
      (id : String) (r : ArtifactRow)
      → IsOther tenant id t i
      → of_id artifacts_table t i r ≡ true
      → of_id artifacts_table tenant id r ≡ false
  not_this id r other here = negated _ (spared tenant id t i r other here)

  pub IsSpared-change :
      (id : String) (time : Time) (d : Db) (objects : List String)
      → IsOther tenant id t i
      → IsSpared d objects
      → IsSpared
          (change_row artifacts_table
            (of_id artifacts_table tenant id)
            (λ a. record a { base = retired_base time a.base })
            d).1
          objects
  unfolding change_row is_referred
  IsSpared-change id time d objects other h =
      let change : ArtifactRow → ArtifactRow = λ a. record a { base = retired_base time a.base } in
      elim (Option-cases (find_if (of_id artifacts_table tenant id) d.catalog.artifacts)) [
        | inl absent ↦ rw absent h
        | inr there ↦ rw there.1 (record {
          referred = h.referred;
          stands =
              find_if-update_other (of_id artifacts_table t i) _ change d.catalog.artifacts
                (λ r here. not_this id r other here) (λ r. refl)
              ∙ h.stands;
          own =
              All-update_where (IsOwn t i row.storage_key) _ change d.catalog.artifacts (λ r k. k)
                h.own;
          held = h.held;
        })
      ]

  pub IsSpared-delete :
      (id : String) (d : Db) (objects : List String)
      → IsOther tenant id t i
      → IsSpared d objects
      → IsSpared (delete_row tenant id d).1 objects
  unfolding delete_row is_referred
  IsSpared-delete id d objects other h = elim (Bool-cases (is_held tenant id d)) [
    | inl held ↦ rw held h
    | inr free ↦ rw free (record {
      referred = h.referred;
      stands =
          find_if-keep_if (of_id artifacts_table t i) _ d.catalog.artifacts
            (λ r here. spared tenant id t i r other here)
          ∙ h.stands;
      own = All-keep (IsOwn t i row.storage_key) _ d.catalog.artifacts h.own;
      held = h.held;
    })
  ]

  -- An artifact that another tenant or id has is apart from this one.
  pub apart_of :
      (a : ArtifactRow)
      → IsOwn t i row.storage_key a
      → of_id artifacts_table t i a ≡ false
      → str_eq row.storage_key a.storage_key ≡ false
  apart_of a (inl this) no' = absurd (clash (sym this ∙ no'))
  apart_of a (inr apart) no' = apart

  pub retired_other :
      (id : String) (time : Time) (d : Db) (b : ArtifactRow) (objects : List String)
      → IsOther tenant id t i
      → IsSpared d objects
      → (change_row artifacts_table
          (of_id artifacts_table tenant id)
          (λ a. record a { base = retired_base time a.base })
          d).0
        ≡ written b
      → IsOtherRow b
  unfolding change_row
  retired_other id time d b objects other h w =
      elim (Option-cases (find_if (of_id artifacts_table tenant id) d.catalog.artifacts)) [
        | inl absent ↦ absurd (not_written b (rw absent at w))
        | inr there ↦
            let a = there.0 in
            let fits =
              find_if_passes (of_id artifacts_table tenant id) d.catalog.artifacts a there.1 in
            let key = same_key _ _ tenant id fits in
            let own =
              find_if-All (IsOwn t i row.storage_key) _ d.catalog.artifacts a h.own there.1 in
            let strange : of_id artifacts_table t i a ≡ false = rw (key.0, key.1) other in
            subst IsOtherRow (written_inj _ b (rw there.1 at w))
              (record { other = rw key.1 other; apart = apart_of a own strange })
      ]
