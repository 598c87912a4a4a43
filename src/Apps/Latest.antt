-- ===== src/Apps/Latest.antt =====
-- Which version `GetLatestPublishedVersion` of server/internal/apps/postgres/store.go shows.
use xmdm.Common.{
  ℕ, ◌≤◌, ◌≡◌, refl, List, [], ◌∷◌, String, Bool, true, false, ◌&&◌, Option, none, some,
  if◌then◌else◌, ltb, ◌==◌, All, keep_if, ap, arith, Bool-cases, inl, inr, some_inj, subst,
}
use xmdm.Database.Rows.{Db, Time, VersionRow}
use xmdm.Database.{Error, not_found, ok, Sys, ◌>>=◌, query, found, calm, step, attempt}
use xmdm.Database.Query.{order_by, insert_by, All-keep_if, All-order_by, All-insert_by}
use xmdm.Apps.Versions.{
  of_app, is_published, release_time, latest_release, newest_version, first_of,
  get_latest_published_version,
}

ok_inj : (v w : VersionRow) → ok v ≡ ok w → v ≡ w
ok_inj v w h = cc h

-- No row of the list has a later time than `v`.
abbrev NoneLater : VersionRow → List VersionRow → Type 0
NoneLater v = All (λ w. release_time w ≤ release_time v)

before_later : (a b : VersionRow) → latest_release a b ≡ true → release_time b ≤ release_time a
before_later a b h = later (release_time a) (release_time b) (newest_version a b) h
  where
    later : (x y : ℕ) (n : Bool) → (if ltb y x then true else x == y && n) ≡ true → y ≤ x
    later x y n h = ground arith

after_earlier : (a b : VersionRow) → latest_release a b ≡ false → release_time a ≤ release_time b
after_earlier a b h = earlier (release_time a) (release_time b) (newest_version a b) h
  where
    earlier : (x y : ℕ) (n : Bool) → (if ltb y x then true else x == y && n) ≡ false → x ≤ y
    earlier x y n h = ground arith

NoneLater-weaken :
    (v w : VersionRow) (rows : List VersionRow)
    → release_time v ≤ release_time w
    → NoneLater v rows
    → NoneLater w rows
NoneLater-weaken v w [] le h = tt
NoneLater-weaken v w (r ∷ rows) le h = (omega (arith, le, h.0), NoneLater-weaken v w rows le h.1)

module _ (P : VersionRow → Type 0) (before : VersionRow → VersionRow → Bool) where
  All-inserted :
      (a : VersionRow) (rows : List VersionRow) → All P (insert_by before a rows) → P a × All P rows
  unfolding insert_by
  All-inserted a [] h = h
  All-inserted a (b ∷ rows) h = elim (Bool-cases (before a b)) [
    | inl yes' ↦ rw yes' at h
    | inr no' ↦
        let split : P b × All P (insert_by before a rows) = rw no' at h in
        let rest = All-inserted a rows split.1 in (rest.0, (split.0, rest.1))
  ]

  All-ordered : (rows : List VersionRow) → All P (order_by before rows) → All P rows
  unfolding order_by
  All-ordered [] h = h
  All-ordered (a ∷ rows) h =
      let split = All-inserted a (order_by before rows) h in (split.0, All-ordered rows split.1)

-- The first of the ordered rows is one that no row is later than.
insert-first :
    (a : VersionRow) (rows : List VersionRow) (v : VersionRow)
    → ((w : VersionRow) → first_of rows ≡ some w → NoneLater w rows)
    → first_of (insert_by latest_release a rows) ≡ some v
    → NoneLater v (insert_by latest_release a rows)
unfolding insert_by
insert-first a [] v k h =
    subst (λ (w : VersionRow). NoneLater w (a ∷ [])) (some_inj a v h) (omega arith, tt)
insert-first a (b ∷ rows) v k h = elim (Bool-cases (latest_release a b)) [
  | inl yes' ↦ rw yes' (
      subst (λ (w : VersionRow). NoneLater w (a ∷ b ∷ rows)) (some_inj a v (rw yes' at h))
        (omega arith, NoneLater-weaken b a (b ∷ rows) (before_later a b yes') (k b refl)))
  | inr no' ↦ rw no' (
      subst (λ (w : VersionRow). NoneLater w (b ∷ insert_by latest_release a rows))
        (some_inj b v (rw no' at h))
        (
          omega arith,
          All-insert_by (λ w. release_time w ≤ release_time b) latest_release a rows
              (after_earlier a b no') (k b refl).1,
        ))
]

order-first :
    (rows : List VersionRow) (v : VersionRow)
    → first_of (order_by latest_release rows) ≡ some v
    → NoneLater v (order_by latest_release rows)
unfolding order_by
order-first [] v h = tt
order-first (a ∷ rows) v h = insert-first a (order_by latest_release rows) v (order-first rows) h

first-All :
    (P : VersionRow → Type 0) (rows : List VersionRow) (v : VersionRow)
    → All P rows
    → first_of rows ≡ some v
    → P v
first-All P [] v h k = absurd (ground arith)
first-All P (a ∷ rows) v h k = subst P (some_inj a v k) h.0

-- The published versions of the app.
abbrev pub releases_of : String → String → Db → List VersionRow
releases_of tenant app db =
    keep_if (λ v. of_app tenant app v && is_published v.status) db.catalog.app_versions

found-ok :
    (o : Option VersionRow) (e : Error) (s : Sys) (v : VersionRow)
    → (found o e s).0 ≡ ok v
    → o ≡ some v
unfolding found
found-ok none e s v h = absurd (ground arith)
found-ok (some w) e s v h = ap some (ok_inj w v h)

-- The version that GetLatestPublishedVersion returns, where no statement fails, is a published one
-- of the app, and no published version of the app has a later time of release.
pub get_latest_published_version-latest :
    (tenant app : String) (d : Db) (t : Time) (v : VersionRow)
    → (get_latest_published_version tenant app (calm d t)).0 ≡ ok v
    → ((of_app tenant app v && is_published v.status) ≡ true)
      × All (λ w. release_time w ≤ release_time v) (releases_of tenant app d)
unfolding get_latest_published_version query step attempt ◌>>=◌
get_latest_published_version-latest tenant app d t v h =
    let first = found-ok _ not_found (calm d t) v h in
    (
      first-All (λ w. (of_app tenant app w && is_published w.status) ≡ true) _ v
          (All-order_by _ latest_release (releases_of tenant app d)
            (All-keep_if _ d.catalog.app_versions))
          first,
      All-ordered (λ w. release_time w ≤ release_time v) latest_release (releases_of tenant app d)
          (order-first (releases_of tenant app d) v first),
    )
