-- ===== src/Database/Stands.antt =====
-- Rows that stand: what the statements of one row leave of a row that a test finds.
use xmdm.Common.{
  ◌≡◌, refl, List, [], ◌∷◌, ◌++◌, Bool, true, ◌&&◌, ◌||◌, not, if◌then◌else◌, str_eq, any_of,
  find_if, arith, Bool-cases, Option-cases, inl, inr,
}
use xmdm.Database.Rows.{Db}
use xmdm.Database.{Error, not_found}
use xmdm.Database.Yields.{Yields, Yields-raise, Yields-pure}
use xmdm.Database.Query.{update_where}
use xmdm.Database.Table.{
  Table, Written, none_fits, violates, written, insert_row, change_row, update_row, answered,
}

module _ {A : Type 0} where
  any_of-tail :
      (p : A → Bool) (r : A) (rows : List A) → any_of p rows ≡ true → any_of p (r ∷ rows) ≡ true
  any_of-tail p r rows h = elim (Bool-cases (p r)) [ inl yes' ↦ rw yes' refl | inr no' ↦ rw no' h ]

  -- An UPDATE that keeps the test on the rows that it fits.
  any_of-update_kept :
      (p fits : A → Bool) (change : A → A) (rows : List A)
      → ((r : A) → fits r ≡ true → p r ≡ true → p (change r) ≡ true)
      → any_of p rows ≡ true
      → any_of p (update_where fits change rows) ≡ true
  unfolding update_where
  any_of-update_kept p fits change [] k h = h
  any_of-update_kept p fits change (r ∷ rows) k h = elim (Bool-cases (p r)) [
    | inl yes' ↦ elim (Bool-cases (fits r)) [
      | inl fit ↦ rw (fit, k r fit yes') refl
      | inr unfit ↦ rw (unfit, yes') refl
    ]
    | inr no' ↦
        any_of-tail p (if fits r then change r else r) (update_where fits change rows)
          (any_of-update_kept p fits change rows k (rw no' at h))
  ]

  any_of-append : (p : A → Bool) (xs ys : List A) → any_of p xs ≡ true → any_of p (xs ++ ys) ≡ true
  any_of-append p [] ys h = absurd (ground arith)
  any_of-append p (x ∷ xs) ys h = elim (Bool-cases (p x)) [
    | inl yes' ↦ rw yes' refl
    | inr no' ↦ rw no' (any_of-append p xs ys (rw no' at h))
  ]

-- The rows of a table that was given new rows are those.
abbrev pub IsTable : {R : Type 0} → Table R → Type 0
IsTable {R} T = (rows : List R) (db : Db) → T.rows (T.with_rows rows db) ≡ rows

module _ {R : Type 0} (T : Table R) (lens : IsTable T) (p : R → Bool) where
  pub any_of-insert_row :
      (clash : R → Bool) (row : R) (db : Db)
      → any_of p (T.rows db) ≡ true
      → any_of p (T.rows (insert_row T clash row db).1) ≡ true
  unfolding insert_row
  any_of-insert_row clash row db h =
      elim (Bool-cases
        (any_of (λ other. str_eq (T.base other).id (T.base row).id || clash other) (T.rows db))) [
          | inl taken ↦ rw taken h
          | inr free ↦
              rw (free, lens (T.rows db ++ row ∷ []) db) (any_of-append p (T.rows db) (row ∷ []) h)
        ]

  pub any_of-change_row :
      (fits : R → Bool) (change : R → R) (db : Db)
      → ((r : R) → fits r ≡ true → p r ≡ true → p (change r) ≡ true)
      → any_of p (T.rows db) ≡ true
      → any_of p (T.rows (change_row T fits change db).1) ≡ true
  unfolding change_row
  any_of-change_row fits change db k h = elim (Option-cases (find_if fits (T.rows db))) [
    | inl absent ↦ rw (change_row, absent) h
    | inr there ↦
        rw (change_row, there.1, lens (update_where fits change (T.rows db)) db)
          (any_of-update_kept p fits change (T.rows db) k h)
  ]

  pub any_of-update_row :
      (fits : R → Bool) (change : R → R) (clash : R → R → Bool) (db : Db)
      → ((r : R) → fits r ≡ true → p r ≡ true → p (change r) ≡ true)
      → any_of p (T.rows db) ≡ true
      → any_of p (T.rows (update_row T fits change clash db).1) ≡ true
  unfolding update_row
  any_of-update_row fits change clash db k h = elim (Option-cases (find_if fits (T.rows db))) [
    | inl absent ↦ rw (update_row, absent) h
    | inr there ↦
        elim (Bool-cases
          (any_of (λ other. not (fits other) && clash (change there.0) other) (T.rows db))) [
            | inl taken ↦ rw (update_row, there.1, taken) h
            | inr free ↦ rw (update_row, there.1, free) (any_of-change_row fits change db k h)
          ]
  ]

none_written : {R : Type 0} (row : R) → none_fits ≡ written row → ⊥
none_written row h = ground arith

violates_written : {R : Type 0} (row : R) → violates ≡ written row → ⊥
violates_written row h = ground arith

written_inj : {R : Type 0} (a b : R) → written a ≡ written b → a ≡ b
written_inj a b h = cc h

-- The row that an UPDATE returns is a changed row.
pub update_row-changed :
    {R : Type 0} (T : Table R) (fits : R → Bool) (change : R → R) (clash : R → R → Bool) (db : Db)
    (row : R)
    → (update_row T fits change clash db).0 ≡ written row
    → (before : R) × (change before ≡ row)
unfolding update_row change_row
update_row-changed T fits change clash db row h = elim (Option-cases (find_if fits (T.rows db))) [
  | inl absent ↦ absurd (none_written row (rw (update_row, absent) at h))
  | inr there ↦
      elim (Bool-cases
        (any_of (λ other. not (fits other) && clash (change there.0) other) (T.rows db))) [
          | inl taken ↦ absurd (violates_written row (rw (update_row, there.1, taken) at h))
          | inr free ↦ (
            there.0,
            written_inj (change there.0) row
                (rw (update_row, there.1, free, change_row, there.1) at h),
          )
        ]
]

pub Yields-answered :
    {R : Type 0} {P : R → Type 0} (e : Error) (w : Written R)
    → ((row : R) → w ≡ written row → P row)
    → Yields P (answered e w)
unfolding answered
Yields-answered e none_fits k = Yields-raise not_found
Yields-answered e violates k = Yields-raise e
Yields-answered e (written row) k = Yields-pure row (k row refl)
