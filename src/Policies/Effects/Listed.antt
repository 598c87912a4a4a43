-- ===== src/Policies/Effects/Listed.antt =====
-- Tests over the list of active assignments of server/internal/policy/postgres/store.go, after an
-- assignment was added or removed.
use xmdm.Common.{
  ◌≡◌, refl, ap, ◌∙◌, List, [], ◌∷◌, ◌++◌, String, Bool, true, false, ◌&&◌, some, if◌then◌else◌,
  str_eq, any_of, find_if, keep_if, arith, Bool-cases, inl, inr,
}
use xmdm.Database.Rows.{BindingRow}
use xmdm.Database.{Error, ok, err, Sys, pure, raise}
use xmdm.Database.Query.{update_where, order_by, insert_by}
use xmdm.Database.Table.{answered, Written, written, none_fits, violates}

swapped :
    (x y z : Bool)
    → (if y then true else if x then true else z) ≡ (if x then true else if y then true else z)
swapped x y z = ground arith

pub ok_inj : {A : Type 0} (a b : A) → ok a ≡ ok b → a ≡ b
ok_inj a b h = cc h

module _ {A : Type 0} where
  any_of-insert_by :
      (p : A → Bool) (before : A → A → Bool) (a : A) (rows : List A)
      → any_of p (insert_by before a rows) ≡ any_of p (a ∷ rows)
  unfolding insert_by
  any_of-insert_by p before a [] = refl
  any_of-insert_by p before a (b ∷ rows) = elim (Bool-cases (before a b)) [
    | inl yes' ↦ rw yes' refl
    | inr no' ↦ rw (no', any_of-insert_by p before a rows) (swapped (p a) (p b) (any_of p rows))
  ]

  pub any_of-order_by :
      (p : A → Bool) (before : A → A → Bool) (rows : List A)
      → any_of p (order_by before rows) ≡ any_of p rows
  unfolding order_by
  any_of-order_by p before [] = refl
  any_of-order_by p before (a ∷ rows) =
      any_of-insert_by p before a (order_by before rows)
      ∙ ap (λ rest. if p a then true else rest) (any_of-order_by p before rows)

  pub any_of-kept :
      (p q : A → Bool) (rows : List A) → any_of p (keep_if q rows) ≡ any_of (λ r. q r && p r) rows
  any_of-kept p q [] = refl
  any_of-kept p q (r ∷ rows) = elim (Bool-cases (q r)) [
    | inl yes' ↦ rw (yes', any_of-kept p q rows) refl
    | inr no' ↦ rw (no', any_of-kept p q rows) refl
  ]

  -- An UPDATE after which no row that it fitted passes the test.
  pub any_of-cleared :
      (p fits : A → Bool) (change : A → A) (rows : List A)
      → ((r : A) → fits r ≡ true → p (change r) ≡ false)
      → ((r : A) → fits r ≡ false → p r ≡ false)
      → any_of p (update_where fits change rows) ≡ false
  unfolding update_where
  any_of-cleared p fits change [] k l = refl
  any_of-cleared p fits change (r ∷ rows) k l = elim (Bool-cases (fits r)) [
    | inl fit ↦ rw (fit, k r fit) (any_of-cleared p fits change rows k l)
    | inr unfit ↦ rw (unfit, l r unfit) (any_of-cleared p fits change rows k l)
  ]

  -- An UPDATE that makes the rows that it fits pass the test.
  pub any_of-made :
      (p fits : A → Bool) (change : A → A) (rows : List A) (row : A)
      → ((r : A) → fits r ≡ true → p (change r) ≡ true)
      → find_if fits rows ≡ some row
      → any_of p (update_where fits change rows) ≡ true
  unfolding update_where
  any_of-made p fits change [] row k h = absurd (ground arith)
  any_of-made p fits change (r ∷ rows) row k h = elim (Bool-cases (fits r)) [
    | inl fit ↦ rw (fit, k r fit) refl
    | inr unfit ↦ elim (Bool-cases (p r)) [
      | inl yes' ↦ rw (unfit, yes') refl
      | inr no' ↦ rw (unfit, no') (any_of-made p fits change rows row k (rw unfit at h))
    ]
  ]

  pub any_of-last :
      (p : A → Bool) (rows : List A) (a : A) → p a ≡ true → any_of p (rows ++ a ∷ []) ≡ true
  any_of-last p [] a h = rw h refl
  any_of-last p (r ∷ rows) a h = elim (Bool-cases (p r)) [
    | inl yes' ↦ rw yes' refl
    | inr no' ↦ rw no' (any_of-last p rows a h)
  ]

pub unlisted :
    (policy item active : Bool) → (policy && item) ≡ false → ((policy && active) && item) ≡ false
unlisted policy item active h = ground arith

pub paired : (a b c : Bool) → (a && b && c) ≡ true → ((a && b) && true) && c ≡ true
paired a b c h = ground arith

pub not_violated : (row : BindingRow) → violates ≡ written row → ⊥
not_violated row h = ground arith

pub not_ok : {A : Type 0} {e : Error} (row : A) → err e ≡ ok row → ⊥
not_ok row h = ground arith

pub answered-ok :
    (e : Error) (w : Written BindingRow) (s : Sys) (row : BindingRow)
    → (answered e w s).0 ≡ ok row
    → (w ≡ written row) × ((answered e w s).1 ≡ s)
unfolding answered raise pure
answered-ok e none_fits s row h = absurd (not_ok row h)
answered-ok e violates s row h = absurd (not_ok row h)
answered-ok e (written a) s row h = (ap written (ok_inj a row h), refl)

-- The list has the item.
unfoldable pub lists : String → List BindingRow → Bool
lists item rows = any_of (λ b. str_eq b.item_id item) rows
