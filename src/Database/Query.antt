-- ===== src/Database/Query.antt =====
-- The clauses of the SQL statements, over the rows of a table: WHERE, ORDER BY, LIMIT and OFFSET,
-- UPDATE with RETURNING, and the number of rows affected.
use Prim.Native.String.{compare}
use Prim.Native.Nat.{Ordering}
use xmdm.Common.{
  ℕ, suc, ◌≡◌, refl, ap, ◌∙◌, subst, ◌&&◌, inl, inr, List, [], ◌∷◌, String, Bool, true, false,
  Option, none, some, if◌then◌else◌, ltb, ◌==◌, keep_if, find_if, take, drop, All, arith,
  Bool-cases, some_first, none_first,
}
use xmdm.Common.Int.{pos_part}
use xmdm.Pagination.{Params}

module _ {A : Type 0} where
  -- Insertion into an ordered list, behind the rows that are not after it.
  unfoldable pub insert_by : (A → A → Bool) → A → List A → List A
  insert_by before a [] = a ∷ []
  insert_by before a (b ∷ bs) =
      let rest = b ∷ insert_by before a bs in if before a b then a ∷ b ∷ bs else rest

  -- ORDER BY; `before a b` tells that `a` comes strictly first.
  unfoldable pub order_by : (A → A → Bool) → List A → List A
  unfolding insert_by
  order_by before [] = []
  order_by before (a ∷ rest) = insert_by before a (order_by before rest)

  -- LIMIT and OFFSET
  abbrev pub slice : Params → List A → List A
  slice p rows = take (pos_part p.limit) (drop (pos_part p.offset) rows)

  -- UPDATE … SET … WHERE …
  unfoldable pub update_where : (A → Bool) → (A → A) → List A → List A
  update_where p f [] = []
  update_where p f (a ∷ rest) = (if p a then f a else a) ∷ update_where p f rest

  -- The number of rows that a WHERE clause fits.
  unfoldable pub count_where : (A → Bool) → List A → ℕ
  count_where p [] = 0
  count_where p (a ∷ rest) = if p a then suc (count_where p rest) else count_where p rest

  -- RETURNING, for a WHERE clause that names the primary key
  abbrev pub returning : (A → Bool) → (A → A) → List A → Option A
  returning p f rows = elim (find_if p rows) [ none ↦ none | some a ↦ some (f a) ]

-- ORDER BY created_at, id
unfoldable pub earlier : ℕ → String → ℕ → String → Bool
earlier t i u j =
    if ltb t u
    then true
    else if t == u
    then elim (compare i j) [ Ordering.lt ↦ true | _ ↦ false ]
    else false

module _ {A : Type 0} (P : A → Type 0) where
  pub All-insert_by :
      (before : A → A → Bool) (a : A) (rows : List A)
      → P a
      → All P rows
      → All P (insert_by before a rows)
  unfolding insert_by
  All-insert_by before a [] h k = (h, tt)
  All-insert_by before a (b ∷ rows) h k = elim (Bool-cases (before a b)) [
    | inl yes' ↦ rw yes' (h, k)
    | inr no' ↦ rw no' (k.0, All-insert_by before a rows h k.1)
  ]

  pub All-order_by :
      (before : A → A → Bool) (rows : List A) → All P rows → All P (order_by before rows)
  unfolding order_by
  All-order_by before [] k = tt
  All-order_by before (a ∷ rows) k =
      All-insert_by before a (order_by before rows) k.0 (All-order_by before rows k.1)

module _ {A : Type 0} where
  -- Every row that a WHERE clause lets through passes its test.
  pub All-keep_if : (p : A → Bool) (rows : List A) → All (λ a. p a ≡ true) (keep_if p rows)
  All-keep_if p [] = tt
  All-keep_if p (a ∷ rows) = elim (Bool-cases (p a)) [
    | inl passes ↦ rw passes (passes, All-keep_if p rows)
    | inr fails ↦ rw fails (All-keep_if p rows)
  ]

  pub skipped :
      (p : A → Bool) (change : A → A) (b : Bool) (r : A)
      → ((x : A) → p (change x) ≡ p x)
      → p r ≡ false
      → p (if b then change r else r) ≡ false
  skipped p change true r same e = same r ∙ e
  skipped p change false r same e = e

  -- The row that a test finds is found, changed, after an UPDATE that fits it and that the test does
  -- not see.
  pub find_if-update_where :
      (p fits : A → Bool) (change : A → A) (rows : List A) (row : A)
      → ((r : A) → p (change r) ≡ p r)
      → fits row ≡ true
      → find_if p rows ≡ some row
      → find_if p (update_where fits change rows) ≡ some (change row)
  unfolding update_where
  find_if-update_where p fits change [] row same fit h = absurd (ground arith)
  find_if-update_where p fits change (r ∷ rows) row same fit h = elim (Bool-cases (p r)) [
    | inl yes' ↦
        let first : r ≡ row = some_first (p r) r row (find_if p rows) yes' h in
        let fit_first : fits r ≡ true = ap fits first ∙ fit in
        rw (fit_first, same r, yes', first) refl
    | inr no' ↦
        let rest : find_if p rows ≡ some row = none_first (p r) r row (find_if p rows) no' h in
        rw
          (
            skipped p change (fits r) r same no',
            find_if-update_where p fits change rows row same fit rest,
          )
          refl
  ]

  -- The first row of a test is the first row of a narrower one that it passes.
  pub find_if_and :
      (p q : A → Bool) (rows : List A) (row : A)
      → find_if p rows ≡ some row
      → q row ≡ true
      → find_if (λ r. p r && q r) rows ≡ some row
  find_if_and p q [] row h k = absurd (ground arith)
  find_if_and p q (r ∷ rows) row h k = elim (Bool-cases (p r)) [
    | inl yes' ↦
        let first : r ≡ row = some_first (p r) r row (find_if p rows) yes' h in
        let fit_first : q r ≡ true = ap q first ∙ k in rw (yes', fit_first, first) refl
    | inr no' ↦ rw no' (find_if_and p q rows row (none_first (p r) r row (find_if p rows) no' h) k)
  ]

  -- A row that a test finds passes it.
  pub find_if_passes :
      (p : A → Bool) (rows : List A) (row : A) → find_if p rows ≡ some row → p row ≡ true
  find_if_passes p [] row h = absurd (ground arith)
  find_if_passes p (r ∷ rows) row h = elim (Bool-cases (p r)) [
    | inl yes' ↦ subst (λ (x : A). p x ≡ true) (some_first (p r) r row (find_if p rows) yes' h) yes'
    | inr no' ↦ find_if_passes p rows row (none_first (p r) r row (find_if p rows) no' h)
  ]
