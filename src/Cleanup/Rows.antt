-- ===== src/Cleanup/Rows.antt =====
-- Rows that a test finds, after an UPDATE or a DELETE that fits others.
use xmdm.Common.{
  ◌≡◌, refl, subst, List, [], ◌∷◌, String, Bool, true, false, some, find_if, keep_if, All, Among,
  some_inj, arith, Bool-cases, inl, inr,
}
use xmdm.Database.Query.{update_where, skipped}

module _ {A : Type 0} where
  pub All-keep : (P : A → Type 0) (p : A → Bool) (xs : List A) → All P xs → All P (keep_if p xs)
  All-keep P p [] h = tt
  All-keep P p (x ∷ xs) h = elim (Bool-cases (p x)) [
    | inl stays ↦ rw stays (h.0, All-keep P p xs h.1)
    | inr goes ↦ rw goes (All-keep P p xs h.1)
  ]

  pub All-zip : (P Q : A → Type 0) (xs : List A) → All P xs → All Q xs → All (λ x. P x × Q x) xs
  All-zip P Q [] h k = tt
  All-zip P Q (x ∷ xs) h k = ((h.0, k.0), All-zip P Q xs h.1 k.1)

  pub All-update_where :
      (P : A → Type 0) (fits : A → Bool) (change : A → A) (xs : List A)
      → ((x : A) → P x → P (change x))
      → All P xs
      → All P (update_where fits change xs)
  unfolding update_where
  All-update_where P fits change [] k h = tt
  All-update_where P fits change (x ∷ xs) k h = elim (Bool-cases (fits x)) [
    | inl yes' ↦ rw yes' (k x h.0, All-update_where P fits change xs k h.1)
    | inr no' ↦ rw no' (h.0, All-update_where P fits change xs k h.1)
  ]

  pub find_if-All :
      (P : A → Type 0) (p : A → Bool) (xs : List A) (a : A) → All P xs → find_if p xs ≡ some a → P a
  find_if-All P p [] a h there = absurd (ground arith)
  find_if-All P p (x ∷ xs) a h there = elim (Bool-cases (p x)) [
    | inl yes' ↦ subst P (some_inj x a (rw yes' at there)) h.0
    | inr no' ↦ find_if-All P p xs a h.1 (rw no' at there)
  ]

  -- A row that an UPDATE does not fit, and one that a DELETE does not, is found as before.
  pub find_if-update_other :
      (p fits : A → Bool) (change : A → A) (xs : List A)
      → ((x : A) → p x ≡ true → fits x ≡ false)
      → ((x : A) → p (change x) ≡ p x)
      → find_if p (update_where fits change xs) ≡ find_if p xs
  unfolding update_where
  find_if-update_other p fits change [] other same = refl
  find_if-update_other p fits change (x ∷ xs) other same = elim (Bool-cases (p x)) [
    | inl yes' ↦ rw (other x yes', yes') refl
    | inr no' ↦
        rw (skipped p change (fits x) x same no', no')
          (find_if-update_other p fits change xs other same)
  ]

  pub find_if-keep_if :
      (p keeps : A → Bool) (xs : List A)
      → ((x : A) → p x ≡ true → keeps x ≡ true)
      → find_if p (keep_if keeps xs) ≡ find_if p xs
  find_if-keep_if p keeps [] wide = refl
  find_if-keep_if p keeps (x ∷ xs) wide = elim (Bool-cases (p x)) [
    | inl yes' ↦ rw (wide x yes', yes') refl
    | inr no' ↦ elim (Bool-cases (keeps x)) [
      | inl stays ↦ rw (stays, no') (find_if-keep_if p keeps xs wide)
      | inr goes ↦ rw (goes, no') (find_if-keep_if p keeps xs wide)
    ]
  ]

pub Among-keep_if :
    (p : String → Bool) (x : String) (xs : List String)
    → p x ≡ true
    → Among x xs
    → Among x (keep_if p xs)
Among-keep_if p x [] h there = there
Among-keep_if p x (y ∷ ys) h (inl same) = rw (subst (λ (z : String). p z ≡ true) same h) (inl same)
Among-keep_if p x (y ∷ ys) h (inr later) = elim (Bool-cases (p y)) [
  | inl stays ↦ rw stays (inr (Among-keep_if p x ys h later))
  | inr goes ↦ rw goes (Among-keep_if p x ys h later)
]
