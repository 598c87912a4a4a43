-- ===== src/Common/Maps.antt =====
-- A Go map with text keys, as a list of its entries. The entry of a key that is set anew replaces
-- the one that there was.
use mathlib.Core.Path.{◌≡◌, refl, sym, ◌∙◌}
use mathlib.Core.Logic.{◌≢◌, inl, inr}
use mathlib.Core.Bool.{true, false}
use mathlib.Core.List.{List, [], ◌∷◌}
use mathlib.Core.Option.{Option, none, some}
use Prim.Native.String.{String}
use native.Mathlib.Omega.{arith}
use xmdm.Common.Tests.{if◌then◌else◌, Bool-cases}
use xmdm.Common.Text.{str_eq, eq_iff, eq_refl}

true_ne_false : true ≡ false → ⊥
true_ne_false h = ground arith

-- A key that is another's equal is different from every key that the other is different from.
pub different_keys : (i j k : String) → str_eq i j ≡ true → str_eq k j ≡ false → str_eq i k ≡ false
different_keys i j k h d = elim (Bool-cases (str_eq i k)) [
  | inl same ↦
      absurd
        (true_ne_false (sym ((eq_iff k j).1 (sym ((eq_iff i k).0 same) ∙ (eq_iff i j).0 h)) ∙ d))
  | inr other ↦ other
]

pub str_eq-ne : (i j : String) → i ≢ j → (str_eq i j ≡ false) × (str_eq j i ≡ false)
str_eq-ne i j ne = (
  elim (Bool-cases (str_eq i j)) [ inl e ↦ absurd (ne ((eq_iff i j).0 e)) | inr d ↦ d ],
  elim (Bool-cases (str_eq j i)) [ inl e ↦ absurd (ne (sym ((eq_iff j i).0 e))) | inr d ↦ d ],
)

module _ {A : Type 0} where
  unfoldable pub lookup : String → List (String × A) → Option A
  lookup key [] = none
  lookup key (e ∷ m) = let rest = lookup key m in if str_eq e.0 key then some e.1 else rest

  -- `delete(m, key)`
  unfoldable pub remove : String → List (String × A) → List (String × A)
  remove key [] = []
  remove key (e ∷ m) = let rest = remove key m in if str_eq e.0 key then rest else e ∷ rest

  -- `m[key] = a`
  unfoldable pub put : String → A → List (String × A) → List (String × A)
  unfolding remove
  put key a m = (key, a) ∷ remove key m

  pub lookup-remove : (key : String) (m : List (String × A)) → lookup key (remove key m) ≡ none
  unfolding lookup remove
  lookup-remove key [] = refl
  lookup-remove key (e ∷ m) = elim (Bool-cases (str_eq e.0 key)) [
    | inl yes' ↦ rw yes' (lookup-remove key m)
    | inr no' ↦ rw (no', no') (lookup-remove key m)
  ]

  pub lookup-remove_other :
      (key other : String) (m : List (String × A))
      → str_eq key other ≡ false
      → lookup key (remove other m) ≡ lookup key m
  unfolding lookup remove
  lookup-remove_other key other [] d = refl
  lookup-remove_other key other (e ∷ m) d = elim (Bool-cases (str_eq e.0 other)) [
    | inl yes' ↦ rw (yes', different_keys e.0 other key yes' d) (lookup-remove_other key other m d)
    | inr no' ↦ rw (no', lookup-remove_other key other m d) refl
  ]

  pub lookup-put :
      (key : String) (a : A) (m : List (String × A)) → lookup key (put key a m) ≡ some a
  unfolding lookup put
  lookup-put key a m = rw (eq_refl key) refl

  pub lookup-put_other :
      (key other : String) (a : A) (m : List (String × A))
      → str_eq key other ≡ false
      → str_eq other key ≡ false
      → lookup key (put other a m) ≡ lookup key m
  unfolding lookup put
  lookup-put_other key other a m d e = rw e (lookup-remove_other key other m d)
