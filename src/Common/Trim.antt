-- ===== src/Common/Trim.antt =====
-- `strings.TrimSpace` applied twice.
use Prim.Native.Char.{Char, code}
use Prim.Native.String.{String}
use mathlib.Core.Path.{◌≡◌, refl, subst}
use mathlib.Core.Logic.{◌⊎◌, inl, inr}
use mathlib.Core.Bool.{Bool, true, false, not}
use native.Mathlib.Omega.{arith}
use xmdm.Common.Tests.{Bool-cases}
use xmdm.Common.Text.{str_eq, eq_iff, is_space, trim_left, trim_right, cons_trimmed, trim_space}

-- The text has a first character, which is no space.
starts_solid : String → Bool
starts_solid String.[] = false
starts_solid (String.◌∷◌ c s) = not (is_space (code c))

trim_left-solid : (s : String) → (trim_left s ≡ "") ⊎ (starts_solid (trim_left s) ≡ true)
unfolding trim_left starts_solid
trim_left-solid String.[] = inl refl
trim_left-solid (String.◌∷◌ c s) = elim (Bool-cases (is_space (code c))) [
  | inl space ↦ rw space (trim_left-solid s)
  | inr solid ↦ rw (solid, solid) (inr refl)
]

cons_trimmed-solid :
    (c : Char) (s : String)
    → not (is_space (code c)) ≡ true
    → starts_solid (cons_trimmed c s) ≡ true
unfolding cons_trimmed starts_solid
cons_trimmed-solid c String.[] h = elim (Bool-cases (is_space (code c))) [
  | inl space ↦ absurd (ground (arith, (rw space at h)))
  | inr solid ↦ rw (solid, solid) refl
]
cons_trimmed-solid c (String.◌∷◌ d s) h = h

trim_right-solid : (s : String) → starts_solid s ≡ true → starts_solid (trim_right s) ≡ true
unfolding trim_right starts_solid
trim_right-solid String.[] h = h
trim_right-solid (String.◌∷◌ c s) h = cons_trimmed-solid c (trim_right s) h

trim_left-id : (s : String) → starts_solid s ≡ true → trim_left s ≡ s
unfolding trim_left starts_solid
trim_left-id String.[] h = refl
trim_left-id (String.◌∷◌ c s) h = elim (Bool-cases (is_space (code c))) [
  | inl space ↦ absurd (ground (arith, (rw space at h)))
  | inr solid ↦ rw solid refl
]

not_blank : (s : String) → starts_solid s ≡ true → str_eq s "" ≡ false
unfolding starts_solid
not_blank s h = elim (Bool-cases (str_eq s "")) [
  | inr other ↦ other
  | inl empty ↦
      absurd (ground (arith, (subst (λ t. starts_solid t ≡ true) ((eq_iff s "").0 empty) h)))
]

-- A text that is not blank is not after it was trimmed.
pub trim_twice :
    (s : String) → str_eq (trim_space s) "" ≡ false → str_eq (trim_space (trim_space s)) "" ≡ false
unfolding trim_space
trim_twice s h = elim (trim_left-solid s) [
  | inl empty ↦ absurd (ground (arith, (rw empty at h)))
  | inr solid ↦
      let once = trim_right-solid (trim_left s) solid in
      not_blank _ (rw (trim_left-id (trim_right (trim_left s)) once) (trim_right-solid _ once))
]
