-- ===== src/Devices/Names.antt =====
-- What `uniqueStrings` of server/internal/device/postgres/store.go makes of the group ids of a request.
use xmdm.Common.{
  ◌≡◌, refl, ap, ◌∙◌, eq_iff, List, [], ◌∷◌, map, String, Bool, true, false, not, if◌then◌else◌,
  str_eq, eq_refl, trim_space, any_of, All, Bool-cases, inl, inr, arith,
}
use xmdm.Database.Query.{order_by, insert_by, All-order_by, All-keep_if}
use xmdm.Devices.{first_seen, text_before, nonblank, unique_strings}

-- Whether a text is in a list.
abbrev pub has : String → List String → Bool
has x items = any_of (λ s. str_eq s x) items

abbrev IsDistinct : List String → Type 0
IsDistinct [] = Unit
IsDistinct (x ∷ xs) = (has x xs ≡ false) × IsDistinct xs

All-first_seen :
    (P : String → Type 0) (seen items : List String) → All P items → All P (first_seen seen items)
unfolding first_seen
All-first_seen P seen [] h = tt
All-first_seen P seen (x ∷ items) h = elim (Bool-cases (has x seen)) [
  | inl old ↦ rw old (All-first_seen P seen items h.1)
  | inr new' ↦ rw new' (h.0, All-first_seen P (x ∷ seen) items h.1)
]

same_has : (x y : String) (seen : List String) → str_eq y x ≡ true → has y seen ≡ has x seen
same_has x y seen h = ap (λ z. has z seen) ((eq_iff y x).0 h)

-- Nothing that was seen is among the first seen.
has-first_seen :
    (x : String) (seen items : List String)
    → has x seen ≡ true
    → has x (first_seen seen items) ≡ false
unfolding first_seen
has-first_seen x seen [] h = refl
has-first_seen x seen (y ∷ items) h = elim (Bool-cases (has y seen)) [
  | inl old ↦ rw old (has-first_seen x seen items h)
  | inr new' ↦ elim (Bool-cases (str_eq y x)) [
    | inl same ↦ absurd (ground (arith, same_has x y seen same, new', h))
    | inr other ↦
        let still : has x (y ∷ seen) ≡ true = rw (other, h) refl in
        rw (new', other) (has-first_seen x (y ∷ seen) items still)
  ]
]

IsDistinct-first_seen : (seen items : List String) → IsDistinct (first_seen seen items)
unfolding first_seen
IsDistinct-first_seen seen [] = tt
IsDistinct-first_seen seen (y ∷ items) = elim (Bool-cases (has y seen)) [
  | inl old ↦ rw old (IsDistinct-first_seen seen items)
  | inr new' ↦
      let here : has y (y ∷ seen) ≡ true = rw (eq_refl y) refl in
      rw new' (has-first_seen y (y ∷ seen) items here, IsDistinct-first_seen (y ∷ seen) items)
]

has-first_seen_iff :
    (x : String) (seen items : List String)
    → has x seen ≡ false
    → has x (first_seen seen items) ≡ has x items
unfolding first_seen
has-first_seen_iff x seen [] h = refl
has-first_seen_iff x seen (y ∷ items) h = elim (Bool-cases (str_eq y x)) [
  | inl same ↦ let new' : has y seen ≡ false = same_has x y seen same ∙ h in rw (new', same) refl
  | inr other ↦ elim (Bool-cases (has y seen)) [
    | inl old ↦ rw (old, other) (has-first_seen_iff x seen items h)
    | inr new' ↦
        let still : has x (y ∷ seen) ≡ false = rw (other, h) refl in
        rw (new', other) (has-first_seen_iff x (y ∷ seen) items still)
  ]
]

has-insert_by :
    (x : String) (before : String → String → Bool) (a : String) (items : List String)
    → has x (insert_by before a items) ≡ has x (a ∷ items)
unfolding insert_by
has-insert_by x before a [] = refl
has-insert_by x before a (b ∷ items) = elim (Bool-cases (before a b)) [
  | inl yes' ↦ rw yes' refl
  | inr no' ↦
      rw (no', insert_by)
        (rw (has-insert_by x before a items) (swapped (str_eq b x) (str_eq a x) _))
]
  where
    swapped :
        (p q r : Bool)
        → (if p then true else if q then true else r) ≡ (if q then true else if p then true else r)
    swapped true true r = refl
    swapped true false r = refl
    swapped false true r = refl
    swapped false false r = refl

has-order_by :
    (x : String) (before : String → String → Bool) (items : List String)
    → has x (order_by before items) ≡ has x items
unfolding order_by
has-order_by x before [] = refl
has-order_by x before (a ∷ items) =
    has-insert_by x before a (order_by before items) ∙ rw (has-order_by x before items) refl

apart_sym : (x y : String) → str_eq x y ≡ false → str_eq y x ≡ false
apart_sym x y h = elim (Bool-cases (str_eq y x)) [
  | inl same ↦ absurd (ground (arith, h, eq_refl x, ap (λ z. str_eq x z) ((eq_iff y x).0 same)))
  | inr other ↦ other
]

IsDistinct-insert_by :
    (before : String → String → Bool) (a : String) (items : List String)
    → has a items ≡ false
    → IsDistinct items
    → IsDistinct (insert_by before a items)
unfolding insert_by
IsDistinct-insert_by before a [] h k = (refl, tt)
IsDistinct-insert_by before a (b ∷ items) h k = elim (Bool-cases (before a b)) [
  | inl yes' ↦ rw yes' (h, k)
  | inr no' ↦
      let apart : str_eq b a ≡ false = ground (arith, h) in
      let absent : has a items ≡ false = ground (arith, h) in
      let other : has b (insert_by before a items) ≡ false =
        has-insert_by b before a items ∙ rw (apart_sym b a apart) k.0 in
      rw no' (other, IsDistinct-insert_by before a items absent k.1)
]

IsDistinct-order_by :
    (before : String → String → Bool) (items : List String)
    → IsDistinct items
    → IsDistinct (order_by before items)
unfolding order_by
IsDistinct-order_by before [] k = tt
IsDistinct-order_by before (a ∷ items) k =
    IsDistinct-insert_by before a (order_by before items) (has-order_by a before items ∙ k.0)
      (IsDistinct-order_by before items k.1)

-- Whatever the texts, `uniqueStrings` gives no text twice and none that is empty.
unique_strings-IsDistinct :
    (items : List String)
    → IsDistinct (unique_strings items) × All (λ s. not (str_eq s "") ≡ true) (unique_strings items)
unfolding unique_strings
unique_strings-IsDistinct items = (
  IsDistinct-order_by text_before _ (IsDistinct-first_seen [] (nonblank items)),
  All-order_by _ text_before _ (
      All-first_seen _ [] (nonblank items)
        (All-keep_if (λ s. not (str_eq s "")) (map trim_space items))),
)

-- Whatever the texts, `uniqueStrings` gives the texts that are left of them when the space around
-- them is cut off and the empty ones are dropped.
pub has-unique_strings :
    (x : String) (items : List String) → has x (unique_strings items) ≡ has x (nonblank items)
unfolding unique_strings
has-unique_strings x items =
    has-order_by x text_before _ ∙ has-first_seen_iff x [] (nonblank items) refl
