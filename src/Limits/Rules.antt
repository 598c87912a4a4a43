-- ===== src/Limits/Rules.antt =====
-- Which rule `matchRule` of server/internal/httpx/rate_limit.go finds.
use Prim.Native.String.{len}
use xmdm.Common.{
  ℕ, ◌≤◌, ◌≡◌, ◌⊎◌, inl, inr, List, [], ◌∷◌, true, false, ◌&&◌, Option, none, some, ltb, All, Among,
  keep_if, arith, Bool-cases, some_inj, subst, sym, and_parts, ltb→lt,
}
use xmdm.Limits.{RateLimitRule, Request, applies, longer, match_from, match_rule}

-- No rule of the list that applies has a longer prefix.
abbrev pub NoneLonger : Request → RateLimitRule → List RateLimitRule → Type 0
NoneLonger r m rules =
    All (λ rule. len rule.path_prefix ≤ len m.path_prefix) (keep_if (applies r) rules)

not_longer : (a b : ℕ) → ltb a b ≡ false → b ≤ a
not_longer a b h = ground arith

-- What the loop returns, when it starts with a rule that was matched already.
match_from-NoneLonger :
    (r : Request) (matched : RateLimitRule) (rules : List RateLimitRule) (m : RateLimitRule)
    → match_from r (some matched) rules ≡ some m
    → (len matched.path_prefix ≤ len m.path_prefix) × NoneLonger r m rules
unfolding match_from
match_from-NoneLonger r matched [] m h = (
  subst (λ (x : RateLimitRule). len matched.path_prefix ≤ len x.path_prefix) (some_inj matched m h)
      (omega arith),
  tt,
)
match_from-NoneLonger r matched (rule ∷ rules) m h = elim (Bool-cases (applies r rule)) [
  | inr other ↦
      let rest = match_from-NoneLonger r matched rules m (rw other at h) in
      (rest.0, rw other rest.1)
  | inl fits ↦ elim (Bool-cases (ltb (len matched.path_prefix) (len rule.path_prefix))) [
    | inl wins ↦
        let rest = match_from-NoneLonger r rule rules m (rw (fits, wins) at h) in
        let shorter = ltb→lt (len matched.path_prefix) (len rule.path_prefix) wins in
        (omega (arith, shorter, rest.0), rw fits (rest.0, rest.1))
    | inr loses ↦
        let rest = match_from-NoneLonger r matched rules m (rw (fits, loses) at h) in
        let shorter = not_longer (len matched.path_prefix) (len rule.path_prefix) loses in
        (rest.0, rw fits (omega (arith, shorter, rest.0), rest.1))
  ]
]

-- The rule that the loop returns is the one it started with, or one of the list that applies.
match_from-Among :
    (r : Request) (matched : Option RateLimitRule) (rules : List RateLimitRule) (m : RateLimitRule)
    → match_from r matched rules ≡ some m
    → (matched ≡ some m) ⊎ ((applies r m ≡ true) × Among m rules)
unfolding match_from
match_from-Among r matched [] m h = inl h
match_from-Among r matched (rule ∷ rules) m h =
    elim (Bool-cases (applies r rule && longer matched rule)) [
      | inr stays ↦ elim (match_from-Among r matched rules m (rw stays at h)) [
        | inl same ↦ inl same
        | inr found ↦ inr (found.0, inr found.1)
      ]
      | inl taken ↦ elim (match_from-Among r (some rule) rules m (rw taken at h)) [
        | inr found ↦ inr (found.0, inr found.1)
        | inl same ↦
            let here = some_inj rule m same in
            inr (
              subst (λ (x : RateLimitRule). applies r x ≡ true) here (and_parts _ _ taken).0,
              inl (sym here),
            )
      ]
    ]

not_none : (m : RateLimitRule) → none ≡ some m → ⊥
not_none m h = ground arith

first_match :
    (r : Request) (rules : List RateLimitRule) (m : RateLimitRule)
    → match_from r none rules ≡ some m
    → NoneLonger r m rules
unfolding match_from
first_match r [] m h = tt
first_match r (rule ∷ rules) m h = elim (Bool-cases (applies r rule)) [
  | inr other ↦ rw other (first_match r rules m (rw other at h))
  | inl fits ↦
      let rest = match_from-NoneLonger r rule rules m (rw fits at h) in rw fits (rest.0, rest.1)
]

-- The rule that matchRule finds is one of the rules, it applies to the request, and no rule that
-- applies has a longer prefix.
pub match_rule-longest :
    (r : Request) (rules : List RateLimitRule) (m : RateLimitRule)
    → match_rule r rules ≡ some m
    → (applies r m ≡ true) × Among m rules × NoneLonger r m rules
unfolding match_rule
match_rule-longest r rules m h = elim (match_from-Among r none rules m h) [
  | inl same ↦ absurd (not_none m same)
  | inr found ↦ (found.0, found.1, first_match r rules m h)
]
