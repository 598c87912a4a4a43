-- ===== src/Plugins/Offers.antt =====
-- The command types that the plugins of server/internal/plugins/manager.go offer a session.
use xmdm.Common.{
  ◌≡◌, refl, inl, inr, ◌⊎◌, List, [], ◌∷◌, String, Bool, true, false, not, ◌&&◌, none, some,
  if◌then◌else◌, str_eq, eq_iff, trim_space, find_if, Bool-cases, some_inj, subst, arith, All,
  All-append,
}
use xmdm.Auth.{Session, has_permission}
use xmdm.Plugins.{
  CommandType, Plugin, Manager, offered, offered_all, offered_by, is_blank, command_types_for,
  supports_command_type,
}

-- The session may use the command type.
abbrev pub IsPermitted : Session → CommandType → Type 0
IsPermitted session c =
    (str_eq (trim_space c.required_permission) "" ≡ true)
    ⊎ (has_permission session.permissions (trim_space c.required_permission) ≡ true)

-- The command type as it is offered.
abbrev pub shown : CommandType → CommandType
shown c = record c {
  type = trim_space c.type;
  label = if is_blank c.label then trim_space c.type else c.label;
}

pub none_found : (c : CommandType) → none ≡ some c → ⊥
none_found c h = ground arith

pub not_true : false ≡ true → ⊥
not_true h = ground arith

refusal_cases :
    (blank has : Bool)
    → ((not blank && not has) ≡ true)
      ⊎ (((not blank && not has) ≡ false) × ((blank ≡ true) ⊎ (has ≡ true)))
refusal_cases true has = inr (refl, inl refl)
refusal_cases false true = inr (refl, inr refl)
refusal_cases false false = inl refl

pub permitted_shown :
    (session : Session) (c : CommandType)
    → str_eq (trim_space c.type) "" ≡ false
    → IsPermitted session c
    → offered session c ≡ some (shown c)
unfolding offered
permitted_shown session c typed (inl blank) = rw (typed, blank) refl
permitted_shown session c typed (inr has) =
    elim (Bool-cases (str_eq (trim_space c.required_permission) "")) [
      | inl blank ↦ rw (typed, blank) refl
      | inr named ↦ rw (typed, named, has) refl
    ]

-- Nothing is offered, or what the session may use.
offered-cases :
    (session : Session) (c : CommandType)
    → (offered session c ≡ none) ⊎ ((offered session c ≡ some (shown c)) × IsPermitted session c)
unfolding offered
offered-cases session c = elim (Bool-cases (str_eq (trim_space c.type) "")) [
  | inl blank ↦ inl (rw blank refl)
  | inr typed ↦
      elim (refusal_cases (str_eq (trim_space c.required_permission) "")
        (has_permission session.permissions (trim_space c.required_permission))) [
          | inl refused ↦ inl (rw (typed, refused) refl)
          | inr found ↦ inr (permitted_shown session c typed found.1, found.1)
        ]
]

offered_all-IsPermitted :
    (session : Session) (cs : List CommandType) → All (IsPermitted session) (offered_all session cs)
unfolding offered_all
offered_all-IsPermitted session [] = tt
offered_all-IsPermitted session (c ∷ cs) = elim (offered-cases session c) [
  | inl nothing ↦ rw (All, nothing) (offered_all-IsPermitted session cs)
  | inr found ↦ rw (All, found.0) (found.1, offered_all-IsPermitted session cs)
]

offered_by-IsPermitted :
    (session : Session) (plugins : List Plugin)
    → All (IsPermitted session) (offered_by session plugins)
unfolding offered_by
offered_by-IsPermitted session [] = tt
offered_by-IsPermitted session (p ∷ plugins) = elim (Bool-cases p.enabled) [
  | inr off ↦ rw off (offered_by-IsPermitted session plugins)
  | inl on ↦ rw on (
      All-append (IsPermitted session) (offered_all session p.command_types)
        (offered_by session plugins) (offered_all-IsPermitted session p.command_types)
        (offered_by-IsPermitted session plugins))
]

found_one :
    (session : Session) (test : CommandType → Bool) (cs : List CommandType) (c : CommandType)
    → All (IsPermitted session) cs
    → find_if test cs ≡ some c
    → (test c ≡ true) × IsPermitted session c
found_one session test [] c all h = absurd (none_found c h)
found_one session test (d ∷ cs) c all h = elim (Bool-cases (test d)) [
  | inl fits ↦
      subst (λ (x : CommandType). (test x ≡ true) × IsPermitted session x)
        (some_inj d c (rw fits at h)) (fits, all.0)
  | inr other ↦ found_one session test cs c all.1 (rw other at h)
]

-- A command type that SupportsCommandType answers has the type that was asked for, without the
-- spaces around it, and it requires no permission or one that the session has.
pub supports_command_type-IsPermitted :
    (m : Manager) (session : Session) (type : String) (c : CommandType)
    → supports_command_type (some m) (some session) type ≡ some c
    → (c.type ≡ trim_space type) × IsPermitted session c
unfolding supports_command_type command_types_for
supports_command_type-IsPermitted m session type c h =
    elim (Bool-cases (str_eq (trim_space type) "")) [
      | inl blank ↦ absurd (none_found c (rw blank at h))
      | inr typed ↦ elim (Bool-cases m.enabled) [
        | inr off ↦ absurd (none_found c (rw (typed, off) at h))
        | inl on ↦
            let found =
              found_one session (λ spec. str_eq spec.type (trim_space type))
                (offered_by session m.plugins) c (offered_by-IsPermitted session m.plugins)
                (rw (typed, on) at h) in
            ((eq_iff c.type (trim_space type)).0 found.0, found.1)
      ]
    ]
