-- ===== src/Plugins/Complete.antt =====
-- Who may use every command type that the plugins of server/internal/plugins/manager.go offer: a
-- session that has the permissions of the catalog.
use xmdm.Common.{
  ◌≡◌, ◌≢◌, refl, sym, inl, inr, List, [], ◌∷◌, ◌++◌, Bool, true, false, Option, none, some, str_eq,
  eq_refl, trim_space, find_if, any_of, Bool-cases, Among, subst,
}
use xmdm.Auth.{Session}
use xmdm.Plugins.{
  CommandType, Plugin, Manager, offered, offered_all, offered_by, command_types_for,
  supports_command_type, permission_catalog,
}
use xmdm.Plugins.Catalog.{permission_catalog-has}
use xmdm.Plugins.Offers.{IsPermitted, shown, permitted_shown, none_found, not_true}

any_of-append_left :
    (test : CommandType → Bool) (xs ys : List CommandType)
    → any_of test xs ≡ true
    → any_of test (xs ++ ys) ≡ true
any_of-append_left test [] ys h = absurd (not_true h)
any_of-append_left test (x ∷ xs) ys h = elim (Bool-cases (test x)) [
  | inl fits ↦ rw fits refl
  | inr other ↦ rw other (any_of-append_left test xs ys (rw other at h))
]

any_of-append_right :
    (test : CommandType → Bool) (xs ys : List CommandType)
    → any_of test ys ≡ true
    → any_of test (xs ++ ys) ≡ true
any_of-append_right test [] ys h = h
any_of-append_right test (x ∷ xs) ys h = elim (Bool-cases (test x)) [
  | inl fits ↦ rw fits refl
  | inr other ↦ rw other (any_of-append_right test xs ys h)
]

any_of-found :
    (test : CommandType → Bool) (cs : List CommandType)
    → any_of test cs ≡ true
    → find_if test cs ≢ none
any_of-found test [] h e = absurd (not_true h)
any_of-found test (c ∷ cs) h e = elim (Bool-cases (test c)) [
  | inl fits ↦ none_found c (sym (rw fits at e))
  | inr other ↦ any_of-found test cs (rw other at h) (rw other at e)
]

-- What the inner loop adds to the rest.
abbrev prepended : Option CommandType → List CommandType → List CommandType
prepended o rest = elim o [ none ↦ rest | some spec ↦ spec ∷ rest ]

any_of-prepended :
    (test : CommandType → Bool) (o : Option CommandType) (rest : List CommandType)
    → any_of test rest ≡ true
    → any_of test (prepended o rest) ≡ true
any_of-prepended test none rest h = h
any_of-prepended test (some spec) rest h = any_of-append_right test (spec ∷ []) rest h

any_of-prepended_first :
    (test : CommandType → Bool) (o : Option CommandType) (spec : CommandType)
    (rest : List CommandType)
    → o ≡ some spec
    → test spec ≡ true
    → any_of test (prepended o rest) ≡ true
any_of-prepended_first test o spec rest h fits =
    subst (λ (x : Option CommandType). any_of test (prepended x rest) ≡ true) (sym h) (rw fits refl)

any_of-offered_all :
    (session : Session) (test : CommandType → Bool) (c : CommandType) (cs : List CommandType)
    → Among c cs
    → offered session c ≡ some (shown c)
    → test (shown c) ≡ true
    → any_of test (offered_all session cs) ≡ true
unfolding offered_all
any_of-offered_all session test c [] among offer fits = absurd among
any_of-offered_all session test c (d ∷ cs) (inl same) offer fits =
    subst (λ (x : CommandType). any_of test (offered_all session (x ∷ cs)) ≡ true) same
      (any_of-prepended_first test (offered session c) (shown c) (offered_all session cs) offer
        fits)
any_of-offered_all session test c (d ∷ cs) (inr later) offer fits =
    any_of-prepended test (offered session d) (offered_all session cs)
      (any_of-offered_all session test c cs later offer fits)

any_of-offered_by :
    (session : Session) (test : CommandType → Bool) (c : CommandType) (p : Plugin)
    (plugins : List Plugin)
    → Among p plugins
    → p.enabled ≡ true
    → any_of test (offered_all session p.command_types) ≡ true
    → any_of test (offered_by session plugins) ≡ true
unfolding offered_by
any_of-offered_by session test c p [] among on fits = absurd among
any_of-offered_by session test c p (q ∷ plugins) (inl same) on fits =
    subst (λ (x : Plugin). any_of test (offered_by session (x ∷ plugins)) ≡ true) same
      (rw on (
        any_of-append_left test (offered_all session p.command_types) (offered_by session plugins)
          fits))
any_of-offered_by session test c p (q ∷ plugins) (inr later) on fits = elim (Bool-cases q.enabled) [
  | inr off ↦ rw off (any_of-offered_by session test c p plugins later on fits)
  | inl q_on ↦ rw q_on (
      any_of-append_right test (offered_all session q.command_types) (offered_by session plugins)
        (any_of-offered_by session test c p plugins later on fits))
]

catalog-IsPermitted :
    (m : Manager) (session : Session) (p : Plugin) (c : CommandType)
    → session.permissions ≡ permission_catalog (some m)
    → Among p m.plugins
    → Among c p.command_types
    → IsPermitted session c
catalog-IsPermitted m session p c all registered offers =
    elim (Bool-cases (str_eq (trim_space c.required_permission) "")) [
      | inl blank ↦ inl blank
      | inr named ↦ inr (rw all (permission_catalog-has m p c registered offers named))
    ]

-- A session with the permissions that PermissionCatalog lists is answered for every command type of
-- every plugin that the manager holds, if the manager and the plugin are enabled and the type is not
-- blank.
pub supports_command_type_complete :
    (m : Manager) (session : Session) (p : Plugin) (c : CommandType)
    → session.permissions ≡ permission_catalog (some m)
    → m.enabled ≡ true
    → Among p m.plugins
    → p.enabled ≡ true
    → Among c p.command_types
    → str_eq (trim_space c.type) "" ≡ false
    → supports_command_type (some m) (some session) c.type ≢ none
unfolding supports_command_type command_types_for
supports_command_type_complete m session p c all m_on registered p_on offers typed =
    let test : CommandType → Bool = λ spec. str_eq spec.type (trim_space c.type) in
    let permitted = catalog-IsPermitted m session p c all registered offers in
    rw (typed, m_on)
      (any_of-found test (offered_by session m.plugins) (
        any_of-offered_by session test c p m.plugins registered p_on (
          any_of-offered_all session test c p.command_types offers
            (permitted_shown session c typed permitted) (eq_refl (trim_space c.type)))))
