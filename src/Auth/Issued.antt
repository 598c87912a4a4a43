-- ===== src/Auth/Issued.antt =====
-- Which sessions of server/internal/auth/service.go are honoured, and for how long.
use xmdm.Common.{
  some_inj, ℕ, suc, ◌+◌, ◌≤◌, ◌≡◌, ◌≢◌, refl, sym, ◌∙◌, ap, inl, inr, List, [], ◌∷◌, String, true,
  false, Option, none, some, ◌<◌, ltb→lt, str_eq, eq_iff, eq_refl, ltb, arith, All, Bool-cases,
}
use xmdm.Common.Maps.{lookup, lookup-remove_other, lookup-put, lookup-put_other, str_eq-ne}
use xmdm.Database.Rows.{Time}
use xmdm.Auth.{
  Session, Service, has_permission, new_session, issue_session, login, admit, authenticate, logout,
  permit, authorize, Call, do_login, do_issue, do_authenticate, do_logout, do_authorize, clock_at,
  serve_call, serve_calls,
}
use xmdm.Auth.Grants.{IsUndrawn, drawn_call}

-- The call is no Logout of the id and does not move the clock past the deadline.
abbrev pub Spares : String → Time → Call → Type 0
Spares id deadline (do_logout key) = key ≢ id
Spares id deadline (clock_at t) = t ≤ deadline
Spares id deadline _ = Unit

-- The session stands under its id, and the clock has not passed its end.
record Holds (x : Session) (s : Service) : Type 0 where
  held : lookup x.id s.sessions ≡ some x
  in_time : s.now ≤ x.expires_at

not_late : (a b : ℕ) → b ≤ a → ltb a b ≡ false
not_late a b h = ground arith

too_late :
    (x y : Session) (now : Time) → y ≡ x → ltb y.expires_at now ≡ true → now ≤ x.expires_at → ⊥
too_late x y now same late in_time =
    let after : y.expires_at < now = ltb→lt y.expires_at now late in
    let same_end : y.expires_at ≡ x.expires_at = ap (λ (z : Session). z.expires_at) same in
    omega (arith, after, same_end, in_time)

Holds-admit :
    (x : Session) (key : String) (o : Option Session) (s : Service)
    → lookup key s.sessions ≡ o
    → Holds x s
    → Holds x (admit key o s).1
unfolding admit
Holds-admit x key none s e h = h
Holds-admit x key (some y) s e h = elim (Bool-cases (ltb y.expires_at s.now)) [
  | inr in_time ↦ rw in_time h
  | inl late ↦ elim (Bool-cases (str_eq x.id key)) [
    | inl same ↦
        let found : some y ≡ some x =
          sym e ∙ ap (λ k. lookup k s.sessions) (sym ((eq_iff x.id key).0 same)) ∙ h.held in
        absurd (too_late x y s.now (some_inj y x found) late h.in_time)
    | inr other ↦ rw late (record {
      held = lookup-remove_other x.id key s.sessions other ∙ h.held;
      in_time = h.in_time;
    })
  ]
]

module _ (uuid : ℕ → String) where
  Holds-issue :
      (x : Session) (username : String) (permissions : List String) (s : Service)
      → uuid s.drawn ≢ x.id
      → Holds x s
      → Holds x (issue_session uuid username permissions s).1
  unfolding issue_session
  Holds-issue x username permissions s new' h =
      let apart = str_eq-ne (uuid s.drawn) x.id new' in
      record {
        held =
            lookup-put_other x.id (uuid s.drawn) (new_session uuid username permissions s)
              s.sessions apart.1 apart.0
            ∙ h.held;
        in_time = h.in_time;
      }

  Holds-call :
      (call : Call) (x : Session) (s : Service)
      → uuid s.drawn ≢ x.id
      → Spares x.id x.expires_at call
      → Holds x s
      → Holds x (serve_call uuid call s).1
  unfolding serve_call login authenticate logout authorize
  Holds-call (do_login u p) x s new' k h = elim (Bool-cases (str_eq u s.username)) [
    | inl user ↦ elim (Bool-cases (str_eq p s.password)) [
      | inl word ↦ rw (user, word) (Holds-issue x u s.permissions s new' h)
      | inr no_word ↦ rw (user, no_word) h
    ]
    | inr no_user ↦ rw no_user h
  ]
  Holds-call (do_issue u permissions) x s new' k h = Holds-issue x u permissions s new' h
  Holds-call (do_authenticate key) x s new' k h = Holds-admit x key (lookup key s.sessions) s refl h
  Holds-call (do_logout key) x s new' k h = record {
    held = lookup-remove_other x.id key s.sessions (str_eq-ne key x.id k).1 ∙ h.held;
    in_time = h.in_time;
  }
  Holds-call (do_authorize key permission) x s new' k h =
      Holds-admit x key (lookup key s.sessions) s refl h
  Holds-call (clock_at t) x s new' k h = record { held = h.held; in_time = k }

  Holds-calls :
      (calls : List Call) (x : Session) (s : Service)
      → IsUndrawn uuid x.id s.drawn
      → All (Spares x.id x.expires_at) calls
      → Holds x s
      → Holds x (serve_calls uuid calls s)
  unfolding serve_calls
  Holds-calls [] x s new' k h = h
  Holds-calls (call ∷ calls) x s new' k h =
      Holds-calls calls x (serve_call uuid call s).1
        (λ m above. new' m (omega (arith, drawn_call uuid call s, above))) k.1
        (Holds-call call x s (new' s.drawn (omega arith)) k.0 h)

  Holds-authorize :
      (x : Session) (permission : String) (s : Service)
      → Holds x s
      → has_permission x.permissions permission ≡ true
      → (authorize x.id permission s).0 ≡ some x
  unfolding authorize authenticate admit permit
  Holds-authorize x permission s h k = rw (h.held, not_late x.expires_at s.now h.in_time, k) refl

  -- The right credentials make a session that Authorize shows, for each permission of the service,
  -- after any calls that neither log it out nor move the clock past its end nor draw its id again.
  pub login-lasts :
      (permission : String) (calls : List Call) (s : Service)
      → IsUndrawn uuid (uuid s.drawn) (suc s.drawn)
      → has_permission s.permissions permission ≡ true
      → All (Spares (uuid s.drawn) (s.now + s.session_ttl)) calls
      → (authorize
          (uuid s.drawn)
          permission
          (serve_calls uuid calls (login uuid s.username s.password s).1)).0
        ≡ some (new_session uuid s.username s.permissions s)
  unfolding login issue_session
  login-lasts permission calls s new' k spared =
      let x : Session = new_session uuid s.username s.permissions s in
      rw (eq_refl s.username, eq_refl s.password)
        (Holds-authorize x permission _
          (Holds-calls calls x (issue_session uuid s.username s.permissions s).1 new' spared
            (record { held = lookup-put x.id x s.sessions; in_time = omega arith }))
          k)
