-- ===== src/Auth/Grants.antt =====
-- What the sessions of server/internal/auth/service.go grant over any sequence of calls.
use xmdm.Common.{
  ℕ, ◌≤◌, ◌≡◌, ◌≢◌, refl, ◌∙◌, inl, inr, List, [], ◌∷◌, String, Option, none, some, str_eq, eq_iff,
  ltb, arith, Bool-cases,
}
use xmdm.Common.Maps.{
  lookup, remove, lookup-remove, lookup-remove_other, lookup-put_other, str_eq-ne,
}
use xmdm.Auth.{
  Session, Service, new_session, issue_session, login, admit, authenticate, logout, permit,
  authorize, Call, do_login, do_issue, do_authenticate, do_logout, do_authorize, clock_at,
  serve_call, serve_calls,
}

-- No draw from the `n`-th on gives the id.
abbrev pub IsUndrawn : (ℕ → String) → String → ℕ → Type 0
IsUndrawn uuid id n = (m : ℕ) → n ≤ m → uuid m ≢ id

remove_absent :
    (id key : String) (m : List (String × Session))
    → lookup id m ≡ none
    → lookup id (remove key m) ≡ none
remove_absent id key m h = elim (Bool-cases (str_eq id key)) [
  | inl same ↦ rw ((eq_iff id key).0 same) (lookup-remove key m)
  | inr other ↦ lookup-remove_other id key m other ∙ h
]

absent_admit :
    (id key : String) (o : Option Session) (s : Service)
    → lookup id s.sessions ≡ none
    → lookup id (admit key o s).1.sessions ≡ none
unfolding admit
absent_admit id key none s h = h
absent_admit id key (some x) s h = elim (Bool-cases (ltb x.expires_at s.now)) [
  | inl late ↦ rw late (remove_absent id key s.sessions h)
  | inr in_time ↦ rw in_time h
]

same_drawn : (key : String) (o : Option Session) (s : Service) → (admit key o s).1.drawn ≡ s.drawn
unfolding admit
same_drawn key none s = refl
same_drawn key (some x) s = elim (Bool-cases (ltb x.expires_at s.now)) [
  | inl late ↦ rw late refl
  | inr in_time ↦ rw in_time refl
]

module _ (uuid : ℕ → String) where
  absent_issue :
      (id username : String) (permissions : List String) (s : Service)
      → uuid s.drawn ≢ id
      → lookup id s.sessions ≡ none
      → lookup id (issue_session uuid username permissions s).1.sessions ≡ none
  unfolding issue_session
  absent_issue id username permissions s new' h =
      let apart = str_eq-ne (uuid s.drawn) id new' in
      lookup-put_other id (uuid s.drawn) (new_session uuid username permissions s) s.sessions
        apart.1 apart.0
      ∙ h

  -- A call that does not draw the id leaves it absent.
  absent_call :
      (call : Call) (id : String) (s : Service)
      → uuid s.drawn ≢ id
      → lookup id s.sessions ≡ none
      → lookup id (serve_call uuid call s).1.sessions ≡ none
  unfolding serve_call login authenticate logout authorize
  absent_call (do_login u p) id s new' h = elim (Bool-cases (str_eq u s.username)) [
    | inl user ↦ elim (Bool-cases (str_eq p s.password)) [
      | inl word ↦ rw (user, word) (absent_issue id u s.permissions s new' h)
      | inr no_word ↦ rw (user, no_word) h
    ]
    | inr no_user ↦ rw no_user h
  ]
  absent_call (do_issue u permissions) id s new' h = absent_issue id u permissions s new' h
  absent_call (do_authenticate key) id s new' h = absent_admit id key (lookup key s.sessions) s h
  absent_call (do_logout key) id s new' h = remove_absent id key s.sessions h
  absent_call (do_authorize key permission) id s new' h =
      absent_admit id key (lookup key s.sessions) s h
  absent_call (clock_at t) id s new' h = h

  pub drawn_call : (call : Call) (s : Service) → s.drawn ≤ (serve_call uuid call s).1.drawn
  unfolding serve_call login issue_session authenticate logout authorize
  drawn_call (do_login u p) s = elim (Bool-cases (str_eq u s.username)) [
    | inl user ↦ elim (Bool-cases (str_eq p s.password)) [
      | inl word ↦ rw (user, word) (omega arith)
      | inr no_word ↦ rw (user, no_word) (omega arith)
    ]
    | inr no_user ↦ rw no_user (omega arith)
  ]
  drawn_call (do_issue u permissions) s = omega arith
  drawn_call (do_authenticate key) s = rw (same_drawn key (lookup key s.sessions) s) (omega arith)
  drawn_call (do_logout key) s = omega arith
  drawn_call (do_authorize key permission) s =
      rw (same_drawn key (lookup key s.sessions) s) (omega arith)
  drawn_call (clock_at t) s = omega arith

  absent_calls :
      (calls : List Call) (id : String) (s : Service)
      → IsUndrawn uuid id s.drawn
      → lookup id s.sessions ≡ none
      → lookup id (serve_calls uuid calls s).sessions ≡ none
  unfolding serve_calls
  absent_calls [] id s new' h = h
  absent_calls (call ∷ calls) id s new' h =
      absent_calls calls id (serve_call uuid call s).1
        (λ m above. new' m (omega (arith, drawn_call call s, above)))
        (absent_call call id s (new' s.drawn (omega arith)) h)

  refused :
      (id permission : String) (s : Service)
      → lookup id s.sessions ≡ none
      → (authorize id permission s).0 ≡ none
  unfolding authorize authenticate admit permit
  refused id permission s h = rw h refl

  -- After Logout of an id, and any calls that do not draw the id again, Authorize refuses it.
  pub logout-ends :
      (id permission : String) (calls : List Call) (s : Service)
      → IsUndrawn uuid id s.drawn
      → (authorize id permission (serve_calls uuid calls (logout id s))).0 ≡ none
  unfolding logout
  logout-ends id permission calls s new' =
      refused id permission _
        (absent_calls calls id (logout id s) new' (lookup-remove id s.sessions))

  absent_refused :
      (id : String) (o : Option Session) (s : Service)
      → lookup id s.sessions ≡ o
      → (admit id o s).0 ≡ none
      → lookup id (admit id o s).1.sessions ≡ none
  unfolding admit
  absent_refused id none s e h = e
  absent_refused id (some x) s e h = elim (Bool-cases (ltb x.expires_at s.now)) [
    | inl late ↦ rw late (lookup-remove id s.sessions)
    | inr in_time ↦ absurd (ground (arith, in_time, h))
  ]

  -- An id that Authenticate refuses, because it is unknown or its session has expired, is refused by
  -- Authorize after any calls that do not draw the id again, even if the clock is set back.
  pub authenticate-refuses_for_good :
      (id permission : String) (calls : List Call) (s : Service)
      → (authenticate id s).0 ≡ none
      → IsUndrawn uuid id s.drawn
      → (authorize id permission (serve_calls uuid calls (authenticate id s).1)).0 ≡ none
  unfolding authenticate
  authenticate-refuses_for_good id permission calls s h new' = refused id permission _ (
      absent_calls calls id (authenticate id s).1
        (λ m above. new' m (omega (arith, same_drawn id (lookup id s.sessions) s, above)))
        (absent_refused id (lookup id s.sessions) s refl h))
