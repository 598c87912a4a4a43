-- ===== src/Auth/Soundness.antt =====
-- Authorize of server/internal/auth/service.go shows nothing that the service did not issue.
use xmdm.Common.{
  ℕ, ◌≤◌, ◌≡◌, refl, ◌∙◌, ap, subst, inl, inr, List, [], ◌∷◌, ◌++◌, String, true, false, Option,
  none, some, str_eq, eq_iff, ltb, arith, All, Among, some_first, none_first, Bool-cases,
}
use xmdm.Common.Maps.{lookup, remove, put}
use xmdm.Database.Rows.{Time}
use xmdm.Auth.{
  Session, Service, has_permission, new_session, issue_session, login, admit, authenticate, logout,
  permit, authorize, Call, do_login, do_issue, do_authenticate, do_logout, do_authorize, clock_at,
  serve_call, serve_calls, new_service_with_permissions,
}

-- The sessions that a call makes: an answer to Login or to IssueSession.
abbrev pub made_by : Call → Option Session → List Session
made_by (do_login u p) (some x) = x ∷ []
made_by (do_issue u permissions) (some x) = x ∷ []
made_by _ _ = []

-- The sessions that the calls made, the last one first.
unfoldable pub issued : (ℕ → String) → List Call → Service → List Session → List Session
issued uuid [] s log = log
issued uuid (call ∷ calls) s log =
    let (answer, s') = serve_call uuid call s in issued uuid calls s' (made_by call answer ++ log)

-- An entry of the map is a session that was issued, under its id.
abbrev IsIssued : List Session → String × Session → Type 0
IsIssued log e = (e.1.id ≡ e.0) × Among e.1 log

wider :
    (x : Session) (log : List Session) (e : String × Session)
    → IsIssued log e
    → IsIssued (x ∷ log) e
wider x log e h = (h.0, inr h.1)

All-wider :
    (x : Session) (log : List Session) (m : List (String × Session))
    → All (IsIssued log) m
    → All (IsIssued (x ∷ log)) m
All-wider x log [] h = tt
All-wider x log (e ∷ m) h = (wider x log e h.0, All-wider x log m h.1)

All-remove :
    (P : String × Session → Type 0) (key : String) (m : List (String × Session))
    → All P m
    → All P (remove key m)
unfolding remove
All-remove P key [] h = tt
All-remove P key (e ∷ m) h = elim (Bool-cases (str_eq e.0 key)) [
  | inl gone ↦ rw gone (All-remove P key m h.1)
  | inr stays ↦ rw stays (h.0, All-remove P key m h.1)
]

All-admit :
    (P : String × Session → Type 0) (key : String) (o : Option Session) (s : Service)
    → All P s.sessions
    → All P (admit key o s).1.sessions
unfolding admit
All-admit P key none s h = h
All-admit P key (some x) s h = elim (Bool-cases (ltb x.expires_at s.now)) [
  | inl late ↦ rw late (All-remove P key s.sessions h)
  | inr in_time ↦ rw in_time h
]

IsIssued-issue :
    (uuid : ℕ → String) (log : List Session) (u : String) (permissions : List String) (s : Service)
    → All (IsIssued log) s.sessions
    → All
        (IsIssued (new_session uuid u permissions s ∷ log))
        (issue_session uuid u permissions s).1.sessions
unfolding issue_session put
IsIssued-issue uuid log u permissions s h =
    let x = new_session uuid u permissions s in
    ((refl, inl refl), All-wider x log _ (All-remove (IsIssued log) x.id s.sessions h))

IsIssued-call :
    (uuid : ℕ → String) (call : Call) (log : List Session) (s : Service)
    → All (IsIssued log) s.sessions
    → All
        (IsIssued (made_by call (serve_call uuid call s).0 ++ log))
        (serve_call uuid call s).1.sessions
unfolding serve_call login authenticate logout authorize
IsIssued-call uuid (do_login u p) log s h = elim (Bool-cases (str_eq u s.username)) [
  | inl user ↦ elim (Bool-cases (str_eq p s.password)) [
    | inl word ↦ rw (user, word) (IsIssued-issue uuid log u s.permissions s h)
    | inr no_word ↦ rw (user, no_word) h
  ]
  | inr no_user ↦ rw no_user h
]
IsIssued-call uuid (do_issue u permissions) log s h = IsIssued-issue uuid log u permissions s h
IsIssued-call uuid (do_authenticate key) log s h =
    All-admit (IsIssued log) key (lookup key s.sessions) s h
IsIssued-call uuid (do_logout key) log s h = All-remove (IsIssued log) key s.sessions h
IsIssued-call uuid (do_authorize key permission) log s h =
    All-admit (IsIssued log) key (lookup key s.sessions) s h
IsIssued-call uuid (clock_at t) log s h = h

IsIssued-calls :
    (uuid : ℕ → String) (calls : List Call) (log : List Session) (s : Service)
    → All (IsIssued log) s.sessions
    → All (IsIssued (issued uuid calls s log)) (serve_calls uuid calls s).sessions
unfolding issued serve_calls
IsIssued-calls uuid [] log s h = h
IsIssued-calls uuid (call ∷ calls) log s h =
    IsIssued-calls uuid calls _ _ (IsIssued-call uuid call log s h)

lookup-Among :
    (log : List Session) (key : String) (m : List (String × Session)) (x : Session)
    → All (IsIssued log) m
    → lookup key m ≡ some x
    → (x.id ≡ key) × Among x log
unfolding lookup
lookup-Among log key [] x h k = absurd (ground arith)
lookup-Among log key (e ∷ m) x h k = elim (Bool-cases (str_eq e.0 key)) [
  | inl same ↦
      let first : e.1 ≡ x = some_first (str_eq e.0 key) e.1 x (lookup key m) same k in
      subst (λ (y : Session). (y.id ≡ key) × Among y log) first
        (h.0.0 ∙ (eq_iff e.0 key).0 same, h.0.1)
  | inr other ↦
      lookup-Among log key m x h.1 (none_first (str_eq e.0 key) e.1 x (lookup key m) other k)
]

not_late→le : (a b : ℕ) → ltb a b ≡ false → b ≤ a
not_late→le a b h = ground arith

permitted :
    (id permission : String) (o : Option Session) (s : Service) (x : Session)
    → permit permission (admit id o s).0 ≡ some x
    → (o ≡ some x) × (s.now ≤ x.expires_at) × (has_permission x.permissions permission ≡ true)
unfolding permit admit
permitted id permission none s x h = absurd (ground arith)
permitted id permission (some y) s x h = elim (Bool-cases (ltb y.expires_at s.now)) [
  | inl late ↦ absurd (ground arith)
  | inr in_time ↦ elim (Bool-cases (has_permission y.permissions permission)) [
    | inl may ↦
        let same : y ≡ x = ground arith in
        (
          ap some same,
          subst (λ (z : Session). s.now ≤ z.expires_at) same
              (not_late→le y.expires_at s.now in_time),
          subst (λ (z : Session). has_permission z.permissions permission ≡ true) same may,
        )
    | inr may_not ↦ absurd (ground arith)
  ]
]

-- What Authorize shows after any calls to a new service was issued by one of them under the id that
-- is asked for, has not expired, and has the permission.
pub authorize-granted :
    (uuid : ℕ → String) (username password : String) (ttl : Time) (permissions : List String)
    (start : Time) (calls : List Call) (id permission : String) (x : Session)
    → (authorize id permission (
        serve_calls uuid calls
          (new_service_with_permissions username password ttl permissions start))).0
      ≡ some x
    → (x.id ≡ id)
      × Among x (
          issued uuid calls
            (new_service_with_permissions username password ttl permissions start)
            [])
      × ((serve_calls uuid calls
            (new_service_with_permissions username password ttl permissions start)).now
          ≤ x.expires_at)
      × (has_permission x.permissions permission ≡ true)
unfolding authorize authenticate
authorize-granted uuid username password ttl permissions start calls id permission x h =
    let s =
      serve_calls uuid calls
        (new_service_with_permissions username password ttl permissions start) in
    let shown = permitted id permission (lookup id s.sessions) s x h in
    let found = lookup-Among _ id s.sessions x (IsIssued-calls uuid calls [] _ tt) shown.0 in
    (found.0, found.1, shown.1, shown.2)
