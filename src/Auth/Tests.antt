-- ===== src/Auth/Tests.antt =====
-- Sessions of server/internal/auth/service.go at given calls.
use xmdm.Common.{ℕ, zero, suc, ◌≤◌, ◌≡◌, refl, [], ◌∷◌, String, true, some, none, arith, Among}
use xmdm.Common.{eq_iff}
use xmdm.Auth.{
  Session, Service, has_permission, issue_session, login, admit, authenticate, logout, permit,
  authorize, do_login, do_logout, clock_at, serve_call, serve_calls, new_service, all_permissions,
}
use xmdm.Auth.Grants.{IsUndrawn, logout-ends, authenticate-refuses_for_good}
use xmdm.Auth.Issued.{login-lasts}
use xmdm.Auth.Soundness.{issued, authorize-granted}
use xmdm.Common.Maps.{lookup, put, remove}

abbrev ids : ℕ → String
ids zero = "first"
ids (suc n) = "later"

abbrev fresh : Service
fresh = new_service "admin" "word" 100 7

abbrev first_session : Session
first_session = record {
  id = "first";
  username = "admin";
  permissions = all_permissions;
  expires_at = 107;
}

IsUndrawn-first : IsUndrawn ids "first" 1
IsUndrawn-first zero h = absurd (omega (arith, h))
IsUndrawn-first (suc m) h = λ same. absurd (ground (arith, (eq_iff "later" "first").1 same))

abbrev signed_in : Service
signed_in = serve_calls ids (do_login "admin" "word" ∷ []) fresh

wrong_password : (login ids "admin" "guess" fresh).0 ≡ none
unfolding login
wrong_password = refl

login-first : (login ids "admin" "word" fresh).0 ≡ some first_session
unfolding login issue_session
login-first = refl

logout-ends_example :
    (authorize "first" "admin.read"
      (serve_calls ids (do_login "admin" "word" ∷ []) (logout "first" signed_in))).0
    ≡ none
unfolding serve_calls serve_call login issue_session
logout-ends_example =
    logout-ends ids "first" "admin.read" (do_login "admin" "word" ∷ []) signed_in IsUndrawn-first

abbrev late_service : Service
late_service = serve_calls ids (do_login "admin" "word" ∷ clock_at 108 ∷ []) fresh

authenticate-refuses_for_good_example :
    (authorize "first" "admin.read"
      (serve_calls ids (clock_at 50 ∷ []) (authenticate "first" late_service).1)).0
    ≡ none
unfolding serve_calls serve_call login issue_session authenticate admit lookup put remove
authenticate-refuses_for_good_example =
    authenticate-refuses_for_good ids "first" "admin.read" (clock_at 50 ∷ []) late_service refl
      IsUndrawn-first

login-lasts_example :
    (authorize "first" "devices.write" (
      serve_calls ids
        (clock_at 107 ∷ do_logout "later" ∷ do_login "admin" "word" ∷ [])
        (login ids "admin" "word" fresh).1)).0
    ≡ some first_session
unfolding has_permission
login-lasts_example =
    login-lasts ids "devices.write"
      (clock_at 107 ∷ do_logout "later" ∷ do_login "admin" "word" ∷ []) fresh IsUndrawn-first refl
      (omega arith, (λ same. absurd (ground (arith, (eq_iff "later" "first").1 same)), (tt, tt)))

authorize-granted_example :
    (first_session.id ≡ "first")
    × Among first_session (issued ids (do_login "admin" "word" ∷ []) fresh [])
    × (signed_in.now ≤ 107)
    × (has_permission all_permissions "devices.read" ≡ true)
unfolding serve_calls serve_call login issue_session authorize authenticate admit permit
    has_permission lookup put remove
authorize-granted_example =
    authorize-granted ids "admin" "word" 100 all_permissions 7 (do_login "admin" "word" ∷ [])
      "first" "devices.read" first_session refl
