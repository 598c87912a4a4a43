-- ===== src/Auth.antt =====
-- server/internal/auth/service.go and rbac.go: the sessions of the administrators and what they are
-- permitted. `uuid.NewString` is a parameter, by the number of the draw; a time is a number of
-- nanoseconds. The map of sessions is under a mutex, so that requests come one after the other.
pub mod Grants
pub mod Issued
pub mod Soundness
mod Tests
use xmdm.Common.{
  ℕ, suc, ◌+◌, List, [], ◌∷◌, String, Bool, true, false, not, Option, none, some, if◌then◌else◌,
  str_eq, ltb, any_of,
}
use xmdm.Common.Maps.{lookup, remove, put}
use xmdm.Database.Rows.{Time}

pub record Session : Type 0 where
  pub id : String
  pub username : String
  pub permissions : List String
  pub expires_at : Time

-- `now` is what the clock of the service reads.
pub record Service : Type 0 where
  pub username : String
  pub password : String
  pub session_ttl : Time
  pub permissions : List String
  pub sessions : List (String × Session)
  pub now : Time
  pub drawn : ℕ

-- `AllPermissions`
abbrev pub all_permissions : List String
all_permissions = "admin.read" ∷ "admin.write" ∷ "devices.read" ∷ "devices.write" ∷ []

-- `HasPermission`
unfoldable pub has_permission : List String → String → Bool
has_permission perms target = any_of (λ perm. str_eq perm target) perms

-- `NewServiceWithPermissions`
abbrev pub new_service_with_permissions : String → String → Time → List String → Time → Service
new_service_with_permissions username password session_ttl permissions now = record {
  username = username;
  password = password;
  session_ttl = session_ttl;
  permissions = permissions;
  sessions = [];
  now = now;
  drawn = 0;
}

-- `NewService`
abbrev pub new_service : String → String → Time → Time → Service
new_service username password session_ttl now =
    new_service_with_permissions username password session_ttl all_permissions now

module _ (uuid : ℕ → String) where
  -- The session that `IssueSession` makes.
  abbrev pub new_session : String → List String → Service → Session
  new_session username permissions s = record {
    id = uuid s.drawn;
    username = username;
    permissions = permissions;
    expires_at = s.now + s.session_ttl;
  }

  -- `IssueSession`
  unfoldable pub issue_session : String → List String → Service → Session × Service
  issue_session username permissions s =
      let session = new_session username permissions s in
      (session, record s { sessions = put session.id session s.sessions; drawn = suc s.drawn })

  -- `Login`; no session is `ErrInvalidCredentials`
  unfoldable pub login : String → String → Service → Option Session × Service
  unfolding issue_session
  login username password s =
      if not (str_eq username s.username)
      then (none, s)
      else if not (str_eq password s.password)
      then (none, s)
      else let (session, s') = issue_session username s.permissions s in (some session, s')

-- `Authenticate`, with what the map holds under the id
unfoldable pub admit : String → Option Session → Service → Option Session × Service
admit session_id none s = (none, s)
admit session_id (some session) s =
    if ltb session.expires_at s.now
    then (none, record s { sessions = remove session_id s.sessions })
    else (some session, s)

-- `Authenticate`
unfoldable pub authenticate : String → Service → Option Session × Service
unfolding admit
authenticate session_id s = admit session_id (lookup session_id s.sessions) s

-- `Logout`
unfoldable pub logout : String → Service → Service
logout session_id s = record s { sessions = remove session_id s.sessions }

-- `Authorize`, with what `Authenticate` answered
unfoldable pub permit : String → Option Session → Option Session
permit permission none = none
permit permission (some session) =
    if not (has_permission session.permissions permission) then none else some session

-- `Authorize`
unfoldable pub authorize : String → String → Service → Option Session × Service
unfolding authenticate permit
authorize session_id permission s =
    let (session, s') = authenticate session_id s in (permit permission session, s')

-- The calls of the service; `clock_at` is time that goes on, or `SetNow`.
pub data Call : Type 0 where
  do_login : String → String → Call
  do_issue : String → List String → Call
  do_authenticate do_logout : String → Call
  do_authorize : String → String → Call
  clock_at : Time → Call

-- One call: the session that it makes or shows, and the state that it leaves.
unfoldable pub serve_call : (ℕ → String) → Call → Service → Option Session × Service
unfolding login issue_session authenticate logout authorize
serve_call uuid (do_login username password) s = login uuid username password s
serve_call uuid (do_issue username permissions) s =
    let (session, s') = issue_session uuid username permissions s in (some session, s')
serve_call uuid (do_authenticate id) s = authenticate id s
serve_call uuid (do_logout id) s = (none, logout id s)
serve_call uuid (do_authorize id permission) s = authorize id permission s
serve_call uuid (clock_at t) s = (none, record s { now = t })

-- The calls one after the other.
unfoldable pub serve_calls : (ℕ → String) → List Call → Service → Service
unfolding serve_call
serve_calls uuid [] s = s
serve_calls uuid (call ∷ calls) s = serve_calls uuid calls (serve_call uuid call s).1
