-- ===== src/Devices/Enrolled.antt =====
-- `BindDevice` of server/internal/enrollment/postgres/store.go and `Authenticate` of
-- server/internal/device/postgres/store.go fit together.
use xmdm.Common.{
  ◌≡◌, refl, String, true, false, ◌||◌, Option, some, ltb, find_if, str_eq, eq_refl, arith,
}
use xmdm.Common.Json.{Json}
use xmdm.Database.Rows.{Time, Db, DeviceRow, pending, TokenRow, issued}
use xmdm.Database.{ok, Env, calm, ◌>>=◌, require, query, step, attempt, found, pure}
use xmdm.Database.Query.{find_if_and}
use xmdm.Enrollment.{of_hash, of_device, enrolled_device, bind_device}
use xmdm.Enrollment.Binding.{bind_device-binds}
use xmdm.Devices.{view, of_key, can_authenticate, authenticate}

authenticate_lem :
    (env : Env) (tenant id secret : String) (d : Db) (u : Time) (row : DeviceRow)
    → (str_eq tenant "" || str_eq id "" || str_eq secret "") ≡ false
    → find_if (of_key tenant id) d.devices ≡ some row
    → row.secret_hash ≡ env.hash_token secret
    → can_authenticate row.status ≡ true
    → (authenticate env tenant id secret (calm d u)).0 ≡ ok (view d row)
unfolding authenticate ◌>>=◌ require query step attempt found pure
authenticate_lem env tenant id secret d u row given there hash may =
    let opens =
      find_if_and (of_key tenant id) (λ x. str_eq x.secret_hash (env.hash_token secret)) d.devices
        row there (rw hash (eq_refl (env.hash_token secret))) in
    rw (given, opens, may) refl

-- A device that was just bound is let in with the secret that it was given: with a tenant, a token
-- that finds an issued row that is not due, a pending device, and a drawn secret that is not empty,
-- on a system where no statement fails and the clock stands still during an operation,
-- `Authenticate` on the tables that the binding leaves returns the enrolled device, at whatever
-- time.
pub bind_device-admits :
    (env : Env) (tenant token device : String) (extras : Option Json) (d : Db) (t : Time)
    (row : TokenRow) (target : DeviceRow) (u : Time)
    → (str_eq tenant "" || str_eq token "" || str_eq device "") ≡ false
    → str_eq (env.secret 0) "" ≡ false
    → find_if (of_hash tenant (env.hash_token token)) d.tokens ≡ some row
    → row.status ≡ issued
    → ltb t row.expires_at ≡ true
    → find_if (of_device tenant device) d.devices ≡ some target
    → target.status ≡ pending
    → (authenticate env tenant device
        (env.secret 0)
        (calm (bind_device env tenant token device extras (calm d t)).1.db u)).0
      ≡ ok (
          view
            (bind_device env tenant token device extras (calm d t)).1.db
            (enrolled_device (env.hash_token (env.secret 0)) extras t target))
unfolding can_authenticate
bind_device-admits env tenant token device extras d t row target u valid drawn here fresh live there
      waits =
    let bound =
      bind_device-binds env tenant token device extras d t row target false u valid here fresh live
        there waits in
    authenticate_lem env tenant device (env.secret 0) _ u _ (ground (arith, valid, drawn)) bound.1
      refl refl
