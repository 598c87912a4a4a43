-- ===== src/Enrollment/Binding.antt =====
-- `BindDevice` of server/internal/enrollment/postgres/store.go: what it leaves when it fails and
-- what it changes when it does not.
use xmdm.Common.{
  ◌≡◌, refl, ap, ◌∙◌, List, [], ◌∷◌, String, Bool, true, false, ◌||◌, Option, some, if◌then◌else◌,
  ltb, Bool-cases, inl, inr, find_if, str_eq, arith,
}
use xmdm.Common.Json.{Json}
use xmdm.Database.Rows.{Time, Db, DeviceRow, pending, enrolled, TokenRow, issued, consumed}
use xmdm.Database.{
  Error, token_consumed, upsert, disable, ok, err, Env, Sys, pure, raise, ◌>>=◌, ◌>>◌, catch, step,
  attempt, calm, begin_tx, tx_query, tx_exec, commit, now, advance, require, found, new_secret,
  provision,
}
use xmdm.Database.Keeps.{
  Keeps, keeps_rules, Keeps-bind, Keeps-tx_exec, Keeps-commit, Keeps-raise, Keeps-pure,
  Keeps-require, Keeps-now, Keeps-new_secret, Keeps-begin_tx,
}
use xmdm.Database.Atomic.{
  IsAtomic, IsQuiet-tx_exec, IsQuiet-found, IsQuiet-provision, IsAtomic-bind,
}
use xmdm.Database.Fails.{
  FailsWith, FailsWith-of_Keeps, FailsWith-of_IsAtomic, FailsWith-if, FailsWith-bind,
}
use xmdm.Database.Query.{find_if-update_where, find_if_and, find_if_passes}
use xmdm.Enrollment.{
  BoundDevice, is_pending, of_hash, of_device, load_token_by_hash, load_device_status, update_token,
  expired_token, consumed_token, save_token, expire_lapsed, inspect_token, enrolled_device,
  update_device, is_pending_device, commit_binding, enrol, bind_loaded, bind_device,
}
use xmdm.Enrollment.Inspection.{inspect_token-inspection, find_if-update_token}

commit_binding_attempt :
    {A : Type 0} (env : Env) (device : String) (act : Sys → Unit {0} × Sys) (a : A)
    (faults : List Bool)
    → IsAtomic (
        catch (attempt act faults) (λ e. do provision env (disable device); raise e) >>= λ _.
        pure a)
unfolding attempt ◌>>=◌ catch pure raise provision
commit_binding_attempt env device act a [] = record { at = λ s e h. absurd (ground arith) }
commit_binding_attempt env device act a (true ∷ rest) = record { at = λ s e h. ground arith }
commit_binding_attempt env device act a (false ∷ rest) = record {
  at = λ s e h. absurd (ground arith);
}

IsAtomic-commit_binding :
    (env : Env) (device : String) (bound : BoundDevice)
    → IsAtomic (commit_binding env device >>= λ _. pure bound)
unfolding commit_binding commit step ◌>>=◌ catch
IsAtomic-commit_binding env device bound = record {
  at = λ s.
      (commit_binding_attempt env device (λ s'. (tt, record s' { db = s'.work })) bound s.faults).at
        s;
}

IsAtomic-enrol :
    (env : Env) (tenant device : String) (extras : Option Json) (secret : String) (t : Time)
    (token : TokenRow)
    → IsAtomic (enrol env tenant device extras secret t token)
unfolding enrol
IsAtomic-enrol env tenant device extras secret t token =
    IsAtomic-bind _ _ (IsQuiet-tx_exec _) λ row. IsAtomic-bind _ _ (IsQuiet-found _ _) λ bound.
      IsAtomic-bind _ _ (IsQuiet-tx_exec _)
        λ _. IsAtomic-bind _ _ (IsQuiet-provision env _) λ _. IsAtomic-commit_binding env device _

module _ (old : List DeviceRow) where
  abbrev Same : Db → Type 0
  Same db = db.devices ≡ old

  save_token-Same : (token : TokenRow) → Keeps Same (save_token token)
  unfolding save_token
  save_token-Same token =
      Keeps-bind _ _ (Keeps-tx_exec _ λ db h. h)
        λ _. Keeps-bind _ _ Keeps-commit λ _. Keeps-pure token

  expire_lapsed-Same :
      (t : Time) (token : TokenRow) → Keeps Same (expire_lapsed {A = BoundDevice} t token)
  unfolding expire_lapsed
  expire_lapsed-Same t token =
      Keeps-bind _ _ (save_token-Same (expired_token t token)) λ _. Keeps-raise _

  load_token_by_hash-Same : (tenant hash : String) → Keeps Same (load_token_by_hash tenant hash)
  unfolding load_token_by_hash
  load_token_by_hash-Same tenant hash = search keeps_rules

  load_device_status-Same : (tenant device : String) → Keeps Same (load_device_status tenant device)
  unfolding load_device_status
  load_device_status-Same tenant device = search keeps_rules

  bind_loaded-FailsWith :
      (env : Env) (tenant device : String) (extras : Option Json) (secret : String) (t : Time)
      (row : TokenRow)
      → FailsWith Same (bind_loaded env tenant device extras secret t row)
  unfolding bind_loaded
  bind_loaded-FailsWith env tenant device extras secret t row =
      FailsWith-if _ _ _ (FailsWith-of_Keeps _ (expire_lapsed-Same t row)) (
        FailsWith-if _ _ _
          (FailsWith-of_IsAtomic _ (IsAtomic-enrol env tenant device extras secret t row))
          (FailsWith-of_Keeps _ (Keeps-raise _)))

  bind_device-FailsWith :
      (env : Env) (tenant token device : String) (extras : Option Json)
      → FailsWith Same (bind_device env tenant token device extras)
  unfolding bind_device
  bind_device-FailsWith env tenant token device extras = FailsWith-bind _ _ (Keeps-require _ _) λ _.
      FailsWith-bind _ _ Keeps-now λ t. FailsWith-bind _ _ (Keeps-new_secret env) λ secret.
        FailsWith-bind _ _ Keeps-begin_tx λ _.
          FailsWith-bind _ _ (load_token_by_hash-Same tenant _) λ row.
            FailsWith-bind _ _ (load_device_status-Same tenant device) λ status.
              FailsWith-bind _ _ (Keeps-require _ _)
                λ _. bind_loaded-FailsWith env tenant device extras secret t row

-- A `BindDevice` that fails, for whatever reason and whichever statement failed, from a state where
-- no transaction is open, leaves the committed table of devices as it was.
pub bind_device-keeps_devices :
    (env : Env) (tenant token device : String) (extras : Option Json) (s : Sys) (e : Error)
    → s.work ≡ s.db
    → (bind_device env tenant token device extras s).0 ≡ err e
    → (bind_device env tenant token device extras s).1.db.devices ≡ s.db.devices
bind_device-keeps_devices env tenant token device extras s e closed failed =
    (bind_device-FailsWith s.db.devices env tenant token device extras).at s e
      (record { at_db = refl; at_work = ap (λ d. d.devices) closed }) failed

-- The tables that a binding leaves.
abbrev bound_db : String → String → String → Option Json → Time → TokenRow → Db → Db
bound_db tenant device hash extras t row d =
    (update_token (consumed_token t row) (update_device tenant device hash extras t d).1).1

bind_device_run :
    (env : Env) (tenant token device : String) (extras : Option Json) (d : Db) (t : Time)
    (row : TokenRow) (target : DeviceRow)
    → (str_eq tenant "" || str_eq token "" || str_eq device "") ≡ false
    → find_if (of_hash tenant (env.hash_token token)) d.tokens ≡ some row
    → row.status ≡ issued
    → ltb t row.expires_at ≡ true
    → find_if (of_device tenant device) d.devices ≡ some target
    → target.status ≡ pending
    → bind_device env tenant token device extras (calm d t) ≡ (
      ok (record { device_id = target.id; status = enrolled; device_secret = env.secret 0 }),
      record (calm (bound_db tenant device (env.hash_token (env.secret 0)) extras t row d) t) {
        drawn = 1;
        provisioned = if env.has_provisioner then upsert device (env.secret 0) ∷ [] else [];
      },
    )
unfolding bind_device ◌>>=◌ now advance begin_tx commit require found load_token_by_hash
    load_device_status tx_query step attempt bind_loaded enrol new_secret tx_exec pure raise
    commit_binding catch provision
bind_device_run env tenant token device extras d t row target valid here fresh live there waits =
    let pending_target : find_if (is_pending_device tenant device) d.devices ≡ some target =
      find_if_and (of_device tenant device) (λ x. is_pending x.status) d.devices target there
        (rw waits refl) in
    elim (Bool-cases env.has_provisioner) [
      | inl yes' ↦ rw (valid, here, there, waits, fresh, live, pending_target, yes') refl
      | inr no' ↦ rw (valid, here, there, waits, fresh, live, pending_target, no') refl
    ]

-- A binding with a tenant, a token that finds an issued row that is not due and a pending device,
-- on a system where no statement fails and the clock stands still: the device is returned enrolled,
-- with the secret drawn for it; the first device of that tenant and id has become enrolled, with
-- the hash of the secret and the extras; the broker is told the secret, where a provisioner is set;
-- and an inspection of the tables that this leaves, by the same tenant and token at whatever time,
-- answers that the token is consumed.
pub bind_device-binds :
    (env : Env) (tenant token device : String) (extras : Option Json) (d : Db) (t : Time)
    (row : TokenRow) (target : DeviceRow) (again : Bool) (u : Time)
    → (str_eq tenant "" || str_eq token "" || str_eq device "") ≡ false
    → find_if (of_hash tenant (env.hash_token token)) d.tokens ≡ some row
    → row.status ≡ issued
    → ltb t row.expires_at ≡ true
    → find_if (of_device tenant device) d.devices ≡ some target
    → target.status ≡ pending
    → ((bind_device env tenant token device extras (calm d t)).0
        ≡ ok (record { device_id = target.id; status = enrolled; device_secret = env.secret 0 }))
      × (find_if
            (of_device tenant device)
            (bind_device env tenant token device extras (calm d t)).1.db.devices
          ≡ some (enrolled_device (env.hash_token (env.secret 0)) extras t target))
      × ((bind_device env tenant token device extras (calm d t)).1.provisioned
          ≡ (if env.has_provisioner then upsert device (env.secret 0) ∷ [] else []))
      × ((inspect_token env tenant token again
            (calm (bind_device env tenant token device extras (calm d t)).1.db u)).0
          ≡ err token_consumed)
bind_device-binds env tenant token device extras d t row target again u valid here fresh live there
      waits =
    let run =
      bind_device_run env tenant token device extras d t row target valid here fresh live there
        waits in
    let hash = env.hash_token (env.secret 0) in
    let after = bound_db tenant device hash extras t row d in
    let enrols =
      find_if-update_where (of_device tenant device) (is_pending_device tenant device)
        (enrolled_device hash extras t) d.devices target (λ x. refl)
        (rw (find_if_passes (of_device tenant device) d.devices target there, waits) refl) there in
    let later =
      find_if-update_token tenant (env.hash_token token) d row consumed (some t) row.revoked_at t
        here in
    rw run (
      refl,
      enrols,
      refl,
      (inspect_token-inspection env tenant token again after u (ground arith)).0 ∙ rw later refl,
    )
