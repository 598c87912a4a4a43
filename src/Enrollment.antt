-- ===== src/Enrollment.antt =====
-- server/internal/enrollment/postgres/store.go: the tokens that enrol devices, and the binding of a
-- device to its token. The secrets and ids are the environment's, and so is `HashToken`. The extras
-- of a device are JSON already, so that their marshalling does not fail. The default of created_at
-- is one more reading of the clock.
pub mod Inspection
pub mod Binding
mod Tests
use xmdm.Common.{
  ℕ, List, [], ◌∷◌, ◌++◌, String, Bool, true, false, not, ◌&&◌, ◌||◌, Option, none, some,
  if◌then◌else◌, ltb, leb, ◌==◌, str_eq, keep_if, find_if,
}
use xmdm.Common.Int.{pos}
use xmdm.Common.Json.{Json}
use xmdm.Pagination.{Params, default_limit, normalize}
use xmdm.Database.Rows.{
  Time, Db, DeviceRow, DeviceStatus, pending, enrolled, TokenRow, TokenStatus, issued, consumed,
  expired, revoked,
}
use xmdm.Database.{
  Error, not_found, invalid_input, device_conflict, token_not_found, token_consumed, token_expired,
  token_revoked, token_conflict, ProvisionCall, upsert, disable, Env, Store, pure, raise, ◌>>=◌,
  ◌>>◌, catch, query, exec, begin_tx, tx_query, tx_exec, commit, now, new_uuid, new_secret,
  provision, require, found,
}
use xmdm.Database.Query.{order_by, slice, update_where, count_where, returning, earlier}

pub record IssuedToken : Type 0 where
  pub token : TokenRow
  pub secret : String

pub record BoundDevice : Type 0 where
  pub device_id : String
  pub status : DeviceStatus
  pub device_secret : String

abbrev pub is_issued : TokenStatus → Bool
is_issued issued = true
is_issued _ = false

abbrev pub is_pending : DeviceStatus → Bool
is_pending pending = true
is_pending _ = false

-- The error for a token that is not issued.
abbrev pub refusal : TokenStatus → Error
refusal consumed = token_consumed
refusal expired = token_expired
refusal revoked = token_revoked
refusal _ = token_conflict

-- `token.Status == TokenStatusIssued && !token.ExpiresAt.After(now)`
abbrev pub is_lapsed : Time → TokenRow → Bool
is_lapsed t token = is_issued token.status && not (ltb t token.expires_at)

abbrev pub of_hash : String → String → TokenRow → Bool
of_hash tenant hash token = str_eq token.tenant_id tenant && str_eq token.token_hash hash

abbrev pub of_id : String → String → TokenRow → Bool
of_id tenant id token = str_eq token.tenant_id tenant && str_eq token.id id

-- `loadTokenByHashForUpdate`
unfoldable pub load_token_by_hash : String → String → Store TokenRow
load_token_by_hash tenant hash = do
  row ← tx_query (λ db. find_if (of_hash tenant hash) db.tokens)
  found row token_not_found

-- `loadTokenByIDForUpdate`
unfoldable pub load_token_by_id : String → String → Store TokenRow
load_token_by_id tenant id = do
  row ← tx_query (λ db. find_if (of_id tenant id) db.tokens)
  found row token_not_found

abbrev pub of_device : String → String → DeviceRow → Bool
of_device tenant id device = str_eq device.tenant_id tenant && str_eq device.id id

-- `loadDeviceStatusByTenantAndDeviceIDForUpdate`
unfoldable pub load_device_status : String → String → Store DeviceStatus
load_device_status tenant id = do
  row ← tx_query (λ db. find_if (of_device tenant id) db.devices)
  device ← found row not_found
  pure device.status

-- `updateToken`: the columns that its UPDATE sets, on the rows with the token's tenant and id
abbrev pub written_token : TokenRow → TokenRow → TokenRow
written_token token row = record row {
  status = token.status;
  consumed_at = token.consumed_at;
  revoked_at = token.revoked_at;
  updated_at = token.updated_at;
}

abbrev pub update_token : TokenRow → Db → Unit {0} × Db
update_token token db = (
  tt,
  record db {
    tokens = update_where (of_id token.tenant_id token.id) (written_token token) db.tokens;
  },
)

abbrev pub expired_token : Time → TokenRow → TokenRow
expired_token t token = record token { status = expired; updated_at = t }

abbrev pub consumed_token : Time → TokenRow → TokenRow
consumed_token t token = record token { status = consumed; consumed_at = some t; updated_at = t }

abbrev pub revoked_token : Time → TokenRow → TokenRow
revoked_token t token = record token { status = revoked; revoked_at = some t; updated_at = t }

-- A change of a token, committed.
unfoldable pub save_token : TokenRow → Store TokenRow
save_token token = do tx_exec (update_token token); commit; pure token

-- A token that lapsed is marked so before the error.
unfoldable pub expire_lapsed : {A : Type 0} → Time → TokenRow → Store A
expire_lapsed t token = do save_token (expired_token t token); raise token_expired

-- The switch of `inspectToken`
unfoldable pub inspected : Bool → Time → TokenRow → Store TokenRow
inspected consume t token =
    if is_issued token.status
    then (if consume then save_token (consumed_token t token) else (do commit; pure token))
    else raise (refusal token.status)

abbrev pub enrolled_device : String → Option Json → Time → DeviceRow → DeviceRow
enrolled_device hash extras t device = record device {
  secret_hash = hash;
  status = enrolled;
  bootstrap_extras = extras;
  updated_at = t;
}

abbrev pub is_pending_device : String → String → DeviceRow → Bool
is_pending_device tenant id device = of_device tenant id device && is_pending device.status

abbrev pub update_device :
    String → String → String → Option Json → Time → Db → Option DeviceRow × Db
update_device tenant id hash extras t db =
    let change = enrolled_device hash extras t in
    let fits = is_pending_device tenant id in
    (returning fits change db.devices, record db { devices = update_where fits change db.devices })

module _ (env : Env) where
  abbrev pub new_token : String → String → String → Time → Time → Time → TokenRow
  new_token id tenant secret expires_at t created = record {
    id = id;
    tenant_id = tenant;
    token_hash = env.hash_token secret;
    status = issued;
    expires_at = expires_at;
    consumed_at = none;
    revoked_at = none;
    created_at = created;
    updated_at = t;
  }

  abbrev pub insert_token : TokenRow → Db → TokenRow × Db
  insert_token token db = (token, record db { tokens = db.tokens ++ token ∷ [] })

  -- `IssueToken`
  unfoldable pub issue_token : String → Time → Store IssuedToken
  issue_token tenant expires_at = do
    require (not (str_eq tenant "" || expires_at == 0)) invalid_input
    t ← now
    require (ltb t expires_at) invalid_input
    secret ← new_secret env
    id ← new_uuid env
    created ← now
    token ← exec (insert_token (new_token id tenant secret expires_at t created))
    pure (record { token = token; secret = secret })

  -- `inspectToken`
  unfoldable pub inspect_token : String → String → Bool → Store TokenRow
  inspect_token tenant secret consume = do
    require (not (str_eq tenant "" || str_eq secret "")) invalid_input
    t ← now
    begin_tx
    token ← load_token_by_hash tenant (env.hash_token secret)
    if is_lapsed t token then expire_lapsed t token else inspected consume t token

  -- `ValidateToken`
  unfoldable pub validate_token : String → String → Store TokenRow
  validate_token tenant secret = inspect_token tenant secret false

  -- `ConsumeToken`
  unfoldable pub consume_token : String → String → Store TokenRow
  consume_token tenant secret = inspect_token tenant secret true

  -- The commit of `BindDevice`; if it fails, the device is taken off the broker again.
  unfoldable pub commit_binding : String → Store (Unit {0})
  commit_binding device = catch commit (λ e. do provision env (disable device); raise e)

  -- `BindDevice` behind the checks
  unfoldable pub enrol :
      String → String → Option Json → String → Time → TokenRow → Store BoundDevice
  enrol tenant device extras secret t token = do
    row ← tx_exec (update_device tenant device (env.hash_token secret) extras t)
    bound ← found row not_found
    tx_exec (update_token (consumed_token t token))
    provision env (upsert device secret)
    commit_binding device
    pure (record { device_id = bound.id; status = bound.status; device_secret = secret })

  -- `BindDevice` by the status of the token
  unfoldable pub bind_loaded :
      String → String → Option Json → String → Time → TokenRow → Store BoundDevice
  bind_loaded tenant device extras secret t row =
      if is_lapsed t row
      then expire_lapsed t row
      else if is_issued row.status
      then enrol tenant device extras secret t row
      else raise (refusal row.status)

  -- `BindDevice`
  unfoldable pub bind_device : String → String → String → Option Json → Store BoundDevice
  bind_device tenant token device extras = do
    require (not (str_eq tenant "" || str_eq token "" || str_eq device "")) invalid_input
    t ← now
    secret ← new_secret env
    begin_tx
    row ← load_token_by_hash tenant (env.hash_token token)
    status ← load_device_status tenant device
    require (is_pending status) device_conflict
    bind_loaded tenant device extras secret t row

abbrev newest_first : TokenRow → TokenRow → Bool
newest_first a b = earlier b.created_at b.id a.created_at a.id

-- `ListTokens`
unfoldable pub list_tokens : String → Params → Store (List TokenRow)
list_tokens tenant page = do
  require (not (str_eq tenant "")) invalid_input
  let p = normalize page default_limit (pos 100)
  query (λ db.
      slice p (order_by newest_first (keep_if (λ token. str_eq token.tenant_id tenant) db.tokens)))

-- `RevokeToken`
unfoldable pub revoke_token : String → String → Store TokenRow
revoke_token tenant id = do
  require (not (str_eq tenant "" || str_eq id "")) invalid_input
  t ← now
  begin_tx
  token ← load_token_by_id tenant id
  if is_issued token.status
      then save_token (revoked_token t token)
      else raise (refusal token.status)

abbrev pub is_outdated : Time → TokenRow → Bool
is_outdated before token = is_issued token.status && leb token.expires_at before

-- `ExpireTokens`, with the number of the rows that expired
unfoldable pub expire_tokens : Time → Store ℕ
expire_tokens before = do
  t ← now
  exec (λ db. (
    count_where (is_outdated before) db.tokens,
    record db { tokens = update_where (is_outdated before) (expired_token t) db.tokens },
  ))
