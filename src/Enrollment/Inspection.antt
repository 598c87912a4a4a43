-- ===== src/Enrollment/Inspection.antt =====
-- What the tokens of server/internal/enrollment/postgres/store.go are good for: what an inspection
-- answers, and what it answers afterwards. The tables are those of a system where no statement
-- fails and the clock stands still during an operation; it moves between operations.
use xmdm.Common.{
  ◌≡◌, refl, sym, ap, ◌∙◌, ◌&&◌, not, String, Bool, true, false, ◌||◌, Option, none, some,
  if◌then◌else◌, ltb, Option-cases, inl, inr, find_if, str_eq, eq_refl, arith,
}
use xmdm.Database.Rows.{
  Time, Db, TokenRow, TokenStatus, issued, consumed, expired, revoked, unknown,
}
use xmdm.Database.{
  token_not_found, token_consumed, token_expired, token_revoked, token_conflict, Result, ok, err,
  Env, pure, raise, ◌>>=◌, step, attempt, calm, begin_tx, tx_query, tx_exec, commit, now, advance,
  require, found,
}
use xmdm.Database.Query.{update_where, find_if-update_where}
use xmdm.Enrollment.{
  is_issued, refusal, of_hash, of_id, load_token_by_hash, load_token_by_id, written_token,
  update_token, expired_token, consumed_token, revoked_token, save_token, expire_lapsed, inspected,
  inspect_token, consume_token, revoke_token,
}

-- The tables with the status and the times of a token in the rows of its tenant and id.
abbrev stored : TokenRow → Db → Db
stored token d = record d {
  tokens =
      update_where (λ r. str_eq r.tenant_id token.tenant_id && str_eq r.id token.id)
        (λ r. record r {
          status = token.status;
          consumed_at = token.consumed_at;
          revoked_at = token.revoked_at;
          updated_at = token.updated_at;
        })
        d.tokens;
}

-- The outcome for a token: by its status, and for an issued one by whether it is before its expiry.
abbrev outcome :
    TokenStatus → Bool → Result TokenRow × Db → Result TokenRow × Db → Db → Result TokenRow × Db
outcome issued true good lapsed d = good
outcome issued false good lapsed d = lapsed
outcome consumed in_time good lapsed d = (err token_consumed, d)
outcome expired in_time good lapsed d = (err token_expired, d)
outcome revoked in_time good lapsed d = (err token_revoked, d)
outcome unknown in_time good lapsed d = (err token_conflict, d)

-- A token that is good is returned, and where it is to be consumed it is stored as consumed at the
-- time; one that lapsed is stored as expired.
abbrev pub inspection : Bool → Time → Db → Option TokenRow → Result TokenRow × Db
inspection consume t d none = (err token_not_found, d)
inspection consume t d (some token) =
    let used = record token { status = consumed; consumed_at = some t; updated_at = t } in
    let lapsed = record token { status = expired; updated_at = t } in
    outcome token.status (ltb t token.expires_at)
      (if consume then (ok used, stored used d) else (ok token, d))
      (err token_expired, stored lapsed d) d

-- The code's tests of the status choose the outcome.
outcome_lem :
    (s : TokenStatus) (in_time : Bool) (good lapsed : Result TokenRow × Db) (d : Db)
    → (if is_issued s && not in_time
        then lapsed
        else if is_issued s
        then good
        else (err (refusal s), d))
      ≡ outcome s in_time good lapsed d
outcome_lem issued true good lapsed d = refl
outcome_lem issued false good lapsed d = refl
outcome_lem consumed in_time good lapsed d = refl
outcome_lem expired in_time good lapsed d = refl
outcome_lem revoked in_time good lapsed d = refl
outcome_lem unknown in_time good lapsed d = refl

-- What the inspection of a token that was found does, with the code's own tests.
abbrev inspected_as : Bool → Time → Db → TokenRow → Result TokenRow × Db
inspected_as consume t d token =
    if is_issued token.status && not (ltb t token.expires_at)
    then (err token_expired, (update_token (expired_token t token) d).1)
    else if is_issued token.status
    then (if consume
        then (ok (consumed_token t token), (update_token (consumed_token t token) d).1)
        else (ok token, d))
    else (err (refusal token.status), d)

inspect_token-found :
    (env : Env) (tenant secret : String) (consume : Bool) (d : Db) (t : Time) (token : TokenRow)
    → (str_eq tenant "" || str_eq secret "") ≡ false
    → find_if (of_hash tenant (env.hash_token secret)) d.tokens ≡ some token
    → ((inspect_token env tenant secret consume (calm d t)).0 ≡ (inspected_as consume t d token).0)
      × ((inspect_token env tenant secret consume (calm d t)).1.db
          ≡ (inspected_as consume t d token).1)
unfolding inspect_token ◌>>=◌ now advance begin_tx commit require found load_token_by_hash tx_query
    step attempt expire_lapsed inspected save_token tx_exec pure raise
inspect_token-found env tenant secret consume d t token valid there =
    rw (valid, there) (ground arith)

-- The token is one of the tenant with the hash of the secret.
abbrev pub of_secret : Env → String → String → TokenRow → Bool
of_secret env tenant secret token =
    str_eq token.tenant_id tenant && str_eq token.token_hash (env.hash_token secret)

-- An inspection with a tenant and a secret, on a system where no statement fails and the clock
-- stands still, answers and leaves the tables as `inspection` says of the token that the secret's
-- hash finds: by the status, the expiry and whether it is to be consumed.
pub inspect_token-inspection :
    (env : Env) (tenant secret : String) (consume : Bool) (d : Db) (t : Time)
    → (str_eq tenant "" || str_eq secret "") ≡ false
    → ((inspect_token env tenant secret consume (calm d t)).0
        ≡ (inspection consume t d (find_if (of_secret env tenant secret) d.tokens)).0)
      × ((inspect_token env tenant secret consume (calm d t)).1.db
          ≡ (inspection consume t d (find_if (of_secret env tenant secret) d.tokens)).1)
unfolding inspect_token ◌>>=◌ now advance begin_tx commit require found load_token_by_hash tx_query
    step attempt expire_lapsed inspected save_token tx_exec pure raise
inspect_token-inspection env tenant secret consume d t valid =
    elim (Option-cases (find_if (of_hash tenant (env.hash_token secret)) d.tokens)) [
      | inl absent ↦ rw (valid, absent) (refl, refl)
      | inr (token, there) ↦
          let ran = inspect_token-found env tenant secret consume d t token valid there in
          let as_said : inspected_as consume t d token ≡ inspection consume t d (some token) =
            outcome_lem token.status (ltb t token.expires_at) _ _ d in
          let whole = ap (inspection consume t d) (sym there) in
          (
            ran.0 ∙ ap (λ (p : Result TokenRow × Db). p.0) (as_said ∙ whole),
            ran.1 ∙ ap (λ (p : Result TokenRow × Db). p.1) (as_said ∙ whole),
          )
    ]

-- A token with other values of the columns that `updateToken` sets.
abbrev with_columns : TokenStatus → Option Time → Option Time → Time → TokenRow → TokenRow
with_columns status consumed_at revoked_at updated_at row = record row {
  status = status;
  consumed_at = consumed_at;
  revoked_at = revoked_at;
  updated_at = updated_at;
}

of_id_refl : (row : TokenRow) → of_id row.tenant_id row.id row ≡ true
of_id_refl row = rw (eq_refl row.tenant_id, eq_refl row.id) refl

-- The token of a hash, once it is written with other columns.
pub find_if-update_token :
    (tenant hash : String) (d : Db) (row : TokenRow) (s : TokenStatus) (c r : Option Time)
    (u : Time)
    → find_if (of_hash tenant hash) d.tokens ≡ some row
    → find_if (of_hash tenant hash) (update_token (with_columns s c r u row) d).1.tokens
      ≡ some (with_columns s c r u row)
find_if-update_token tenant hash d row s c r u h =
    find_if-update_where (of_hash tenant hash) (of_id row.tenant_id row.id)
      (written_token (with_columns s c r u row)) d.tokens row (λ x. refl) (of_id_refl row) h

-- With a tenant and a secret whose hash finds an issued token that is not due, on a system where no
-- statement fails and the clock stands still: `ConsumeToken` returns the token consumed at its
-- time, and an inspection of the tables that this leaves, by the same tenant and secret at whatever
-- time, to consume it or not, answers that it is consumed.
pub consume_token-once :
    (env : Env) (tenant secret : String) (d : Db) (t : Time) (row : TokenRow) (again : Bool)
    (u : Time)
    → (str_eq tenant "" || str_eq secret "") ≡ false
    → find_if (of_hash tenant (env.hash_token secret)) d.tokens ≡ some row
    → row.status ≡ issued
    → ltb t row.expires_at ≡ true
    → ((consume_token env tenant secret (calm d t)).0 ≡ ok (consumed_token t row))
      × ((inspect_token env tenant secret again
            (calm (consume_token env tenant secret (calm d t)).1.db u)).0
          ≡ err token_consumed)
unfolding consume_token
consume_token-once env tenant secret d t row again u valid here fresh live =
    let first = inspect_token-inspection env tenant secret true d t valid in
    let later =
      find_if-update_token tenant (env.hash_token secret) d row consumed (some t) row.revoked_at t
        here in
    (
      first.0 ∙ rw (here, fresh, live) refl,
      let saved = (update_token (consumed_token t row) d).1 in
          let same : (consume_token env tenant secret (calm d t)).1.db ≡ saved =
            first.1 ∙ rw (here, fresh, live) refl in
          rw same
            ((inspect_token-inspection env tenant secret again saved u valid).0 ∙ rw later refl),
    )

-- With a tenant and a secret whose hash finds an issued token that is due, on a system where no
-- statement fails and the clock stands still: an inspection, to consume it or not, answers that the
-- token is expired, and so does another one of the tables that this leaves, by the same tenant and
-- secret at whatever time, earlier ones included.
pub inspect_token-lapses :
    (env : Env) (tenant secret : String) (consume : Bool) (d : Db) (t : Time) (row : TokenRow)
    (again : Bool) (u : Time)
    → (str_eq tenant "" || str_eq secret "") ≡ false
    → find_if (of_hash tenant (env.hash_token secret)) d.tokens ≡ some row
    → row.status ≡ issued
    → ltb t row.expires_at ≡ false
    → ((inspect_token env tenant secret consume (calm d t)).0 ≡ err token_expired)
      × ((inspect_token env tenant secret again
            (calm (inspect_token env tenant secret consume (calm d t)).1.db u)).0
          ≡ err token_expired)
inspect_token-lapses env tenant secret consume d t row again u valid here fresh due =
    let first = inspect_token-inspection env tenant secret consume d t valid in
    let later =
      find_if-update_token tenant (env.hash_token secret) d row expired row.consumed_at
        row.revoked_at t here in
    (
      first.0 ∙ rw (here, fresh, due) refl,
      let saved = (update_token (expired_token t row) d).1 in
          let same : (inspect_token env tenant secret consume (calm d t)).1.db ≡ saved =
            first.1 ∙ rw (here, fresh, due) refl in
          rw same
            ((inspect_token-inspection env tenant secret again saved u valid).0 ∙ rw later refl),
    )

-- With a tenant, an id and a secret, where the first row of the id and the first row of the
-- secret's hash are the same issued token, on a system where no statement fails and the clock
-- stands still: `RevokeToken` returns it revoked at its time, and an inspection of the tables that
-- this leaves, by the secret at whatever time, answers that it is revoked.
revoke_token-refuses :
    (env : Env) (tenant id secret : String) (d : Db) (t : Time) (row : TokenRow) (again : Bool)
    (u : Time)
    → (str_eq tenant "" || str_eq id "") ≡ false
    → (str_eq tenant "" || str_eq secret "") ≡ false
    → find_if (of_id tenant id) d.tokens ≡ some row
    → find_if (of_hash tenant (env.hash_token secret)) d.tokens ≡ some row
    → row.status ≡ issued
    → ((revoke_token tenant id (calm d t)).0 ≡ ok (revoked_token t row))
      × ((inspect_token env tenant secret again (calm (revoke_token tenant id (calm d t)).1.db u)).0
          ≡ err token_revoked)
unfolding revoke_token ◌>>=◌ now advance begin_tx commit require found load_token_by_id tx_query
    step attempt save_token tx_exec pure raise
revoke_token-refuses env tenant id secret d t row again u named valid here by_hash fresh =
    let later =
      find_if-update_token tenant (env.hash_token secret) d row revoked row.consumed_at (some t) t
        by_hash in
    (
      rw (named, here, fresh) refl,
      let saved = (update_token (revoked_token t row) d).1 in
          let same : (revoke_token tenant id (calm d t)).1.db ≡ saved =
            rw (named, here, fresh) refl in
          rw same
            ((inspect_token-inspection env tenant secret again saved u valid).0 ∙ rw later refl),
    )
