-- ===== src/Database.antt =====
-- What the PostgreSQL stores of server/internal/*/postgres run on: statements of a pool, one
-- transaction at a time, a clock and random values. A statement on the pool acts on the committed
-- tables; one of a transaction acts on a working copy, which `Commit` makes the committed tables
-- and the deferred `Rollback` drops. Any statement may fail: `faults` says which of the next ones
-- do. The clock moves between two readings by what `ticks` says.
pub mod Rows
pub mod Keeps
pub mod Never
pub mod Atomic
pub mod Fails
pub mod Triples
pub mod Yields
pub mod Query
pub mod Table
pub mod Tables
pub mod Stands
use xmdm.Common.{
  ℕ, ◌+◌, suc, ◌≡◌, refl, List, [], ◌∷◌, ◌++◌, String, Bool, true, false, Option, none, some,
  if◌then◌else◌, keep_if, not, str_eq,
}
use xmdm.Common.Json.{Json}
use Rows.{Db, Time}

-- The error values that the stores return. `database` is any other error of the driver.
pub data Error : Type 0 where
  not_found invalid_input conflict forbidden : Error
  token_not_found token_consumed token_expired token_revoked token_invalid token_conflict : Error
  device_conflict invalid_credentials : Error
  invalid_target_type : Error
  database : Error
  missing : String → Error

pub data Result (A : Type 0) : Type 0 where
  ok : A → Result A
  err : Error → Result A

-- `push.CommandMessage` with the device that it goes to
pub record Message : Type 0 where
  pub type : String
  pub command_id : String
  pub tenant_id : String
  pub device_id : String
  pub payload : Json
  pub created_at : Time

-- The calls of `mqttdynsec.Provisioner`; the stores only log their errors.
pub data ProvisionCall : Type 0 where
  upsert : String → String → ProvisionCall
  disable : String → ProvisionCall

pub record Sys : Type 0 where
  pub db : Db
  pub work : Db
  pub clock : Time
  pub ticks : List ℕ
  pub faults : List Bool
  pub drawn : ℕ
  pub published : List Message
  pub provisioned : List ProvisionCall
  pub objects : List String

-- What the stores are built with: `uuid.NewString` and `NewTokenSecret` by the number of the draw,
-- `HashToken`, and whether a publisher and a provisioner are set; the publisher's answer is whether
-- the broker took the message.
pub record Env : Type 0 where
  pub uuid : ℕ → String
  pub secret : ℕ → String
  pub hash_token : String → String
  pub publisher : Option (Message → Bool)
  pub has_provisioner : Bool

abbrev pub Store : Type 0 → Type 0
Store A = Sys → Result A × Sys

unfoldable pub pure : {A : Type 0} → A → Store A
pure a s = (ok a, s)

unfoldable pub raise : {A : Type 0} → Error → Store A
raise e s = (err e, s)

abbrev continue : {A B : Type 0} → Result A → (A → Store B) → Store B
continue (ok a) f s = f a s
continue (err e) f s = (err e, s)

infixl 5 ◌>>=◌ ◌>>◌
unfoldable pub ◌>>=◌ : {A B : Type 0} → Store A → (A → Store B) → Store B
unfolding pure raise
◌>>=◌ m f s = let (r, s') = m s in continue r f s'

abbrev pub ◌>>◌ : {A B : Type 0} → Store A → Store B → Store B
m >> k = m >>= λ _. k

-- `if err := m; err != nil { h(err) }`: the state is what `m` left.
unfoldable pub catch : {A : Type 0} → Store A → (Error → Store A) → Store A
catch m h s = let (r, s') = m s in elim r [ ok a ↦ (ok a, s') | err e ↦ h e s' ]

-- `a, err := m; if err != nil { h(err) } else { f(a) }`
unfoldable pub handled : {A B : Type 0} → Store A → (Error → Store B) → (A → Store B) → Store B
handled m h f s = let (r, s') = m s in elim r [ ok a ↦ f a s' | err e ↦ h e s' ]

-- One statement: it fails if the next fault says so.
unfoldable pub attempt : {A : Type 0} → (Sys → A × Sys) → List Bool → Store A
attempt act [] s = let (a, s') = act s in (ok a, s')
attempt act (true ∷ rest) s = (err database, record s { faults = rest })
attempt act (false ∷ rest) s = let (a, s') = act (record s { faults = rest }) in (ok a, s')

unfoldable pub step : {A : Type 0} → (Sys → A × Sys) → Store A
unfolding attempt
step act s = attempt act s.faults s

-- A SELECT on the pool.
unfoldable pub query : {A : Type 0} → (Db → A) → Store A
unfolding step
query f = step (λ s. (f s.db, s))

-- An INSERT or UPDATE on the pool, committed at once.
unfoldable pub exec : {A : Type 0} → (Db → A × Db) → Store A
unfolding step
exec f = step (λ s. let (a, d) = f s.db in (a, record s { db = d }))

unfoldable pub begin_tx : Store (Unit {0})
unfolding step
begin_tx = step (λ s. (tt, record s { work = s.db }))

unfoldable pub tx_query : {A : Type 0} → (Db → A) → Store A
unfolding step
tx_query f = step (λ s. (f s.work, s))

unfoldable pub tx_exec : {A : Type 0} → (Db → A × Db) → Store A
unfolding step
tx_exec f = step (λ s. let (a, d) = f s.work in (a, record s { work = d }))

unfoldable pub commit : Store (Unit {0})
unfolding step
commit = step (λ s. (tt, record s { db = s.work }))

unfoldable pub advance : List ℕ → Sys → Sys
advance [] s = s
advance (d ∷ rest) s = record s { clock = s.clock + d; ticks = rest }

-- `Delete` of the object store: the keys that are left.
unfoldable pub delete_object : String → Store (Unit {0})
unfolding step
delete_object key =
    step (λ s. (tt, record s { objects = keep_if (λ k. not (str_eq k key)) s.objects }))

-- `s.now()`
unfoldable pub now : Store Time
unfolding advance
now s = let s' = advance s.ticks s in (ok s'.clock, s')

module _ (env : Env) where
  -- `uuid.NewString()`
  unfoldable pub new_uuid : Store String
  new_uuid s = (ok (env.uuid s.drawn), record s { drawn = suc s.drawn })

  -- `NewTokenSecret()`, which fails if the random source does
  unfoldable pub new_secret : Store String
  unfolding step
  new_secret = step (λ s. (env.secret s.drawn, record s { drawn = suc s.drawn }))

  -- A call of the provisioner, where there is one.
  unfoldable pub provision : ProvisionCall → Store (Unit {0})
  provision call s =
      if env.has_provisioner
      then (ok tt, record s { provisioned = s.provisioned ++ call ∷ [] })
      else (ok tt, s)

-- `PublishCommand`, once it is known that there is a publisher
unfoldable pub publish : (Message → Bool) → Message → Store Bool
publish takes m s =
    if takes m then (ok true, record s { published = s.published ++ m ∷ [] }) else (ok false, s)

unfoldable pub require : Bool → Error → Store (Unit {0})
require true e s = (ok tt, s)
require false e s = (err e, s)

unfoldable pub found : {A : Type 0} → Option A → Error → Store A
found none e s = (err e, s)
found (some a) e s = (ok a, s)

-- No statement fails and the clock stands still.
abbrev pub calm : Db → Time → Sys
calm d t = record {
  db = d;
  work = d;
  clock = t;
  ticks = [];
  faults = [];
  drawn = 0;
  published = [];
  provisioned = [];
  objects = [];
}
