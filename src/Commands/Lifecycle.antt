-- ===== src/Commands/Lifecycle.antt =====
-- The life of a command: which changes of its row the operations of the queue make, in any order,
-- whichever of their statements fail.
pub mod Steps
mod Keeps
pub mod History
use xmdm.Common.{
  ℕ, List, [], ◌∷◌, ◌≡◌, ◌⊎◌, refl, String, Bool, true, false, not, ◌||◌, Option, none, some,
  if◌then◌else◌,
}
use xmdm.Pagination.{Params}
use xmdm.Database.Rows.{CommandRow, CommandStatus, queued, sent, expired}
use xmdm.Database.{Result, Env, Sys, Store, pure, ◌>>=◌, ◌>>◌}
use xmdm.Commands.{Upsert, Ack, is_open, is_acked, is_failed}
use xmdm.Commands.Queue.{enqueue}
use xmdm.Commands.Delivery.{
  list_recent, list_recent_all, get_overview_stats, get, expire_due_commands, list_pending,
  list_pending_for_device, acknowledge,
}

-- The changes of status that there are.
pub data Move : CommandStatus → CommandStatus → Type 0 where
  stay : {a : CommandStatus} → Move a a
  send : Move queued sent
  expire : {a : CommandStatus} → is_open a ≡ true → Move a expired
  report : {a b : CommandStatus} → is_open a ≡ true → (is_acked b || is_failed b) ≡ true → Move a b

-- What may become of a row: what was asked for stays, and a row that is closed does not change.
pub record RowStep (c d : CommandRow) : Type 0 where
  pub same_id : d.id ≡ c.id
  pub same_tenant : d.tenant_id ≡ c.tenant_id
  pub same_device : d.device_id ≡ c.device_id
  pub same_type : d.type ≡ c.type
  pub same_payload : d.payload ≡ c.payload
  pub same_expiry : d.expires_at ≡ c.expires_at
  pub same_creation : d.created_at ≡ c.created_at
  pub move : Move c.status d.status
  pub final : (is_open c.status ≡ true) ⊎ (d ≡ c)

-- Every row of the first table stands, stepped, in its place in the second; rows may follow.
abbrev pub Evolves : List CommandRow → List CommandRow → Type 0
Evolves [] ds = Unit
Evolves (c ∷ cs) [] = ⊥
Evolves (c ∷ cs) (d ∷ ds) = RowStep c d × Evolves cs ds

-- A time of acknowledgement is there exactly for the commands that a device reported on.
abbrev pub has_time : Option ℕ → Bool
has_time none = false
has_time (some t) = true

pub record IsSound (c : CommandRow) : Type 0 where
  pub acked_iff : has_time c.acked_at ≡ (is_acked c.status || is_failed c.status)

-- The operations of `commands.Repository` and the cleanup pass, as requests to the store.
pub data Request : Type 0 where
  enqueue_for : String → Upsert → Request
  recent : String → Params → Request
  recent_all : String → Request
  stats : String → Request
  one : String → String → Request
  pending : String → String → Params → Request
  pending_for_device : String → String → Request
  expire_for : String → Request
  acknowledge_as : String → String → String → Ack → Request

abbrev discard : {A : Type 0} → Store A → Store (Unit {0})
discard m = do m; pure tt

unfoldable pub perform : Env → Request → Store (Unit {0})
perform env (enqueue_for tenant req) = discard (enqueue env tenant req)
perform env (recent tenant page) = discard (list_recent tenant page)
perform env (recent_all tenant) = discard (list_recent_all tenant)
perform env (stats tenant) = discard (get_overview_stats tenant)
perform env (one tenant id) = discard (get tenant id)
perform env (pending tenant device page) = discard (list_pending tenant device page)
perform env (pending_for_device tenant device) = discard (list_pending_for_device tenant device)
perform env (expire_for tenant) = discard (expire_due_commands tenant)
perform env (acknowledge_as tenant device id req) = discard (acknowledge tenant device id req)

-- One request after the other; an error ends only its own request.
unfoldable pub serve : Env → List Request → Sys → Sys
serve env [] s = s
serve env (r ∷ rs) s = serve env rs (perform env r s).1
