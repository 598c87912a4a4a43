-- ===== src/Commands.antt =====
-- server/internal/commands (model.go, catalog.go) and server/internal/commands/postgres/store.go:
-- the queue of commands for devices. A `commands.Command` is the row that it is scanned from.
pub mod Targets
pub mod Queue
pub mod Delivery
mod Lifecycle
mod Failures
mod Answers
mod Reports
mod Returned
mod Tests
use mathlib.Core.List.{flat_map}
use xmdm.Common.{
  ℕ, List, [], ◌∷◌, ◌++◌, map, String, Bool, true, false, not, ◌&&◌, ◌||◌, Option, none, some,
  if◌then◌else◌, ltb, leb, str_eq, trim_space, any_of, keep_if, find_if, take, length,
}
use xmdm.Common.Int.{pos}
use xmdm.Common.Json.{Json, str, obj, Fields, end, field}
use xmdm.Pagination.{Params, default_limit, normalize}
use xmdm.Database.Rows.{
  Time, Db, CommandRow, CommandStatus, queued, sent, delivered, acked, failed, expired, DeviceRow,
  DeviceStatus, retired, wiped, GroupRow, RecordStatus, active, DeviceGroupRow,
}
use xmdm.Database.{
  Error, not_found, invalid_input, invalid_target_type, Message, Env, Store, pure, raise, ◌>>=◌,
  ◌>>◌, catch, query, exec, begin_tx, tx_query, tx_exec, commit, now, new_uuid, publish, require,
  found,
}
use xmdm.Database.Query.{order_by, slice, update_where, count_where, returning, earlier}

pub record Target : Type 0 where
  pub type : String
  pub device_id : String
  pub group_id : String

pub record Upsert : Type 0 where
  pub type : String
  pub payload : Option Json
  pub expires_at : Option Time
  pub target : Target

pub record Ack : Type 0 where
  pub status : String
  pub message : String
  pub details : Option Json

pub record OverviewStats : Type 0 where
  pub total : ℕ
  pub sent : ℕ
  pub acked : ℕ
  pub failed : ℕ

abbrev pub builtin_types : List String
builtin_types = "ping" ∷ "reboot" ∷ "sync_config" ∷ "exit_kiosk" ∷ "launch_companion_app" ∷ []

-- `IsBuiltinType`
unfoldable pub is_builtin_type : String → Bool
is_builtin_type command_type =
    let trimmed = trim_space command_type in
    if str_eq trimmed "" then false else any_of (λ t. str_eq t trimmed) builtin_types

-- The comparisons of the SQL text with the status constants.
abbrev pub is_open : CommandStatus → Bool
is_open queued = true
is_open sent = true
is_open _ = false

abbrev pub is_queued : CommandStatus → Bool
is_queued queued = true
is_queued _ = false

abbrev pub is_sent : CommandStatus → Bool
is_sent sent = true
is_sent _ = false

abbrev pub is_acked : CommandStatus → Bool
is_acked acked = true
is_acked _ = false

abbrev pub is_failed : CommandStatus → Bool
is_failed failed = true
is_failed _ = false

-- `expires_at IS NOT NULL AND expires_at <= t`
abbrev pub is_due : Option Time → Time → Bool
is_due none t = false
is_due (some e) t = leb e t

-- `expires_at IS NULL OR expires_at > t`
abbrev pub is_live : Option Time → Time → Bool
is_live none t = true
is_live (some e) t = ltb t e

abbrev pub of_tenant : String → CommandRow → Bool
of_tenant tenant c = str_eq c.tenant_id tenant

abbrev pub of_device : String → String → CommandRow → Bool
of_device tenant device c = str_eq c.tenant_id tenant && str_eq c.device_id device

abbrev pub of_key : String → String → String → CommandRow → Bool
of_key tenant device id c = of_device tenant device c && str_eq c.id id

-- ORDER BY created_at, id, and the same with both DESC
abbrev pub oldest_first : CommandRow → CommandRow → Bool
oldest_first c d = earlier c.created_at c.id d.created_at d.id

abbrev pub newest_first : CommandRow → CommandRow → Bool
newest_first c d = earlier d.created_at d.id c.created_at c.id
