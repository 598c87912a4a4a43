-- ===== src/Commands/Delivery.antt =====
-- The reads of the queue, its expiry, and `Acknowledge` of
-- server/internal/commands/postgres/store.go.
use xmdm.Common.{
  ℕ, List, String, Bool, not, ◌&&◌, ◌||◌, Option, none, some, if◌then◌else◌, str_eq, keep_if,
  find_if, take, length,
}
use xmdm.Common.Int.{pos}
use xmdm.Common.Json.{Json, str, obj, end, field}
use xmdm.Pagination.{Params, default_limit, normalize}
use xmdm.Database.Rows.{Time, Db, CommandRow, CommandStatus, acked, failed, expired}
use xmdm.Database.{
  not_found, invalid_input, Store, pure, raise, ◌>>=◌, ◌>>◌, query, exec, begin_tx, tx_query,
  tx_exec, commit, now, require, found,
}
use xmdm.Database.Query.{order_by, slice, update_where, count_where, returning}
use xmdm.Commands.{
  Ack, OverviewStats, is_open, is_sent, is_acked, is_failed, is_due, is_live, of_tenant, of_device,
  of_key, oldest_first, newest_first,
}

-- `ListRecent`
unfoldable pub list_recent : String → Params → Store (List CommandRow)
list_recent tenant page = do
  require (not (str_eq tenant "")) invalid_input
  let p = normalize page default_limit (pos 100)
  query (λ db. slice p (order_by newest_first (keep_if (of_tenant tenant) db.commands)))

-- `ListRecentAll`
unfoldable pub list_recent_all : String → Store (List CommandRow)
list_recent_all tenant = do
  require (not (str_eq tenant "")) invalid_input
  query (λ db. order_by newest_first (keep_if (of_tenant tenant) db.commands))

-- `GetOverviewStats`: the counts among the 50 newest commands
unfoldable pub get_overview_stats : String → Store OverviewStats
get_overview_stats tenant = do
  require (not (str_eq tenant "")) invalid_input
  query (λ db.
      let recent = take 50 (order_by newest_first (keep_if (of_tenant tenant) db.commands)) in
      record {
        total = length recent;
        sent = count_where (λ c. is_sent c.status) recent;
        acked = count_where (λ c. is_acked c.status) recent;
        failed = count_where (λ c. is_failed c.status) recent;
      })

-- `Get`
unfoldable pub get : String → String → Store CommandRow
get tenant id = do
  require (not (str_eq tenant "" || str_eq id "")) invalid_input
  row ← query (λ db. find_if (λ c. of_tenant tenant c && str_eq c.id id) db.commands)
  found row not_found

-- The rows that the two pending lists show at a time.
abbrev pub is_pending : String → String → Time → CommandRow → Bool
is_pending tenant device t c =
    of_device tenant device c && is_open c.status && is_live c.expires_at t

-- The rows that an expiry at a time fits, within a scope.
abbrev pub expires : (CommandRow → Bool) → Time → CommandRow → Bool
expires scope t c = scope c && is_open c.status && is_due c.expires_at t

abbrev pub expire_row : Time → CommandRow → CommandRow
expire_row t c = record c { status = expired; updated_at = t }

abbrev pub update_expired : (CommandRow → Bool) → Time → Db → ℕ × Db
update_expired scope t db = (
  count_where (expires scope t) db.commands,
  record db { commands = update_where (expires scope t) (expire_row t) db.commands },
)

-- `expireDueCommands`
unfoldable pub expire_due_of_device : String → String → Store ℕ
expire_due_of_device tenant device = do t ← now; exec (update_expired (of_device tenant device) t)

-- `expireDueCommand`
unfoldable pub expire_due_command : String → String → String → Store ℕ
expire_due_command tenant device id = do
  t ← now
  tx_exec (update_expired (of_key tenant device id) t)

-- `ExpireDueCommands`, with the number of the rows that expired
unfoldable pub expire_due_commands : String → Store ℕ
expire_due_commands tenant = do
  require (not (str_eq tenant "")) invalid_input
  t ← now
  exec (update_expired (of_tenant tenant) t)

-- `ListPending`
unfoldable pub list_pending : String → String → Params → Store (List CommandRow)
list_pending tenant device page = do
  require (not (str_eq tenant "" || str_eq device "")) invalid_input
  expire_due_of_device tenant device
  let p = normalize page default_limit (pos 100)
  t ← now
  query (λ db. slice p (order_by oldest_first (keep_if (is_pending tenant device t) db.commands)))

-- `ListPendingForDevice`, which expires nothing
unfoldable pub list_pending_for_device : String → String → Store (List CommandRow)
list_pending_for_device tenant device = do
  require (not (str_eq tenant "" || str_eq device "")) invalid_input
  t ← now
  query (λ db. order_by oldest_first (keep_if (is_pending tenant device t) db.commands))

-- The statuses that a device may report.
unfoldable pub reported : String → Option CommandStatus
reported status =
    if str_eq status "acked"
    then some acked
    else if str_eq status "failed"
    then some failed
    else none

-- The result document, with the keys in the order in which Go writes a map.
unfoldable pub result_of : Ack → Json
result_of req =
    let status = field "status" (str req.status) end in
    let message =
      if str_eq req.message "" then status else field "message" (str req.message) status in
    obj (elim req.details [ none ↦ message | some d ↦ field "details" d message ])

abbrev pub takes_ack : String → String → String → Time → CommandRow → Bool
takes_ack tenant device id t c =
    of_key tenant device id c && is_open c.status && is_live c.expires_at t

abbrev pub ack_row : CommandStatus → Json → Time → CommandRow → CommandRow
ack_row status result t c = record c {
  status = status;
  acked_at = some t;
  result = result;
  updated_at = t;
}

abbrev pub update_acked :
    (CommandRow → Bool) → (CommandRow → CommandRow) → Db → Option CommandRow × Db
update_acked fits change db = (
  returning fits change db.commands,
  record db { commands = update_where fits change db.commands },
)

-- A command that is acknowledged already is given back as it is.
unfoldable pub settled : Option CommandRow → Store CommandRow
settled none = raise not_found
settled (some c) = if is_acked c.status || is_failed c.status then pure c else raise not_found

-- What follows the update: the row that it changed, or a look at why it changed none.
unfoldable pub conclude : String → String → String → Option CommandRow → Store CommandRow
conclude tenant device id (some row) = do commit; pure row
conclude tenant device id none = do
  existing ← tx_query (λ db. find_if (of_key tenant device id) db.commands)
  settled existing

-- `Acknowledge`
unfoldable pub acknowledge : String → String → String → Ack → Store CommandRow
acknowledge tenant device id req = do
  require (not (str_eq tenant "" || str_eq device "" || str_eq id "" || str_eq req.status ""))
      invalid_input
  status ← found (reported req.status) invalid_input
  t ← now
  begin_tx
  expire_due_command tenant device id
  changed ← tx_exec (update_acked (takes_ack tenant device id t) (ack_row status (result_of req) t))
  conclude tenant device id changed
