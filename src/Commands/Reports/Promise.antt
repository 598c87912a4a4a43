-- ===== src/Commands/Reports/Promise.antt =====
-- What a report of a device does to a command, apart from how
-- server/internal/commands/postgres/store.go does it.
use xmdm.Common.{String, Bool, true, false, ◌&&◌, ltb, leb, Option, none, some, find_if, str_eq}
use xmdm.Common.Json.{Json}
use xmdm.Database.Rows.{Time, Db, CommandRow, CommandStatus, queued, sent, acked, failed, expired}
use xmdm.Database.{not_found, Result, ok, err}
use xmdm.Database.Query.{update_where}

-- The command is the one of that tenant, device and id.
abbrev pub is_of : String → String → String → CommandRow → Bool
is_of tenant device id c = str_eq c.tenant_id tenant && str_eq c.device_id device && str_eq c.id id

-- It is queued or sent, and without an expiry or before it.
abbrev pub awaits_report : Time → CommandStatus → Option Time → Bool
awaits_report t queued none = true
awaits_report t queued (some e) = ltb t e
awaits_report t sent none = true
awaits_report t sent (some e) = ltb t e
awaits_report t _ e = false

-- It is queued or sent, and has reached its expiry.
abbrev pub has_lapsed : Time → CommandStatus → Option Time → Bool
has_lapsed t queued (some e) = leb e t
has_lapsed t sent (some e) = leb e t
has_lapsed t _ e = false

abbrev pub may_take : String → String → String → Time → CommandRow → Bool
may_take tenant device id t c = is_of tenant device id c && awaits_report t c.status c.expires_at

abbrev pub has_run_out : String → String → String → Time → CommandRow → Bool
has_run_out tenant device id t c = is_of tenant device id c && has_lapsed t c.status c.expires_at

-- The answer for a command that takes no report now: one that was reported on is given back.
abbrev pub kept_by : CommandStatus → CommandRow → Result CommandRow
kept_by acked c = ok c
kept_by failed c = ok c
kept_by _ c = err not_found

abbrev pub kept_answer : Option CommandRow → Result CommandRow
kept_answer none = err not_found
kept_answer (some c) = kept_by c.status c

-- The command with the report.
abbrev pub with_report : CommandStatus → Json → Time → CommandRow → CommandRow
with_report status result t c = record c {
  status = status;
  acked_at = some t;
  result = result;
  updated_at = t;
}

abbrev pub run_out : Time → CommandRow → CommandRow
run_out t c = record c { status = expired; updated_at = t }

-- The answer and the committed tables: a command that is queued or sent and before its expiry takes
-- the report, and others of its key that reached theirs expire; otherwise nothing changes, and the
-- command is given back if it is acked or failed.
abbrev pub acknowledged :
    String → String → String → Time → CommandStatus → Json → Db → Result CommandRow × Db
acknowledged tenant device id t status result d =
    let fits = may_take tenant device id t in
    let after = update_where (has_run_out tenant device id t) (run_out t) d.commands in
    elim (find_if fits d.commands) [
      | none ↦ (kept_answer (find_if (is_of tenant device id) d.commands), d)
      | some c ↦ (
        ok (with_report status result t c),
        record d { commands = update_where fits (with_report status result t) after },
      )
    ]
