-- ===== src/Commands/Tests.antt =====
-- A small store: a device with one command that is sent, one that is due and one that is acked.
use xmdm.Common.{
  ◌≡◌, refl, List, [], ◌∷◌, true, false, String, Option, none, some, All, ◌==◌, if◌then◌else◌,
}
use xmdm.Common.Json.{obj, end}
use xmdm.Common.Int.{pos, negsuc}
use xmdm.Pagination.{Params, normalize, effective_default}
use xmdm.Database.Rows.{
  empty_db, Time, Db, DeviceRow, CommandRow, CommandStatus, queued, sent, acked, enrolled,
}
use xmdm.Database.{
  Error, ok, err, Env, Sys, calm, ◌>>=◌, now, begin_tx, commit, require, found, advance, step,
  attempt, pure, query, exec, tx_exec,
}
use xmdm.Database.Query.{order_by, insert_by, update_where, earlier}
use xmdm.Commands.{Upsert, Ack}
use xmdm.Commands.Targets.{resolve_targets, all_devices}
use xmdm.Commands.Queue.{enqueue}
use xmdm.Commands.Delivery.{
  acknowledge, list_pending, expire_due_of_device, expire_due_command, conclude, reported,
  result_of,
}
use xmdm.Commands.Lifecycle.{
  Evolves, IsSound, Request, enqueue_for, acknowledge_as, expire_for, perform, serve,
}
use xmdm.Commands.Lifecycle.History.{serve-Evolves, serve-IsSound}
use xmdm.Commands.Failures.{perform-rolls_back}
use xmdm.Commands.Answers.{IsPendingPage, list_pending-shows, rows_for, add_rows, enqueue-rows}
use xmdm.Commands.Reports.Promise.{acknowledged}
use xmdm.Commands.Reports.{acknowledge-acknowledged}

abbrev device : String → DeviceRow
device id = record {
  id = id;
  tenant_id = "t";
  display_name = id;
  secret_hash = "";
  status = enrolled;
  policy_id = none;
  bootstrap_extras = none;
  created_at = 1;
  updated_at = 1;
  deleted_at = none;
}

abbrev command : String → CommandStatus → Option Time → Option Time → CommandRow
command id status expires_at acked_at = record {
  id = id;
  tenant_id = "t";
  device_id = "d1";
  type = "ping";
  payload = obj end;
  status = status;
  expires_at = expires_at;
  acked_at = acked_at;
  result = obj end;
  created_at = 2;
  updated_at = 2;
}

abbrev tables : Db
tables = record empty_db {
  devices = device "d1" ∷ device "d2" ∷ [];
  commands =
      command "c1" sent none none
      ∷ command "c2" queued (some 5) none
      ∷ command "c3" acked none (some 3)
      ∷ [];
}

abbrev env : Env
env = record {
  uuid = λ n. if n == 0 then "u0" else "u1";
  secret = λ n. "s";
  hash_token = λ s. s;
  publisher = none;
  has_provisioner = false;
}

abbrev report : Ack
report = record { status = "acked"; message = ""; details = none }

abbrev to_all : Upsert
to_all = record {
  type = "reboot";
  payload = none;
  expires_at = none;
  target = record { type = "broadcast"; device_id = ""; group_id = "" };
}

abbrev requests : List Request
requests = enqueue_for "t" to_all ∷ acknowledge_as "t" "d1" "c1" report ∷ expire_for "t" ∷ []

-- The second statement of these requests fails.
abbrev faulty : Sys
faulty = record (calm tables 10) { faults = false ∷ true ∷ [] }

serve-Evolves_example : Evolves tables.commands (serve env requests faulty).db.commands
serve-Evolves_example = serve-Evolves env requests faulty refl

tables-IsSound : All IsSound tables.commands
tables-IsSound =
    (record { acked_iff = refl }, (record { acked_iff = refl }, (record { acked_iff = refl }, tt)))

serve-IsSound_example : All IsSound (serve env requests faulty).db.commands
serve-IsSound_example = serve-IsSound env requests faulty tables-IsSound tables-IsSound

broadcast_fails : (perform env (enqueue_for "t" to_all) faulty).0 ≡ err Error.database
unfolding perform ◌>>=◌ enqueue resolve_targets all_devices order_by insert_by earlier now advance
    require query begin_tx step attempt
broadcast_fails = refl

perform-rolls_back_example : (perform env (enqueue_for "t" to_all) faulty).1.db ≡ tables
perform-rolls_back_example =
    perform-rolls_back env (enqueue_for "t" to_all) faulty Error.database refl broadcast_fails

abbrev reported_row : CommandRow
reported_row = record (command "c1" acked none (some 10)) {
  result = result_of report;
  updated_at = 10;
}

report_taken : (acknowledge "t" "d1" "c1" report (calm tables 10)).0 ≡ ok reported_row
unfolding acknowledge ◌>>=◌ now advance require found reported begin_tx expire_due_command tx_exec
    update_where conclude commit pure step attempt
report_taken = refl

reported_acked : reported report.status ≡ some acked
unfolding reported
reported_acked = refl

acknowledge-acknowledged_example :
    ((acknowledge "t" "d1" "c1" report (calm tables 10)).0
      ≡ (acknowledged "t" "d1" "c1" 10 acked (result_of report) tables).0)
    × ((acknowledge "t" "d1" "c1" report (calm tables 10)).1.db
        ≡ (acknowledged "t" "d1" "c1" 10 acked (result_of report) tables).1)
acknowledge-acknowledged_example =
    acknowledge-acknowledged "t" "d1" "c1" report acked tables 10 refl reported_acked

abbrev first_page : Params
first_page = record { limit = pos 10; offset = negsuc 0 }

pending_page :
    (list_pending "t" "d1" first_page (calm tables 10)).0 ≡ ok (command "c1" sent none none ∷ [])
unfolding list_pending ◌>>=◌ now advance require expire_due_of_device exec query update_where
    order_by insert_by normalize effective_default step attempt
pending_page = refl

list_pending-shows_example :
    IsPendingPage "t" "d1"
      (list_pending "t" "d1" first_page (calm tables 10)).1.clock
      (command "c1" sent none none ∷ [])
list_pending-shows_example =
    list_pending-shows "t" "d1" first_page (calm tables 10) (command "c1" sent none none ∷ [])
      pending_page

broadcast_targets :
    resolve_targets "t" to_all.target (calm tables 10) ≡ (ok ("d1" ∷ "d2" ∷ []), calm tables 10)
unfolding resolve_targets all_devices order_by insert_by earlier query step attempt
broadcast_targets = refl

enqueue-rows_example :
    ((enqueue env "t" to_all (calm tables 10)).0
      ≡ ok (rows_for env "t" to_all 10 0 ("d1" ∷ "d2" ∷ [])))
    × ((enqueue env "t" to_all (calm tables 10)).1.db
        ≡ add_rows (rows_for env "t" to_all 10 0 ("d1" ∷ "d2" ∷ [])) tables)
enqueue-rows_example =
    enqueue-rows env "t" to_all tables 10 "d1" ("d2" ∷ []) refl refl broadcast_targets
