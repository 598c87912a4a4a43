-- ===== src/Commands/Lifecycle/Keeps.antt =====
-- Every operation of the queue keeps what holds of its rows.
use xmdm.Common.{List, [], ◌∷◌, ◌++◌, ◌≡◌, refl, String, Bool, true, ◌||◌, Option, none, some}
use xmdm.Common.Json.{Json}
use xmdm.Pagination.{Params}
use xmdm.Database.Rows.{Time, Db, CommandRow, CommandStatus}
use xmdm.Database.{Message, Env, Sys, Store, ◌>>◌, pure, exec, tx_exec, now}
use xmdm.Database.Keeps.{
  Keeps, Holds, keeps_rules, Keeps-exec, Keeps-tx_exec, Keeps-bind, Keeps-now, Keeps-begin_tx,
  Keeps-require, Keeps-new_uuid, Keeps-pure, Keeps-found_bind, Keeps-tx_query,
}
use xmdm.Commands.{Upsert, Ack, Target, is_acked, is_failed, of_key, of_device, of_tenant}
use xmdm.Commands.Targets.{resolve_targets}
use xmdm.Commands.Queue.{
  new_row, insert_row, update_sent, mark_sent, publish_item, publish_all, publish_enqueued,
  insert_commands, enqueue,
}
use xmdm.Commands.Delivery.{
  ack_row, takes_ack, reported, update_expired, update_acked, list_recent, list_recent_all,
  get_overview_stats, get, expire_due_of_device, expire_due_command, expire_due_commands,
  list_pending, list_pending_for_device, acknowledge, settled, conclude, result_of,
}
use xmdm.Commands.Lifecycle.{
  IsSound, Request, enqueue_for, recent, recent_all, stats, one, pending, pending_for_device,
  expire_for, acknowledge_as, perform, serve,
}
use xmdm.Commands.Lifecycle.Steps.{reported_closes}

-- The rows' property Q under the four statements that change rows.
pub record IsStable (Q : List CommandRow → Type 0) : Type 0 where
  pub inserted : (cs : List CommandRow) (row : CommandRow) → IsSound row → Q cs → Q (cs ++ row ∷ [])
  pub sent :
      (t : Time) (item : CommandRow) (db : Db)
      → Q db.commands
      → Q (update_sent t item db).1.commands
  pub expired :
      (scope : CommandRow → Bool) (t : Time) (db : Db)
      → Q db.commands
      → Q (update_expired scope t db).1.commands
  pub acked :
      (tenant device id : String) (status : CommandStatus) (result : Json) (t : Time) (db : Db)
      → (is_acked status || is_failed status) ≡ true
      → Q db.commands
      → Q (update_acked (takes_ack tenant device id t) (ack_row status result t) db).1.commands

module _ {Q : List CommandRow → Type 0} (stable : IsStable Q) where
  open stable use {inserted, sent, expired, acked}

  abbrev Stays : {A : Type 0} → Store A → Type 0
  Stays m = Keeps (λ db. Q db.commands) m

  mark_sent-Stays : (item : CommandRow) → Stays (mark_sent item)
  unfolding mark_sent
  mark_sent-Stays item =
      Keeps-bind now _ Keeps-now (λ t. Keeps-exec (update_sent t item) (sent t item))

  publish_item-Stays :
      (takes : Message → Bool) (item : CommandRow) → Stays (publish_item takes item)
  unfolding publish_item
  publish_item-Stays takes item = search (keeps_rules, mark_sent-Stays)

  publish_all-Stays :
      (takes : Message → Bool) (items : List CommandRow) → Stays (publish_all takes items)
  unfolding publish_all
  publish_all-Stays takes [] = search keeps_rules
  publish_all-Stays takes (item ∷ items) =
      Keeps-bind _ _ (publish_item-Stays takes item) (λ _. publish_all-Stays takes items)

  publish_enqueued-Stays :
      (publisher : Option (Message → Bool)) (items : List CommandRow)
      → Stays (publish_enqueued publisher items)
  unfolding publish_enqueued
  publish_enqueued-Stays none items = search keeps_rules
  publish_enqueued-Stays (some takes) items = publish_all-Stays takes items

  insert_row-Stays :
      (id tenant : String) (req : Upsert) (t : Time) (device : String)
      → Stays (tx_exec (insert_row (new_row id tenant req t device)))
  insert_row-Stays id tenant req t device =
      Keeps-tx_exec _ (λ db. inserted db.commands _ (record { acked_iff = refl }))

  insert_commands-Stays :
      (env : Env) (tenant : String) (req : Upsert) (t : Time) (devices : List String)
      → Stays (insert_commands env tenant req t devices)
  unfolding insert_commands
  insert_commands-Stays env tenant req t [] = search keeps_rules
  insert_commands-Stays env tenant req t (device ∷ devices) =
      Keeps-bind _ _ (Keeps-new_uuid env) λ id.
        Keeps-bind _ _ (insert_row-Stays id tenant req t device) λ row.
          Keeps-bind _ _ (insert_commands-Stays env tenant req t devices)
            λ rows. Keeps-pure (row ∷ rows)

  resolve_targets-Stays :
      (tenant : String) (target : Target) → Stays (resolve_targets tenant target)
  unfolding resolve_targets
  resolve_targets-Stays tenant target = search keeps_rules depth 9

  enqueue-Stays : (env : Env) (tenant : String) (req : Upsert) → Stays (enqueue env tenant req)
  unfolding enqueue
  enqueue-Stays env tenant req =
      search (keeps_rules, resolve_targets-Stays, insert_commands-Stays, publish_enqueued-Stays)
        depth 12

  update_expired-Stays :
      (scope : CommandRow → Bool) (t : Time)
      → Stays (exec (update_expired scope t)) × Stays (tx_exec (update_expired scope t))
  update_expired-Stays scope t = (Keeps-exec _ (expired scope t), Keeps-tx_exec _ (expired scope t))

  expire_due_of_device-Stays : (tenant device : String) → Stays (expire_due_of_device tenant device)
  unfolding expire_due_of_device
  expire_due_of_device-Stays tenant device =
      Keeps-bind _ _ Keeps-now λ t. (update_expired-Stays (of_device tenant device) t).0

  expire_due_command-Stays :
      (tenant device id : String) → Stays (expire_due_command tenant device id)
  unfolding expire_due_command
  expire_due_command-Stays tenant device id =
      Keeps-bind _ _ Keeps-now λ t. (update_expired-Stays (of_key tenant device id) t).1

  expire_due_commands-Stays : (tenant : String) → Stays (expire_due_commands tenant)
  unfolding expire_due_commands
  expire_due_commands-Stays tenant =
      Keeps-bind _ _ (Keeps-require _ _)
        λ _. Keeps-bind _ _ Keeps-now λ t. (update_expired-Stays (of_tenant tenant) t).0

  list_recent-Stays : (tenant : String) (page : Params) → Stays (list_recent tenant page)
  unfolding list_recent
  list_recent-Stays tenant page = search keeps_rules

  list_recent_all-Stays : (tenant : String) → Stays (list_recent_all tenant)
  unfolding list_recent_all
  list_recent_all-Stays tenant = search keeps_rules

  get_overview_stats-Stays : (tenant : String) → Stays (get_overview_stats tenant)
  unfolding get_overview_stats
  get_overview_stats-Stays tenant = search keeps_rules

  get-Stays : (tenant id : String) → Stays (get tenant id)
  unfolding get
  get-Stays tenant id = search keeps_rules

  list_pending_for_device-Stays :
      (tenant device : String) → Stays (list_pending_for_device tenant device)
  unfolding list_pending_for_device
  list_pending_for_device-Stays tenant device = search keeps_rules

  list_pending-Stays :
      (tenant device : String) (page : Params) → Stays (list_pending tenant device page)
  unfolding list_pending
  list_pending-Stays tenant device page = search (keeps_rules, expire_due_of_device-Stays) depth 12

  settled-Stays : (o : Option CommandRow) → Stays (settled o)
  unfolding settled
  settled-Stays none = search keeps_rules
  settled-Stays (some c) = search keeps_rules

  conclude-Stays :
      (tenant device id : String) (changed : Option CommandRow)
      → Stays (conclude tenant device id changed)
  unfolding conclude
  conclude-Stays tenant device id none =
      Keeps-bind _ _ (Keeps-tx_query _) λ existing. settled-Stays existing
  conclude-Stays tenant device id (some row) = search keeps_rules

  acknowledge-Stays :
      (tenant device id : String) (req : Ack) → Stays (acknowledge tenant device id req)
  unfolding acknowledge
  acknowledge-Stays tenant device id req = Keeps-bind _ _ (Keeps-require _ _) λ _.
      Keeps-found_bind (reported req.status) _ _ λ status yes. Keeps-bind _ _ Keeps-now λ t.
        Keeps-bind _ _ Keeps-begin_tx λ _.
          Keeps-bind _ _ (expire_due_command-Stays tenant device id) λ _.
            Keeps-bind _ _
              (Keeps-tx_exec _ λ db.
                acked tenant device id status (result_of req) t db
                  (reported_closes req.status status yes))
              λ changed. conclude-Stays tenant device id changed

  discard-Stays : {A : Type 0} (m : Store A) → Stays m → Stays (do m; pure tt)
  discard-Stays m k = Keeps-bind _ _ k λ _. Keeps-pure tt

  pub perform-Stays : (env : Env) (r : Request) → Stays (perform env r)
  unfolding perform
  perform-Stays env (enqueue_for tenant req) = discard-Stays _ (enqueue-Stays env tenant req)
  perform-Stays env (recent tenant page) = discard-Stays _ (list_recent-Stays tenant page)
  perform-Stays env (recent_all tenant) = discard-Stays _ (list_recent_all-Stays tenant)
  perform-Stays env (stats tenant) = discard-Stays _ (get_overview_stats-Stays tenant)
  perform-Stays env (one tenant id) = discard-Stays _ (get-Stays tenant id)
  perform-Stays env (pending tenant device page) =
      discard-Stays _ (list_pending-Stays tenant device page)
  perform-Stays env (pending_for_device tenant device) =
      discard-Stays _ (list_pending_for_device-Stays tenant device)
  perform-Stays env (expire_for tenant) = discard-Stays _ (expire_due_commands-Stays tenant)
  perform-Stays env (acknowledge_as tenant device id req) =
      discard-Stays _ (acknowledge-Stays tenant device id req)

  pub serve-Stays :
      (env : Env) (rs : List Request) (s : Sys)
      → Holds (λ db. Q db.commands) s
      → Holds (λ db. Q db.commands) (serve env rs s)
  unfolding serve
  serve-Stays env [] s h = h
  serve-Stays env (r ∷ rs) s h = serve-Stays env rs _ ((perform-Stays env r).at s h)
