-- ===== src/Commands/Failures.antt =====
-- What a request that fails leaves of the committed tables.
use xmdm.Common.{List, [], ◌∷◌, ◌≡◌, String, Bool, true, false, Option, none, some, arith}
use xmdm.Pagination.{Params}
use xmdm.Database.Rows.{Time, CommandRow}
use xmdm.Database.{Error, err, Message, Env, Sys}
use xmdm.Database.Never.{NeverFails, NeverFails-bind, never_rules}
use xmdm.Database.Atomic.{
  IsQuiet, IsAtomic, quiet_rules, atomic_rules, IsQuiet-bind, IsQuiet-tx_exec, IsQuiet-now,
  IsQuiet-pure, IsQuiet-new_uuid, IsAtomic-bind, IsQuiet-found, IsQuiet-require,
  IsAtomic-of_IsQuiet, IsAtomic-commit_then, IsAtomic-then_pure, IsQuiet-begin_tx, IsAtomic-exec,
  IsQuiet-tx_query, IsAtomic-commit,
}
use xmdm.Commands.{Upsert, Ack, Target}
use xmdm.Commands.Targets.{resolve_targets}
use xmdm.Commands.Queue.{
  publish_item, publish_all, publish_enqueued, insert_commands, enqueue, is_nonempty,
}
use xmdm.Commands.Delivery.{
  list_recent, list_recent_all, get_overview_stats, get, expire_due_command, expire_due_commands,
  list_pending_for_device, acknowledge, conclude, settled,
}
use xmdm.Commands.Lifecycle.{
  Request, enqueue_for, recent, recent_all, stats, one, pending, pending_for_device, expire_for,
  acknowledge_as, perform,
}

NeverFails-publish_item :
    (takes : Message → Bool) (item : CommandRow) → NeverFails (publish_item takes item)
unfolding publish_item
NeverFails-publish_item takes item = search never_rules

NeverFails-publish_all :
    (takes : Message → Bool) (items : List CommandRow) → NeverFails (publish_all takes items)
unfolding publish_all
NeverFails-publish_all takes [] = search never_rules
NeverFails-publish_all takes (item ∷ items) =
    NeverFails-bind _ _ (NeverFails-publish_item takes item) λ _. NeverFails-publish_all takes items

NeverFails-publish_enqueued :
    (publisher : Option (Message → Bool)) (items : List CommandRow)
    → NeverFails (publish_enqueued publisher items)
unfolding publish_enqueued
NeverFails-publish_enqueued none items = search never_rules
NeverFails-publish_enqueued (some takes) items = NeverFails-publish_all takes items

IsQuiet-insert_commands :
    (env : Env) (tenant : String) (req : Upsert) (t : Time) (devices : List String)
    → IsQuiet (insert_commands env tenant req t devices)
unfolding insert_commands
IsQuiet-insert_commands env tenant req t [] = search quiet_rules
IsQuiet-insert_commands env tenant req t (device ∷ devices) =
    IsQuiet-bind _ _ (IsQuiet-new_uuid env) λ id. IsQuiet-bind _ _ (IsQuiet-tx_exec _) λ row.
      IsQuiet-bind _ _ (IsQuiet-insert_commands env tenant req t devices)
        λ rows. IsQuiet-pure (row ∷ rows)

IsQuiet-resolve_targets :
    (tenant : String) (target : Target) → IsQuiet (resolve_targets tenant target)
unfolding resolve_targets
IsQuiet-resolve_targets tenant target = search quiet_rules depth 9

IsAtomic-enqueue : (env : Env) (tenant : String) (req : Upsert) → IsAtomic (enqueue env tenant req)
unfolding enqueue
IsAtomic-enqueue env tenant req = IsAtomic-bind _ _ (IsQuiet-require _ _) λ _.
    IsAtomic-bind _ _ IsQuiet-now λ t.
      IsAtomic-bind _ _ (IsQuiet-resolve_targets tenant req.target) λ targets.
        IsAtomic-bind _ _ IsQuiet-begin_tx λ _.
          IsAtomic-bind _ _ (IsQuiet-insert_commands env tenant req t targets) λ rows.
            IsAtomic-bind _ _ (IsQuiet-require (is_nonempty rows) _)
              λ _. IsAtomic-commit_then _ (search (never_rules, NeverFails-publish_enqueued))

IsQuiet-settled : (o : Option CommandRow) → IsQuiet (settled o)
unfolding settled
IsQuiet-settled none = search quiet_rules
IsQuiet-settled (some c) = search quiet_rules

IsAtomic-conclude :
    (tenant device id : String) (changed : Option CommandRow)
    → IsAtomic (conclude tenant device id changed)
unfolding conclude
IsAtomic-conclude tenant device id none =
    IsAtomic-bind _ _ (IsQuiet-tx_query _)
      λ existing. IsAtomic-of_IsQuiet _ (IsQuiet-settled existing)
IsAtomic-conclude tenant device id (some row) = IsAtomic-commit row

IsQuiet-expire_due_command :
    (tenant device id : String) → IsQuiet (expire_due_command tenant device id)
unfolding expire_due_command
IsQuiet-expire_due_command tenant device id = search quiet_rules

IsAtomic-acknowledge :
    (tenant device id : String) (req : Ack) → IsAtomic (acknowledge tenant device id req)
unfolding acknowledge
IsAtomic-acknowledge tenant device id req = IsAtomic-bind _ _ (IsQuiet-require _ _) λ _.
    IsAtomic-bind _ _ (IsQuiet-found _ _) λ status. IsAtomic-bind _ _ IsQuiet-now λ t.
      IsAtomic-bind _ _ IsQuiet-begin_tx λ _.
        IsAtomic-bind _ _ (IsQuiet-expire_due_command tenant device id) λ _.
          IsAtomic-bind _ _ (IsQuiet-tx_exec _)
            λ changed. IsAtomic-conclude tenant device id changed

IsAtomic-list_recent : (tenant : String) (page : Params) → IsAtomic (list_recent tenant page)
unfolding list_recent
IsAtomic-list_recent tenant page = search atomic_rules

IsAtomic-list_recent_all : (tenant : String) → IsAtomic (list_recent_all tenant)
unfolding list_recent_all
IsAtomic-list_recent_all tenant = search atomic_rules

IsAtomic-get_overview_stats : (tenant : String) → IsAtomic (get_overview_stats tenant)
unfolding get_overview_stats
IsAtomic-get_overview_stats tenant = search atomic_rules

IsAtomic-get : (tenant id : String) → IsAtomic (get tenant id)
unfolding get
IsAtomic-get tenant id = search atomic_rules

IsAtomic-list_pending_for_device :
    (tenant device : String) → IsAtomic (list_pending_for_device tenant device)
unfolding list_pending_for_device
IsAtomic-list_pending_for_device tenant device = search atomic_rules

IsAtomic-expire_due_commands : (tenant : String) → IsAtomic (expire_due_commands tenant)
unfolding expire_due_commands
IsAtomic-expire_due_commands tenant =
    IsAtomic-bind _ _ (IsQuiet-require _ _) λ _. IsAtomic-bind _ _ IsQuiet-now λ t. IsAtomic-exec _

abbrev pub expires_first : Request → Bool
expires_first (pending tenant device page) = true
expires_first _ = false

perform-IsAtomic : (env : Env) (r : Request) → expires_first r ≡ false → IsAtomic (perform env r)
unfolding perform
perform-IsAtomic env (enqueue_for tenant req) h =
    IsAtomic-then_pure _ tt (IsAtomic-enqueue env tenant req)
perform-IsAtomic env (recent tenant page) h =
    IsAtomic-then_pure _ tt (IsAtomic-list_recent tenant page)
perform-IsAtomic env (recent_all tenant) h =
    IsAtomic-then_pure _ tt (IsAtomic-list_recent_all tenant)
perform-IsAtomic env (stats tenant) h = IsAtomic-then_pure _ tt (IsAtomic-get_overview_stats tenant)
perform-IsAtomic env (one tenant id) h = IsAtomic-then_pure _ tt (IsAtomic-get tenant id)
perform-IsAtomic env (pending tenant device page) h = absurd (ground arith)
perform-IsAtomic env (pending_for_device tenant device) h =
    IsAtomic-then_pure _ tt (IsAtomic-list_pending_for_device tenant device)
perform-IsAtomic env (expire_for tenant) h =
    IsAtomic-then_pure _ tt (IsAtomic-expire_due_commands tenant)
perform-IsAtomic env (acknowledge_as tenant device id req) h =
    IsAtomic-then_pure _ tt (IsAtomic-acknowledge tenant device id req)

-- A request other than `ListPending`, which commits its expiry before it reads, leaves the
-- committed tables as they were if it fails, whichever statement failed and for whatever reason.
pub perform-rolls_back :
    (env : Env) (r : Request) (s : Sys) (e : Error)
    → expires_first r ≡ false
    → (perform env r s).0 ≡ err e
    → (perform env r s).1.db ≡ s.db
perform-rolls_back env r s e h failed = (perform-IsAtomic env r h).at s e failed
