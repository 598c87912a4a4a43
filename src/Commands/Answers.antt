-- ===== src/Commands/Answers.antt =====
-- What the operations of the queue answer.
use xmdm.Common.{
  ℕ, ◌+◌, suc, ◌≤◌, ◌<◌, ltb→lt, subst, eq_iff, and_parts, ◌&&◌, ◌≡◌, refl, List, [], ◌∷◌, ◌++◌,
  append_assoc, append-nil, String, true, false, ◌||◌, Option, none, some, All, All-take, All-drop,
  drop, length, length-take-le, keep_if, str_eq, arith,
}
use xmdm.Common.Int.{pos, pos_part}
use xmdm.Common.Json.{Json, obj, end}
use xmdm.Pagination.{Params, default_limit, normalize}
use xmdm.Pagination.Bounds.{IsBounded, normalize-IsBounded}
use xmdm.Database.Rows.{
  Time, Db, CommandRow, CommandStatus, queued, sent, delivered, acked, failed, expired, unknown,
}
use xmdm.Database.{
  ok, Env, new_uuid, tx_exec, step, attempt, now, begin_tx, commit, require, advance, Sys, ◌>>=◌,
  calm, pure, commit,
}
use xmdm.Database.Query.{slice, order_by, All-order_by, All-keep_if}
use xmdm.Database.Triples.{
  Triple, Triple-bind, Triple-any, Triple-now, Triple-query, Triple-returned,
}
use xmdm.Commands.{Upsert, is_open, is_live, of_device, oldest_first}
use xmdm.Commands.Targets.{resolve_targets}
use xmdm.Commands.Queue.{publish_enqueued, insert_commands, enqueue}
use xmdm.Commands.Delivery.{list_pending, is_pending}

-- Queued or sent.
abbrev pub IsOpen : CommandStatus → Type 0
IsOpen queued = Unit
IsOpen sent = Unit
IsOpen _ = ⊥

-- It has no expiry, or one that comes after the time.
abbrev pub IsAhead : Time → Option Time → Type 0
IsAhead t none = Unit
IsAhead t (some e) = t < e

-- A command that the device may still be shown at the time.
pub record IsShowable (tenant device : String) (t : Time) (c : CommandRow) : Type 0 where
  pub of_tenant : c.tenant_id ≡ tenant
  pub of_device : c.device_id ≡ device
  pub is_open : IsOpen c.status
  pub is_ahead : IsAhead t c.expires_at

-- A list of at most 100 of these.
abbrev pub IsPendingPage : String → String → Time → List CommandRow → Type 0
IsPendingPage tenant device t rows = All (IsShowable tenant device t) rows × (length rows ≤ 100)

open_status : (s : CommandStatus) → is_open s ≡ true → IsOpen s
open_status queued h = tt
open_status sent h = tt
open_status delivered h = absurd (ground arith)
open_status acked h = absurd (ground arith)
open_status failed h = absurd (ground arith)
open_status expired h = absurd (ground arith)
open_status unknown h = absurd (ground arith)

live_expiry : (t : Time) (e : Option Time) → is_live e t ≡ true → IsAhead t e
live_expiry t none h = tt
live_expiry t (some e) h = ltb→lt t e h

is_pending-IsShowable :
    (tenant device : String) (t : Time) (c : CommandRow)
    → is_pending tenant device t c ≡ true
    → IsShowable tenant device t c
is_pending-IsShowable tenant device t c h =
    let outer =
      and_parts (of_device tenant device c && is_open c.status) (is_live c.expires_at t) h in
    let inner = and_parts (of_device tenant device c) (is_open c.status) outer.0 in
    let key = and_parts (str_eq c.tenant_id tenant) (str_eq c.device_id device) inner.0 in
    record {
      of_tenant = (eq_iff c.tenant_id tenant).0 key.0;
      of_device = (eq_iff c.device_id device).0 key.1;
      is_open = open_status c.status inner.1;
      is_ahead = live_expiry t c.expires_at outer.1;
    }

All-map :
    (P Q : CommandRow → Type 0) (rows : List CommandRow)
    → ((c : CommandRow) → P c → Q c)
    → All P rows
    → All Q rows
All-map P Q [] k h = tt
All-map P Q (c ∷ rows) k h = (k c h.0, All-map P Q rows k h.1)

IsPendingPage-slice :
    (tenant device : String) (page : Params) (t : Time) (rows : List CommandRow)
    → IsPendingPage tenant device t (
        slice
          (normalize page default_limit (pos 100))
          (order_by oldest_first (keep_if (is_pending tenant device t) rows)))
IsPendingPage-slice tenant device page t rows =
    let p = normalize page default_limit (pos 100) in
    let bounded : IsBounded p 100 = normalize-IsBounded page default_limit 100 (omega arith) in
    let passing : (c : CommandRow) → Type 0 = IsShowable tenant device t in
    let kept = keep_if (is_pending tenant device t) rows in
    let all = All-order_by passing oldest_first kept (
      All-map _ passing kept (is_pending-IsShowable tenant device t)
        (All-keep_if (is_pending tenant device t) rows)) in
    let short =
      length-take-le (pos_part p.limit) (drop (pos_part p.offset) (order_by oldest_first kept)) in
    (
      All-take passing (pos_part p.limit) _ (All-drop passing (pos_part p.offset) _ all),
      omega (arith, short, bounded.limit_le),
    )

Triple-list_pending :
    (tenant device : String) (page : Params)
    → Triple
        (λ s. Unit {0})
        (list_pending tenant device page)
        (λ rows s. IsPendingPage tenant device s.clock rows)
        (λ s. Unit {0})
unfolding list_pending
Triple-list_pending tenant device page =
    Triple-bind _ _ (λ _ s. Unit {0}) (Triple-any _)
      λ _.
        Triple-bind _ _ (λ _ s. Unit {0}) (Triple-any _)
          λ _.
            Triple-bind _ _ (λ (t : Time) (s : Sys). t ≡ s.clock)
              (Triple-now _ (λ s t ticks h. refl))
              λ t.
                Triple-query _ (λ s fs h. tt)
                  λ s fs h.
                    subst
                      (λ u. IsPendingPage tenant device u (
                        slice (normalize page default_limit (pos 100)) (
                          order_by oldest_first
                            (keep_if (is_pending tenant device t) s.db.commands))))
                      h (IsPendingPage-slice tenant device page t s.db.commands)

-- What `ListPending` returns, in any state and whichever statements fail, is at most 100 commands
-- of that tenant and device, each queued or sent, and each without an expiry or with one after the
-- time that the clock shows when it returns.
pub list_pending-shows :
    (tenant device : String) (page : Params) (s : Sys) (rows : List CommandRow)
    → (list_pending tenant device page s).0 ≡ ok rows
    → IsPendingPage tenant device (list_pending tenant device page s).1.clock rows
list_pending-shows tenant device page s rows returned =
    Triple-returned _ (Triple-list_pending tenant device page) s rows tt returned

abbrev payload_or_empty : Option Json → Json
payload_or_empty none = obj end
payload_or_empty (some payload) = payload

-- A command as it is promised to a device: queued, with the type, the payload (an empty object where
-- there is none) and the expiry of the request, no report, and the time it was asked for.
abbrev pub queued_for : String → String → String → Upsert → Time → CommandRow
queued_for id tenant device req t = record {
  id = id;
  tenant_id = tenant;
  device_id = device;
  type = req.type;
  payload = payload_or_empty req.payload;
  status = queued;
  expires_at = req.expires_at;
  acked_at = none;
  result = obj end;
  created_at = t;
  updated_at = t;
}

-- The commands that are promised to devices, the n-th random id being drawn next.
abbrev pub rows_for : Env → String → Upsert → Time → ℕ → List String → List CommandRow
rows_for env tenant req t n [] = []
rows_for env tenant req t n (device ∷ devices) =
    queued_for (env.uuid n) tenant device req t ∷ rows_for env tenant req t (suc n) devices

-- The state within a transaction, with no failure ahead and the clock at `t`.
abbrev within : Db → Db → Time → ℕ → Sys
within d w t n = record (calm d t) { work = w; drawn = n }

abbrev pub add_rows : List CommandRow → Db → Db
add_rows rows w = record w { commands = w.commands ++ rows }

insert_commands_lem :
    (env : Env) (tenant : String) (req : Upsert) (t : Time) (devices : List String) (d w : Db)
    (n : ℕ)
    → insert_commands env tenant req t devices (within d w t n) ≡ (
      ok (rows_for env tenant req t n devices),
      within d (add_rows (rows_for env tenant req t n devices) w) t (n + length devices),
    )
unfolding insert_commands ◌>>=◌ new_uuid tx_exec pure step attempt
insert_commands_lem env tenant req t [] d w n =
    let none_drawn : n + 0 ≡ n = omega arith in rw (append-nil w.commands, none_drawn) refl
insert_commands_lem env tenant req t (device ∷ devices) d w n =
    let row = queued_for (env.uuid n) tenant device req t in
    let drawn : suc n + length devices ≡ n + suc (length devices) = omega arith in
    rw (insert_commands_lem env tenant req t devices d (add_rows (row ∷ []) w) (suc n)) (
      rw (append_assoc w.commands (row ∷ []) (rows_for env tenant req t (suc n) devices), drawn)
        refl)

-- A request with a tenant and a type, whose targets are found and are not none, on a system without
-- a publisher where no statement fails and the clock stands still: `Enqueue` returns one new queued
-- command for each target, in the targets' order, and the committed table is the old one with
-- these rows behind it.
pub enqueue-rows :
    (env : Env) (tenant : String) (req : Upsert) (d : Db) (t : Time) (device : String)
    (devices : List String)
    → env.publisher ≡ none
    → (str_eq tenant "" || str_eq req.type "") ≡ false
    → resolve_targets tenant req.target (calm d t) ≡ (ok (device ∷ devices), calm d t)
    → ((enqueue env tenant req (calm d t)).0 ≡ ok (rows_for env tenant req t 0 (device ∷ devices)))
      × ((enqueue env tenant req (calm d t)).1.db
          ≡ add_rows (rows_for env tenant req t 0 (device ∷ devices)) d)
unfolding enqueue ◌>>=◌ now begin_tx commit require advance publish_enqueued pure step attempt
enqueue-rows env tenant req d t device devices silent valid targets =
    rw (valid, targets, insert_commands_lem env tenant req t (device ∷ devices) d d 0, silent)
      (refl, refl)
