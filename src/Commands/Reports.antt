-- ===== src/Commands/Reports.antt =====
-- What `Acknowledge` of server/internal/commands/postgres/store.go does on each of its branches.
pub mod Promise
use xmdm.Common.{
  ◌≡◌, refl, ap, ◌∙◌, List, [], ◌∷◌, String, Bool, true, false, ◌||◌, ◌&&◌, ltb, leb, Option, none,
  some, if◌then◌else◌, Bool-cases, Option-cases, inl, inr, find_if, str_eq, arith, subst, fun_ext,
}
use xmdm.Common.Json.{Json}
use xmdm.Database.Rows.{
  Time, Db, CommandRow, CommandStatus, queued, sent, delivered, acked, failed, expired, unknown,
}
use xmdm.Database.{
  not_found, Result, ok, err, ◌>>=◌, calm, raise, pure, tx_query, tx_exec, begin_tx, commit, now,
  require, found, step, attempt, advance,
}
use xmdm.Database.Query.{update_where}
use xmdm.Commands.{Ack, is_open, is_live, is_due, of_key}
use xmdm.Commands.Delivery.{
  acknowledge, conclude, settled, reported, takes_ack, ack_row, result_of, expires, expire_row,
  expire_due_command,
}
use xmdm.Commands.Reports.Promise.{
  is_of, awaits_report, has_lapsed, may_take, has_run_out, kept_by, kept_answer, with_report,
  run_out, acknowledged,
}

open_and_live :
    (s : CommandStatus) (t : Time) (e : Option Time)
    → (is_open s && is_live e t) ≡ awaits_report t s e
open_and_live queued t none = refl
open_and_live queued t (some e) = refl
open_and_live sent t none = refl
open_and_live sent t (some e) = refl
open_and_live delivered t e = refl
open_and_live acked t e = refl
open_and_live failed t e = refl
open_and_live expired t e = refl
open_and_live unknown t e = refl

open_and_due :
    (s : CommandStatus) (t : Time) (e : Option Time) → (is_open s && is_due e t) ≡ has_lapsed t s e
open_and_due queued t none = refl
open_and_due queued t (some e) = refl
open_and_due sent t none = refl
open_and_due sent t (some e) = refl
open_and_due delivered t e = refl
open_and_due acked t e = refl
open_and_due failed t e = refl
open_and_due expired t e = refl
open_and_due unknown t e = refl

and_and : (a b c : Bool) → (a && b && c) ≡ (a && (b && c))
and_and a b c = ground arith

kept_answer-if :
    (b : Bool) (x y : CommandRow) (p q : Option CommandRow)
    → kept_answer (some x) ≡ kept_answer (some y)
    → kept_answer p ≡ kept_answer q
    → kept_answer (if b then some x else p) ≡ kept_answer (if b then some y else q)
kept_answer-if true x y p q h k = h
kept_answer-if false x y p q h k = k

module _ (tenant device id : String) (t : Time) where
  abbrev expire_if : CommandRow → CommandRow
  expire_if c = if expires (of_key tenant device id) t c then expire_row t c else c

  abbrev expire_all : List CommandRow → List CommandRow
  expire_all cs = update_where (expires (of_key tenant device id) t) (expire_row t) cs

  takes_ack-expire_if :
      (c : CommandRow) → takes_ack tenant device id t (expire_if c) ≡ takes_ack tenant device id t c
  takes_ack-expire_if c = ground arith

  expire_if-takes_ack : (c : CommandRow) → takes_ack tenant device id t c ≡ true → expire_if c ≡ c
  expire_if-takes_ack c h = ground arith

  find_if-expired :
      (cs : List CommandRow)
      → find_if (takes_ack tenant device id t) (expire_all cs)
        ≡ find_if (takes_ack tenant device id t) cs
  unfolding update_where
  find_if-expired [] = refl
  find_if-expired (c ∷ cs) =
      rw (takes_ack-expire_if c, find_if-expired cs)
        (elim (Bool-cases (takes_ack tenant device id t c)) [
          | inl yes' ↦ rw (yes', expire_if-takes_ack c yes') refl
          | inr no' ↦ rw no' refl
        ])

  of_key-expire_if :
      (c : CommandRow) → of_key tenant device id (expire_if c) ≡ of_key tenant device id c
  of_key-expire_if c = ground arith

  kept_answer-expire_if : (c : CommandRow) → kept_answer (some (expire_if c)) ≡ kept_answer (some c)
  kept_answer-expire_if c = ground arith

  kept_answer-expired :
      (cs : List CommandRow)
      → kept_answer (find_if (of_key tenant device id) (expire_all cs))
        ≡ kept_answer (find_if (of_key tenant device id) cs)
  unfolding update_where
  kept_answer-expired [] = refl
  kept_answer-expired (c ∷ cs) = rw (of_key-expire_if c) (
      kept_answer-if (of_key tenant device id c) (expire_if c) c _ _ (kept_answer-expire_if c)
        (kept_answer-expired cs))

  conclude-none :
      (d w : Db)
      → ((conclude tenant device id none (record (calm d t) { work = w })).0
          ≡ kept_answer (find_if (of_key tenant device id) w.commands))
        × ((conclude tenant device id none (record (calm d t) { work = w })).1.db ≡ d)
  unfolding conclude settled ◌>>=◌ tx_query step attempt raise pure
  conclude-none d w = elim (Option-cases (find_if (of_key tenant device id) w.commands)) [
    | inl absent ↦ rw absent (refl, refl)
    | inr there ↦ rw there.1 (ground arith)
  ]

update_where-none :
    (p : CommandRow → Bool) (f : CommandRow → CommandRow) (cs : List CommandRow)
    → find_if p cs ≡ none
    → update_where p f cs ≡ cs
unfolding update_where
update_where-none p f [] h = refl
update_where-none p f (c ∷ cs) h = elim (Bool-cases (p c)) [
  | inl yes' ↦ absurd (ground (arith, yes'))
  | inr no' ↦ rw no' (ap (◌∷◌ c) (update_where-none p f cs (ground (arith, no'))))
]

-- A report that fits no row is answered by the row that was there.
conclude_unfit :
    (tenant device id : String) (t : Time) (d : Db) (cs : List CommandRow)
    → cs ≡ expire_all tenant device id t d.commands
    → ((conclude tenant device id none (record (calm d t) { work = record d { commands = cs } })).0
        ≡ kept_answer (find_if (of_key tenant device id) d.commands))
      × ((conclude tenant device id none
            (record (calm d t) { work = record d { commands = cs } })).1.db
          ≡ d)
conclude_unfit tenant device id t d cs same =
    let answer = conclude-none tenant device id t d (record d { commands = cs }) in
    let kept =
      ap (λ x. kept_answer (find_if (of_key tenant device id) x)) same
      ∙ kept_answer-expired tenant device id t d.commands in
    (answer.0 ∙ kept, answer.1)

module _ (tenant device id : String) (t : Time) where
  -- The code's conditions are the ones that are written out above.
  takes_ack-may_take : takes_ack tenant device id t ≡ may_take tenant device id t
  takes_ack-may_take = fun_ext λ c.
      and_and (of_key tenant device id c) (is_open c.status) (is_live c.expires_at t)
      ∙ ap (λ b. of_key tenant device id c && b) (open_and_live c.status t c.expires_at)

  expires-has_run_out : expires (of_key tenant device id) t ≡ has_run_out tenant device id t
  expires-has_run_out = fun_ext λ c.
      and_and (of_key tenant device id c) (is_open c.status) (is_due c.expires_at t)
      ∙ ap (λ b. of_key tenant device id c && b) (open_and_due c.status t c.expires_at)

-- What a report does, for a test of the rows that take it and one of those that expire.
abbrev acted :
    (CommandRow → Bool)
    → (CommandRow → Bool)
    → String
    → String
    → String
    → Time
    → CommandStatus
    → Json
    → Db
    → Result CommandRow × Db
acted fits lapses tenant device id t status result d = elim (find_if fits d.commands) [
  | none ↦ (kept_answer (find_if (is_of tenant device id) d.commands), d)
  | some c ↦ (
    ok (with_report status result t c),
    record d {
      commands =
          update_where fits (with_report status result t)
            (update_where lapses (run_out t) d.commands);
    },
  )
]

acknowledge-acted :
    (tenant device id : String) (req : Ack) (status : CommandStatus) (d : Db) (t : Time)
    → (str_eq tenant "" || str_eq device "" || str_eq id "" || str_eq req.status "") ≡ false
    → reported req.status ≡ some status
    → (let after =
          acted
            (takes_ack tenant device id t)
            (expires (of_key tenant device id) t)
            tenant
            device
            id
            t
            status
            (result_of req)
            d in
        ((acknowledge tenant device id req (calm d t)).0 ≡ after.0)
        × ((acknowledge tenant device id req (calm d t)).1.db ≡ after.1))
unfolding acknowledge ◌>>=◌ now begin_tx commit require found advance expire_due_command tx_exec
    pure step attempt conclude update_where
acknowledge-acted tenant device id req status d t valid known =
    let same = find_if-expired tenant device id t d.commands in
    elim (Option-cases (find_if (takes_ack tenant device id t) d.commands)) [
      | inl absent ↦
          rw (valid, known, same ∙ absent, acted, absent)
            (conclude_unfit tenant device id t d _
              (update_where-none _ (ack_row status (result_of req) t) _ (same ∙ absent)))
      | inr there ↦ rw (valid, known, same ∙ there.1, acted, there.1) (refl, refl)
    ]

-- A report with a tenant, device, id and known status, where no statement fails and the clock
-- stands still: `Acknowledge` answers, and leaves the committed tables, as `acknowledged` says: a
-- command of that key that is queued or sent and before its expiry takes the report, and otherwise
-- nothing changes, an acked or failed one is given back, and any other, an expired one too, is not
-- found.
pub acknowledge-acknowledged :
    (tenant device id : String) (req : Ack) (status : CommandStatus) (d : Db) (t : Time)
    → (str_eq tenant "" || str_eq device "" || str_eq id "" || str_eq req.status "") ≡ false
    → reported req.status ≡ some status
    → ((acknowledge tenant device id req (calm d t)).0
        ≡ (acknowledged tenant device id t status (result_of req) d).0)
      × ((acknowledge tenant device id req (calm d t)).1.db
          ≡ (acknowledged tenant device id t status (result_of req) d).1)
acknowledge-acknowledged tenant device id req status d t valid known =
    subst
      (λ (tests : (CommandRow → Bool) × (CommandRow → Bool)).
        (let after = acted tests.0 tests.1 tenant device id t status (result_of req) d in
          ((acknowledge tenant device id req (calm d t)).0 ≡ after.0)
          × ((acknowledge tenant device id req (calm d t)).1.db ≡ after.1)))
      (cc (takes_ack-may_take tenant device id t, expires-has_run_out tenant device id t))
      (acknowledge-acted tenant device id req status d t valid known)
