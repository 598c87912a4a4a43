-- ===== src/Commands/Lifecycle/History.antt =====
-- What any sequence of requests makes of the commands of server/internal/commands/postgres/store.go.
use xmdm.Common.{List, ◌∷◌, [], ◌≡◌, sym, subst, Bool, ◌&&◌, All, All-append, true, false, arith}
use xmdm.Database.Rows.{Db, CommandRow}
use xmdm.Database.{Env, Sys}
use xmdm.Commands.Queue.{mark_sent_row}
use xmdm.Commands.Delivery.{expires, expire_row, takes_ack, ack_row}
use xmdm.Commands.Lifecycle.{Evolves, IsSound, Request, serve}
use xmdm.Commands.Lifecycle.Keeps.{IsStable, serve-Stays}
use xmdm.Commands.Lifecycle.Steps.{
  RowStep-sent, RowStep-expired, RowStep-acked, Evolves-refl, Evolves-append, Evolves-update_where,
  All-update_where, expires-open, takes_ack-open, IsSound-sent, IsSound-expired,
}

and_right : (a b : Bool) → (a && b) ≡ true → b ≡ true
and_right true b h = h
and_right false b h = absurd (ground arith)

Evolves-IsStable : (old : List CommandRow) → IsStable (Evolves old)
Evolves-IsStable old = record {
  inserted = λ cs row sound h. Evolves-append old cs row h;
  sent = λ t item db h.
      Evolves-update_where old db.commands _ (mark_sent_row t)
        (λ d fits. RowStep-sent d t (and_right _ _ fits)) h;
  expired = λ scope t db h.
      Evolves-update_where old db.commands (expires scope t) (expire_row t)
        (λ d fits. RowStep-expired d t (expires-open scope t d fits)) h;
  acked = λ tenant device id status result t db closes h.
      Evolves-update_where old db.commands (takes_ack tenant device id t) (ack_row status result t)
        (λ d fits.
          RowStep-acked d status result t (takes_ack-open tenant device id t d fits) closes)
        h;
}

All-IsSound-IsStable : IsStable (All IsSound)
All-IsSound-IsStable = record {
  inserted = λ cs row sound h. All-append IsSound cs (row ∷ []) h (sound, tt);
  sent = λ t item db h.
      All-update_where IsSound db.commands _ (mark_sent_row t)
        (λ d fits. IsSound-sent d t (and_right _ _ fits)) h;
  expired = λ scope t db h.
      All-update_where IsSound db.commands (expires scope t) (expire_row t)
        (λ d fits. IsSound-expired d t (expires-open scope t d fits)) h;
  acked = λ tenant device id status result t db closes h.
      All-update_where IsSound db.commands (takes_ack tenant device id t) (ack_row status result t)
        (λ d fits sound. record { acked_iff = sym closes }) h;
}

-- From a state whose working copy is the committed tables, whatever requests are made, in whatever
-- order, whichever of their statements fail and however the clock moves: each row of the table of
-- commands that was there keeps its place, its id, tenant, device, type, payload, expiry and time
-- of creation; its status is the same, or went from queued to sent, from queued or sent to expired,
-- or from queued or sent to acked or failed; and a row that was not queued or sent is the same as
-- before.
pub serve-Evolves :
    (env : Env) (rs : List Request) (s : Sys)
    → s.work ≡ s.db
    → Evolves s.db.commands (serve env rs s).db.commands
serve-Evolves env rs s same =
    (serve-Stays (Evolves-IsStable s.db.commands) env rs s (record {
      at_db = Evolves-refl s.db.commands;
      at_work =
          subst (λ (d : Db). Evolves s.db.commands d.commands) (sym same)
            (Evolves-refl s.db.commands);
    })).at_db

-- Whatever requests are made of a store whose committed table and working copy are sound, and
-- whichever statements fail: a command has a time of acknowledgement exactly if its status is
-- acked or failed.
pub serve-IsSound :
    (env : Env) (rs : List Request) (s : Sys)
    → All IsSound s.db.commands
    → All IsSound s.work.commands
    → All IsSound (serve env rs s).db.commands
serve-IsSound env rs s at_db at_work =
    (serve-Stays All-IsSound-IsStable env rs s (record { at_db = at_db; at_work = at_work })).at_db
