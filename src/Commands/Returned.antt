-- ===== src/Commands/Returned.antt =====
-- The command that `Acknowledge` of server/internal/commands/postgres/store.go returns.
use xmdm.Common.{
  ◌≡◌, List, [], ◌∷◌, String, Bool, true, ◌||◌, Option, none, some, Bool-cases, inl, inr, find_if,
  arith,
}
use xmdm.Common.Json.{Json}
use xmdm.Database.Rows.{Time, CommandRow, CommandStatus}
use xmdm.Database.{not_found, ok, Sys}
use xmdm.Database.Query.{returning}
use xmdm.Database.Yields.{
  Yields, Yields-pure, Yields-raise, Yields-tx_query, Yields-tx_exec, Yields-if, Yields-bind,
  Yields-bind_with, Yields-found,
}
use xmdm.Commands.{Ack, is_acked, is_failed, of_key}
use xmdm.Commands.Delivery.{acknowledge, conclude, settled, reported, takes_ack, ack_row, result_of}
use xmdm.Commands.Lifecycle.Steps.{reported_closes}

-- A row that a device asked for by its key, reported on.
abbrev IsReported : String → String → String → CommandRow → Type 0
IsReported tenant device id c =
    (of_key tenant device id c ≡ true) × ((is_acked c.status || is_failed c.status) ≡ true)

-- The row of an option, if there is one, passes the test.
abbrev Passes : (CommandRow → Bool) → Option CommandRow → Type 0
Passes p none = Unit
Passes p (some c) = p c ≡ true

find_if-Passes : (p : CommandRow → Bool) (rows : List CommandRow) → Passes p (find_if p rows)
find_if-Passes p [] = tt
find_if-Passes p (a ∷ rows) = elim (Bool-cases (p a)) [
  | inl passes ↦ rw passes passes
  | inr fails ↦ rw fails (find_if-Passes p rows)
]

abbrev Reported : String → String → String → Option CommandRow → Type 0
Reported tenant device id none = Unit
Reported tenant device id (some c) = IsReported tenant device id c

Reported-changed :
    (tenant device id : String) (t : Time) (status : CommandStatus) (result : Json)
    → (is_acked status || is_failed status) ≡ true
    → (o : Option CommandRow) → Passes (takes_ack tenant device id t) o
    → Reported tenant device id (elim o [ none ↦ none | some c ↦ some (ack_row status result t c) ])
Reported-changed tenant device id t status result h none k = tt
Reported-changed tenant device id t status result h (some c) k = (ground arith, h)

returning-Reported :
    (tenant device id : String) (t : Time) (status : CommandStatus) (result : Json)
    → (is_acked status || is_failed status) ≡ true
    → (rows : List CommandRow)
    → Reported tenant device id
        (returning (takes_ack tenant device id t) (ack_row status result t) rows)
returning-Reported tenant device id t status result h rows =
    Reported-changed tenant device id t status result h _
      (find_if-Passes (takes_ack tenant device id t) rows)

settled-IsReported :
    (tenant device id : String) (o : Option CommandRow)
    → Passes (of_key tenant device id) o
    → Yields (IsReported tenant device id) (settled o)
unfolding settled
settled-IsReported tenant device id none h = Yields-raise not_found
settled-IsReported tenant device id (some c) h =
    Yields-if _ _ _ (λ done. Yields-pure c (h, done)) (λ _. Yields-raise not_found)

conclude-IsReported :
    (tenant device id : String) (changed : Option CommandRow)
    → Reported tenant device id changed
    → Yields (IsReported tenant device id) (conclude tenant device id changed)
unfolding conclude
conclude-IsReported tenant device id none h =
    Yields-bind_with _ _
      (Yields-tx_query {P = Passes (of_key tenant device id)} _
        (λ db. find_if-Passes (of_key tenant device id) db.commands))
      (λ o k. settled-IsReported tenant device id o k)
conclude-IsReported tenant device id (some row) h = Yields-bind _ _ λ _. Yields-pure row h

acknowledge-IsReported :
    (tenant device id : String) (req : Ack)
    → Yields (IsReported tenant device id) (acknowledge tenant device id req)
unfolding acknowledge
acknowledge-IsReported tenant device id req = Yields-bind _ _ λ _.
    Yields-bind_with _ _ (Yields-found (reported req.status) _) λ status known. Yields-bind _ _ λ t.
      Yields-bind _ _ λ _. Yields-bind _ _ λ _.
        Yields-bind_with _ _
          (Yields-tx_exec {P = Reported tenant device id} _ λ db.
            returning-Reported tenant device id t status (result_of req)
              (reported_closes req.status status known) db.commands)
          λ changed k. conclude-IsReported tenant device id changed k

-- A command that `Acknowledge` returns, in whatever state, is the command of that tenant, device
-- and id, and it is acked or failed.
acknowledge-reports :
    (tenant device id : String) (req : Ack) (s : Sys) (row : CommandRow)
    → (acknowledge tenant device id req s).0 ≡ ok row
    → IsReported tenant device id row
acknowledge-reports tenant device id req s row returned =
    (acknowledge-IsReported tenant device id req).at s row returned
