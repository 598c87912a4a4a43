-- ===== src/Commands/Queue.antt =====
-- `Enqueue`, `publishEnqueued` and `markSent` of server/internal/commands/postgres/store.go.
use xmdm.Common.{
  List, [], ◌∷◌, ◌++◌, String, Bool, true, false, not, ◌&&◌, ◌||◌, Option, none, some,
  if◌then◌else◌, str_eq,
}
use xmdm.Common.Json.{obj, end}
use xmdm.Database.Rows.{Time, Db, CommandRow, queued, sent}
use xmdm.Database.{
  not_found, invalid_input, Message, Env, Store, pure, ◌>>=◌, ◌>>◌, catch, exec, begin_tx, tx_exec,
  commit, now, new_uuid, publish, require,
}
use xmdm.Database.Query.{update_where}
use xmdm.Commands.{Upsert, is_queued, of_key}
use xmdm.Commands.Targets.{resolve_targets}

abbrev pub new_row : String → String → Upsert → Time → String → CommandRow
new_row id tenant req t device = record {
  id = id;
  tenant_id = tenant;
  device_id = device;
  type = req.type;
  payload = elim req.payload [ none ↦ obj end | some p ↦ p ];
  status = queued;
  expires_at = req.expires_at;
  acked_at = none;
  result = obj end;
  created_at = t;
  updated_at = t;
}

-- INSERT; the keys of the table are no condition here: the id is a fresh UUID, and the tenant and
-- the device are those of a row that the targets were read from.
abbrev pub insert_row : CommandRow → Db → CommandRow × Db
insert_row row db = (row, record db { commands = db.commands ++ row ∷ [] })

abbrev pub mark_sent_row : Time → CommandRow → CommandRow
mark_sent_row t c = record c { status = sent; updated_at = t }

abbrev pub update_sent : Time → CommandRow → Db → Unit {0} × Db
update_sent t item db = (
  tt,
  record db {
    commands =
        update_where (λ c. of_key item.tenant_id item.device_id item.id c && is_queued c.status)
          (mark_sent_row t) db.commands;
  },
)

-- `markSent`
unfoldable pub mark_sent : CommandRow → Store (Unit {0})
mark_sent item = do t ← now; exec (update_sent t item)

abbrev pub message_of : CommandRow → Message
message_of item = record {
  type = item.type;
  command_id = item.id;
  tenant_id = item.tenant_id;
  device_id = item.device_id;
  payload = item.payload;
  created_at = item.created_at;
}

-- One turn of the loop: errors of the publisher and of `markSent` are only logged.
unfoldable pub publish_item : (Message → Bool) → CommandRow → Store (Unit {0})
publish_item takes item = do
  taken ← publish takes (message_of item)
  if taken then catch (mark_sent item) (λ e. pure tt) else pure tt

unfoldable pub publish_all : (Message → Bool) → List CommandRow → Store (Unit {0})
publish_all takes [] = pure tt
publish_all takes (item ∷ items) = do publish_item takes item; publish_all takes items

-- `publishEnqueued`
unfoldable pub publish_enqueued : Option (Message → Bool) → List CommandRow → Store (Unit {0})
publish_enqueued none items = pure tt
publish_enqueued (some takes) items = publish_all takes items

abbrev pub is_nonempty : List CommandRow → Bool
is_nonempty [] = false
is_nonempty (c ∷ cs) = true

module _ (env : Env) where
  unfoldable pub insert_commands : String → Upsert → Time → List String → Store (List CommandRow)
  insert_commands tenant req t [] = pure []
  insert_commands tenant req t (device ∷ devices) = do
    id ← new_uuid env
    row ← tx_exec (insert_row (new_row id tenant req t device))
    rows ← insert_commands tenant req t devices
    pure (row ∷ rows)

  -- `Enqueue`
  unfoldable pub enqueue : String → Upsert → Store (List CommandRow)
  enqueue tenant req = do
    require (not (str_eq tenant "" || str_eq req.type "")) invalid_input
    t ← now
    targets ← resolve_targets tenant req.target
    begin_tx
    rows ← insert_commands tenant req t targets
    require (is_nonempty rows) not_found
    commit
    publish_enqueued env.publisher rows
    pure rows
