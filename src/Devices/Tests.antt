-- ===== src/Devices/Tests.antt =====
-- A small store: a pending device, an enrolled one and a token.
use xmdm.Common.{◌≡◌, refl, List, [], ◌∷◌, true, String, none, trim_space}
use xmdm.Database.Rows.{empty_db, Db, DeviceRow, DeviceStatus, pending, enrolled, TokenRow, issued}
use xmdm.Database.{
  not_found, ok, err, Env, calm, ◌>>=◌, now, begin_tx, require, found, advance, step, attempt, pure,
  query, tx_query, new_uuid,
}
use xmdm.Database.Query.{order_by, insert_by}
use xmdm.Enrollment.{bind_device, enrolled_device}
use xmdm.Devices.{
  DeviceUpsert, view, retired_device, unique_strings, first_seen, create_device, update_device,
  retire_device, authenticate, ensure_active_groups, can_authenticate,
}
use xmdm.Devices.Access.{IsAdmitted, authenticate-IsAdmitted, retire_device-locks_out}
use xmdm.Devices.Enrolled.{bind_device-admits}

abbrev device : String → DeviceStatus → DeviceRow
device id status = record {
  id = id;
  tenant_id = "t";
  display_name = id;
  secret_hash = "h";
  status = status;
  policy_id = none;
  bootstrap_extras = none;
  created_at = 1;
  updated_at = 1;
  deleted_at = none;
}

abbrev token : TokenRow
token = record {
  id = "k";
  tenant_id = "t";
  token_hash = "k";
  status = issued;
  expires_at = 100;
  consumed_at = none;
  revoked_at = none;
  created_at = 1;
  updated_at = 1;
}

abbrev tables : Db
tables = record empty_db {
  devices = device "d1" enrolled ∷ device "d2" pending ∷ [];
  tokens = token ∷ [];
}

abbrev env : Env
env = record {
  uuid = λ n. "u";
  secret = λ n. "s";
  hash_token = λ s. s;
  publisher = none;
  has_provisioner = true;
}

abbrev names : List String
names = " b" ∷ "a" ∷ "" ∷ "b" ∷ []

unique_names : unique_strings names ≡ "a" ∷ "b" ∷ []
unfolding unique_strings first_seen order_by insert_by trim_space
unique_names = refl

-- The group of this request is not there.
abbrev request : DeviceUpsert
request = record { name = "tablet"; secret_hash = "h"; policy_id = ""; group_ids = "g" ∷ [] }

no_group : (create_device env "t" request (calm tables 10)).0 ≡ err not_found
unfolding create_device ◌>>=◌ require now advance new_uuid begin_tx unique_strings first_seen
    order_by insert_by trim_space ensure_active_groups tx_query found step attempt
no_group = refl

no_group_then : (update_device "t" "d1" request (calm tables 10)).0 ≡ err not_found
unfolding update_device ◌>>=◌ require now advance begin_tx unique_strings first_seen order_by
    insert_by trim_space ensure_active_groups tx_query found step attempt
no_group_then = refl

let_in :
    (authenticate env "t" "d1" "h" (calm tables 10)).0 ≡ ok (view tables (device "d1" enrolled))
unfolding authenticate ◌>>=◌ require query step attempt found can_authenticate pure
let_in = refl

authenticate-IsAdmitted_example :
    IsAdmitted env "t" "d1" "h" tables (view tables (device "d1" enrolled))
authenticate-IsAdmitted_example =
    authenticate-IsAdmitted env "t" "d1" "h" (calm tables 10) (view tables (device "d1" enrolled))
      let_in

retire_device-locks_out_example :
    ((retire_device env "t" "d1" (calm tables 10)).0
      ≡ ok (view tables (retired_device 10 (device "d1" enrolled))))
    × ((authenticate env "t" "d1" "h"
          (calm (retire_device env "t" "d1" (calm tables 10)).1.db 11)).0
        ≡ err not_found)
retire_device-locks_out_example =
    retire_device-locks_out env "t" "d1" "h" tables 10 (device "d1" enrolled) 11 refl refl

bind_device-admits_example :
    (authenticate env "t" "d2" "s"
      (calm (bind_device env "t" "k" "d2" none (calm tables 10)).1.db 11)).0
    ≡ ok (
        view
          (bind_device env "t" "k" "d2" none (calm tables 10)).1.db
          (enrolled_device "s" none 10 (device "d2" pending)))
bind_device-admits_example =
    bind_device-admits env "t" "k" "d2" none tables 10 token (device "d2" pending) 11 refl refl refl
      refl refl refl refl
