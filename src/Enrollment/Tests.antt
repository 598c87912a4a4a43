-- ===== src/Enrollment/Tests.antt =====
-- A small store: a token that is issued until 100, one that is due, and a pending device.
use xmdm.Common.{◌≡◌, refl, [], ◌∷◌, true, false, String, none, some, find_if}
use xmdm.Database.Rows.{
  empty_db, Time, Db, DeviceRow, DeviceStatus, pending, enrolled, TokenRow, issued,
}
use xmdm.Database.{
  token_consumed, token_expired, token_not_found, ok, err, Env, calm, upsert, ◌>>=◌, now, begin_tx,
  require, found, advance, step, attempt, tx_query, new_secret,
}
use xmdm.Enrollment.{
  of_device, consumed_token, inspect_token, consume_token, enrolled_device, bind_device,
  load_token_by_hash,
}
use xmdm.Enrollment.Inspection.{
  of_secret, inspection, inspect_token-inspection, consume_token-once, inspect_token-lapses,
}
use xmdm.Enrollment.Binding.{bind_device-keeps_devices, bind_device-binds}

abbrev token : String → Time → TokenRow
token id expires_at = record {
  id = id;
  tenant_id = "t";
  token_hash = id;
  status = issued;
  expires_at = expires_at;
  consumed_at = none;
  revoked_at = none;
  created_at = 1;
  updated_at = 1;
}

abbrev device : String → DeviceStatus → DeviceRow
device id status = record {
  id = id;
  tenant_id = "t";
  display_name = id;
  secret_hash = "";
  status = status;
  policy_id = none;
  bootstrap_extras = none;
  created_at = 1;
  updated_at = 1;
  deleted_at = none;
}

abbrev tables : Db
tables = record empty_db {
  devices = device "d1" enrolled ∷ device "d2" pending ∷ [];
  tokens = token "k1" 100 ∷ token "k2" 5 ∷ [];
}

-- A hash that leaves the secret as it is serves for an example.
abbrev env : Env
env = record {
  uuid = λ n. "u";
  secret = λ n. "s";
  hash_token = λ s. s;
  publisher = none;
  has_provisioner = true;
}

inspect_token-inspection_example :
    ((inspect_token env "t" "k1" true (calm tables 10)).0
      ≡ (inspection true 10 tables (find_if (of_secret env "t" "k1") tables.tokens)).0)
    × ((inspect_token env "t" "k1" true (calm tables 10)).1.db
        ≡ (inspection true 10 tables (find_if (of_secret env "t" "k1") tables.tokens)).1)
inspect_token-inspection_example = inspect_token-inspection env "t" "k1" true tables 10 refl

consume_token-once_example :
    ((consume_token env "t" "k1" (calm tables 10)).0 ≡ ok (consumed_token 10 (token "k1" 100)))
    × ((inspect_token env "t" "k1" false
          (calm (consume_token env "t" "k1" (calm tables 10)).1.db 11)).0
        ≡ err token_consumed)
consume_token-once_example =
    consume_token-once env "t" "k1" tables 10 (token "k1" 100) false 11 refl refl refl refl

inspect_token-lapses_example :
    ((inspect_token env "t" "k2" false (calm tables 10)).0 ≡ err token_expired)
    × ((inspect_token env "t" "k2" true
          (calm (inspect_token env "t" "k2" false (calm tables 10)).1.db 3)).0
        ≡ err token_expired)
inspect_token-lapses_example =
    inspect_token-lapses env "t" "k2" false tables 10 (token "k2" 5) true 3 refl refl refl refl

unknown_token : (bind_device env "t" "k3" "d2" none (calm tables 10)).0 ≡ err token_not_found
unfolding bind_device ◌>>=◌ now advance begin_tx require found load_token_by_hash tx_query
    new_secret step attempt
unknown_token = refl

bind_device-keeps_devices_example :
    (bind_device env "t" "k3" "d2" none (calm tables 10)).1.db.devices ≡ tables.devices
bind_device-keeps_devices_example =
    bind_device-keeps_devices env "t" "k3" "d2" none (calm tables 10) token_not_found refl
      unknown_token

bind_device-binds_example :
    ((bind_device env "t" "k1" "d2" none (calm tables 10)).0
      ≡ ok (record { device_id = "d2"; status = enrolled; device_secret = "s" }))
    × (find_if
          (of_device "t" "d2")
          (bind_device env "t" "k1" "d2" none (calm tables 10)).1.db.devices
        ≡ some (enrolled_device "s" none 10 (device "d2" pending)))
    × ((bind_device env "t" "k1" "d2" none (calm tables 10)).1.provisioned ≡ upsert "d2" "s" ∷ [])
    × ((inspect_token env "t" "k1" true
          (calm (bind_device env "t" "k1" "d2" none (calm tables 10)).1.db 11)).0
        ≡ err token_consumed)
bind_device-binds_example =
    bind_device-binds env "t" "k1" "d2" none tables 10 (token "k1" 100) (device "d2" pending) true
      11 refl refl refl refl refl refl
