-- ===== src/Groups/Tests.antt =====
-- Examples for the groups.
use mathlib.Core.List.{flat_map}
use xmdm.Common.{◌≡◌, refl, [], ◌∷◌, false, none}
use xmdm.Database.Rows.{empty_db, Db, DeviceRow, GroupRow, DeviceGroupRow, enrolled}
use xmdm.Database.{not_found, err, Env, calm}
use xmdm.Database.Query.{order_by, insert_by}
use xmdm.Database.Table.{new_base}
use xmdm.Commands.{Upsert}
use xmdm.Commands.Targets.{group_devices}
use xmdm.Commands.Queue.{enqueue}
use xmdm.Groups.{retire_group}
use xmdm.Groups.Retired.{for_group, retire_group-takes_no_commands}

abbrev env : Env
env = record {
  uuid = λ n. "u";
  secret = λ n. "s";
  hash_token = λ s. s;
  publisher = none;
  has_provisioner = false;
}

abbrev device : DeviceRow
device = record {
  id = "d1";
  tenant_id = "t";
  display_name = "tablet";
  secret_hash = "";
  status = enrolled;
  policy_id = none;
  bootstrap_extras = none;
  created_at = 1;
  updated_at = 1;
  deleted_at = none;
}

abbrev school : GroupRow
school = record { base = new_base "g1" "t" 1 1; name = "school" }

abbrev member : DeviceGroupRow
member = record { tenant_id = "t"; device_id = "d1"; group_id = "g1"; created_at = 2 }

abbrev tables : Db
tables = record empty_db {
  devices = device ∷ [];
  groups = school ∷ [];
  device_groups = member ∷ [];
}

abbrev ping : Upsert
ping = record {
  type = "ping";
  payload = none;
  expires_at = none;
  target = record { type = ""; device_id = ""; group_id = "" };
}

-- The device is in the group, before it is retired.
in_school : group_devices "t" "g1" tables ≡ "d1" ∷ []
unfolding group_devices order_by insert_by flat_map
in_school = refl

retire_group-takes_no_commands_example :
    (enqueue env "t" (for_group "g1" ping) (retire_group "t" "g1" (calm tables 5)).1).0
    ≡ err not_found
retire_group-takes_no_commands_example =
    retire_group-takes_no_commands env "t" "g1" ping tables 5 refl refl
