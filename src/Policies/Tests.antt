-- ===== src/Policies/Tests.antt =====
-- Policies of server/internal/policy at given rows.
use xmdm.Common.{◌≡◌, refl, String, List, [], ◌∷◌, Bool, true, false, none, trim_space}
use xmdm.Common.Json.{Json, str, arr, nil, cons, bool, Items}
use xmdm.Database.Rows.{Db, PolicyRow, AppRow, BindingRow, empty_db, empty_catalog}
use xmdm.Database.{
  Env, pure, ◌>>=◌, query, exec, now, step, attempt, advance, require, found, new_uuid,
}
use xmdm.Database.Query.{update_where, order_by, insert_by, count_where}
use xmdm.Database.Table.{
  new_base, change_row, insert_row, update_row, upsert_row, select_one, select_all, answered,
}
use xmdm.Policies.{
  PolicyUpsert, Restrictions, Codec, no_restrictions, kiosk_exit_passcode_configured, carried,
  merge_kiosk_exit_passcode, kept_restrictions, given_restrictions, write_policy, update_policy,
  updated_policy,
}
use xmdm.Policies.Bindings.{
  add_binding, remove_binding, list_active_bindings, add_policy_app, remove_policy_app,
  list_active_policy_apps,
}
use xmdm.Policies.Effects.{app, add_of, remove_of, list_active_of, add_of-lists, remove_of-unlists}
use xmdm.Policies.Effects.Listed.{lists}
use xmdm.Policies.Passcode.{IsFaithful, update_policy-keeps_passcode}

abbrev tablet : AppRow
tablet = record {
  base = new_base "a1" "t" 1 1;
  package_name = "maps";
  name = "Maps";
  system_owned = false;
}

abbrev assigned : BindingRow
assigned = record { base = new_base "u" "t" 5 5; policy_id = "k"; item_id = "a1" }

abbrev env : Env
env = record {
  uuid = λ n. "u";
  secret = λ n. "s";
  hash_token = λ s. s;
  publisher = none;
  has_provisioner = false;
}

-- The texts of a list, and a codec that writes a struct as the list of its fields.
abbrev texts : List String → Items
texts [] = nil
texts (s ∷ ss) = cons (str s) (texts ss)

abbrev read_texts : Items → List String
read_texts nil = []
read_texts (cons (str s) rest) = s ∷ read_texts rest
read_texts (cons other rest) = read_texts rest

read-texts : (ss : List String) → read_texts (texts ss) ≡ ss
read-texts [] = refl
read-texts (s ∷ ss) = rw (read-texts ss) refl

abbrev write_fields : Restrictions → Json
write_fields r = arr (
    cons (arr (texts r.allow_packages)) (
      cons (arr (texts r.block_packages)) (
        cons (arr (texts r.suspend_packages)) (
          cons (bool r.kiosk_keep_screen_on) (
            cons (bool r.kiosk_stay_awake_while_plugged_in) (
              cons (bool r.kiosk_unlock_on_boot)
                (cons (str r.kiosk_exit_passcode) (cons (str r.kiosk_exit_passcode_hash) nil))))))))

abbrev read_fields : Json → Restrictions × Bool
read_fields
      (arr (
        cons (arr a) (
          cons (arr b) (
            cons (arr s) (
              cons (bool k) (cons (bool w) (cons (bool u) (cons (str p) (cons (str h) nil))))))))) =
    (
      record {
        allow_packages = read_texts a;
        block_packages = read_texts b;
        suspend_packages = read_texts s;
        kiosk_keep_screen_on = k;
        kiosk_stay_awake_while_plugged_in = w;
        kiosk_unlock_on_boot = u;
        kiosk_exit_passcode = p;
        kiosk_exit_passcode_hash = h;
      },
      true,
    )
read_fields _ = (no_restrictions, false)

abbrev codec : Codec
codec = record { unmarshal = read_fields; marshal = write_fields }

codec-IsFaithful : IsFaithful codec
codec-IsFaithful = record {
  reads_back = λ r.
      rw (read-texts r.allow_packages, read-texts r.block_packages, read-texts r.suspend_packages)
        refl;
  no_null = λ r. refl;
}

abbrev kiosk : PolicyRow
kiosk = record {
  base = new_base "k" "t" 1 1;
  name = "kiosk";
  version = 3;
  kiosk_mode = true;
  kiosk_app_package = "maps";
  restrictions = write_fields (record no_restrictions { kiosk_exit_passcode = "1234" });
}

abbrev tables : Db
tables = record empty_db {
  catalog = record empty_catalog { policies = kiosk ∷ []; apps = tablet ∷ [] };
}

abbrev renamed : PolicyUpsert
renamed = record {
  name = "kiosk two";
  kiosk_mode = true;
  kiosk_app_package = "maps";
  restrictions = none;
}

abbrev kiosk_two : PolicyRow
kiosk_two = updated_policy 5 renamed kiosk.restrictions kiosk

update_policy-keeps_passcode_example :
    kiosk_exit_passcode_configured codec kiosk_two.restrictions ≡ true
unfolding update_policy write_policy update_row change_row answered select_one query exec now step
    attempt advance found ◌>>=◌ pure kept_restrictions given_restrictions merge_kiosk_exit_passcode
    carried kiosk_exit_passcode_configured trim_space
update_policy-keeps_passcode_example =
    update_policy-keeps_passcode codec "t" "k" renamed tables 5 kiosk kiosk_two codec-IsFaithful
      refl refl refl refl refl

add_of-lists_example : lists "a1" (assigned ∷ []) ≡ true
unfolding add_of list_active_of add_policy_app list_active_policy_apps add_binding
    list_active_bindings upsert_row insert_row answered select_all order_by insert_by query exec now
    step attempt advance require new_uuid ◌>>=◌ pure
add_of-lists_example = add_of-lists app env "t" "k" "a1" tables 5 assigned (assigned ∷ []) refl refl

abbrev with_app : Db
with_app = record tables { catalog = record tables.catalog { policy_apps = assigned ∷ [] } }

remove_of-unlists_example : lists "a1" [] ≡ false
unfolding remove_of list_active_of remove_policy_app list_active_policy_apps remove_binding
    list_active_bindings update_where count_where select_all order_by query exec now step attempt
    advance require ◌>>=◌ pure
remove_of-unlists_example = remove_of-unlists app "t" "k" "a1" with_app 6 [] refl
