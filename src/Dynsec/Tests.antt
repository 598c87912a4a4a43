-- ===== src/Dynsec/Tests.antt =====
-- A broker with the plugin's documented behaviour, and devices provisioned at it.
use xmdm.Common.{
  Among, List, [], ◌∷◌, ◌++◌, ◌≡◌, refl, ◌⊎◌, inl, inr, true, false, not, String, str_eq, any_of,
  keep_if, map, Bool-cases, arith, trim_space,
}
use xmdm.Mqtt.Responses.{Response, RunError, settle}
use xmdm.Dynsec.{
  DynsecCommand, create_role, add_role_acl, create_client, modify_client, disable_client,
  delete_client, Broker, Provisioned, ready, device_role, command_topic, run, after, add_acls,
  ensure_role, upsert_client, upsert_device, join, disable_device,
}
use xmdm.Dynsec.Behaviour.{IsPlugin, upsert_device-shares_topics, disable_device-removes}

record Grant : Type 0 where
  role : String
  acltype : String
  topic : String

record Wearing : Type 0 where
  name : String
  role : String

record Plugin : Type 0 where
  grants : List Grant
  worn : List Wearing
  clients : List String

abbrev accepted : RunError ⊎ List Response
accepted = inr (record { command = ""; error = "" } ∷ [])

abbrev answer_to : DynsecCommand → Plugin → Plugin
answer_to (create_role role) s = s
answer_to (add_role_acl role acl) s = record s {
  grants = record { role = role; acltype = acl.acltype; topic = acl.topic } ∷ s.grants;
}
answer_to (create_client name password id roles) s = record s { clients = name ∷ s.clients }
answer_to (modify_client name password id roles) s = record s {
  worn = map (λ r. record { name = name; role = r.rolename }) roles ++ s.worn;
}
answer_to (disable_client name) s = s
answer_to (delete_client name) s = record s {
  clients = keep_if (λ n. not (str_eq n name)) s.clients;
}

abbrev plugin_broker : Broker
plugin_broker = record { State = Plugin; serve = λ c s. (accepted, answer_to c s) }

keeps_grants :
    (c : DynsecCommand) (s : Plugin) (g : Grant) → Among g s.grants → Among g (answer_to c s).grants
keeps_grants (create_role role) s g h = h
keeps_grants (add_role_acl role acl) s g h = inr h
keeps_grants (create_client name password id roles) s g h = h
keeps_grants (modify_client name password id roles) s g h = h
keeps_grants (disable_client name) s g h = h
keeps_grants (delete_client name) s g h = h

deleted :
    (name : String) (names : List String)
    → any_of (λ n. str_eq n name) (keep_if (λ n. not (str_eq n name)) names) ≡ false
deleted name [] = refl
deleted name (n ∷ names) = elim (Bool-cases (str_eq n name)) [
  | inl same ↦ rw same (deleted name names)
  | inr other ↦ rw (other, other) (deleted name names)
]

plugin_broker-IsPlugin : IsPlugin plugin_broker
plugin_broker-IsPlugin = record {
  Grants = λ (s : Plugin) (role acltype topic : String).
      Among (record { role = role; acltype = acltype; topic = topic }) s.grants;
  Wears = λ (s : Plugin) (name role : String). Among (record { name = name; role = role }) s.worn;
  Knows = λ (s : Plugin) (name : String). any_of (λ n. str_eq n name) s.clients ≡ true;
  keeps_grant = λ c s role acltype topic h. keeps_grants c s _ h;
  adds_acl = λ s role acl rs allows answered settled. inl refl;
  gives_role = λ s name password role rs answered settled. inl refl;
  removes = λ s name rs answered settled h. ground (arith, deleted name s.clients);
}

abbrev empty : Plugin
empty = record { grants = []; worn = []; clients = [] }

abbrev provision_one : String → Plugin → Provisioned × Plugin
provision_one device s = upsert_device plugin_broker device "secret" s

provisioned_one : provision_one "tablet" empty ≡ (ready, (provision_one "tablet" empty).1)
unfolding upsert_device ensure_role upsert_client add_acls run after settle trim_space
provisioned_one = refl

provisioned_two :
    provision_one "kiosk" (provision_one "tablet" empty).1
    ≡ (ready, (provision_one "kiosk" (provision_one "tablet" empty).1).1)
unfolding upsert_device ensure_role upsert_client add_acls run after settle trim_space
provisioned_two = refl

disabled_one :
    disable_device plugin_broker "tablet" (provision_one "tablet" empty).1
    ≡ (ready, (disable_device plugin_broker "tablet" (provision_one "tablet" empty).1).1)
unfolding upsert_device ensure_role upsert_client add_acls run after settle trim_space
    disable_device join
disabled_one = refl

upsert_device-shares_topics_example :
    plugin_broker-IsPlugin.Wears
      (provision_one "kiosk" (provision_one "tablet" empty).1).1
      "kiosk"
      device_role
    × plugin_broker-IsPlugin.Grants
        (provision_one "kiosk" (provision_one "tablet" empty).1).1
        device_role
        "subscribeLiteral"
        (command_topic "tablet")
    × plugin_broker-IsPlugin.Grants
        (provision_one "kiosk" (provision_one "tablet" empty).1).1
        device_role
        "publishClientReceive"
        (command_topic "tablet")
upsert_device-shares_topics_example =
    upsert_device-shares_topics plugin_broker plugin_broker-IsPlugin "tablet" "secret" "kiosk"
      "secret" empty (provision_one "tablet" empty).1
      (provision_one "kiosk" (provision_one "tablet" empty).1).1 provisioned_one provisioned_two

disable_device-removes_example :
    ¬ plugin_broker-IsPlugin.Knows
      (disable_device plugin_broker "tablet" (provision_one "tablet" empty).1).1
      "tablet"
disable_device-removes_example =
    disable_device-removes plugin_broker plugin_broker-IsPlugin "tablet"
      (provision_one "tablet" empty).1
      (disable_device plugin_broker "tablet" (provision_one "tablet" empty).1).1 disabled_one
