-- ===== src/Dynsec.antt =====
-- The provisioner of server/internal/mqttdynsec/client.go: `UpsertDevice`, `EnsureServerPublisher`
-- and `DisableDevice` as the commands that they give to the broker's dynamic-security plugin. The
-- broker is a parameter: what it answers to a command, and the state that this leaves it in.
mod Behaviour
mod Tests
use xmdm.Common.{
  ℕ, List, [], ◌∷◌, ◌⊎◌, inl, inr, Bool, true, ◌||◌, String, if◌then◌else◌, str_eq, trim_space,
}
use Prim.Native.String.{◌++◌}
use xmdm.Mqtt.Responses.{Response, RunError, Outcome, done, failed, settle}

-- An ACL of a role; `allow` is true and `priority` 100 wherever the program writes one.
pub record Acl : Type 0 where
  pub acltype : String
  pub topic : String
  pub allow : Bool
  pub priority : ℕ

pub record RoleUse : Type 0 where
  pub rolename : String
  pub priority : ℕ

-- The commands that the program sends.
pub data DynsecCommand : Type 0 where
  create_role : String → DynsecCommand
  add_role_acl : String → Acl → DynsecCommand
  create_client modify_client : String → String → String → List RoleUse → DynsecCommand
  disable_client delete_client : String → DynsecCommand

-- One session: the session's own error, or the responses of the plugin.
pub record Broker : Type 1 where
  pub State : Type 0
  pub serve : DynsecCommand → State → (RunError ⊎ List Response) × State

-- The errors that the provisioner itself makes, or those of a session; `DisableDevice` joins two.
pub data ProvisionError : Type 0 where
  missing_device_credentials missing_publisher_credentials missing_device_id : ProvisionError
  run_failed : RunError → ProvisionError
  joined : RunError → RunError → ProvisionError

pub data Provisioned : Type 0 where
  ready : Provisioned
  refused : ProvisionError → Provisioned

abbrev pub device_role : String
device_role = "xmdm-device-command"

abbrev pub server_role : String
server_role = "xmdm-server-publisher"

abbrev pub command_topic : String → String
command_topic device_id = "devices/" ++ device_id ++ "/commands"

abbrev pub device_acl : String → String → Acl
device_acl acltype topic = record { acltype = acltype; topic = topic; allow = true; priority = 100 }

abbrev pub role_use : String → RoleUse
role_use role = record { rolename = role; priority = 100 }

module _ (broker : Broker) where
  open broker use {State, serve}

  -- `runCommand` with the errors that the caller tolerates
  unfoldable pub run : List String → DynsecCommand → State → Outcome × State
  run tolerated command s =
      let (reply, s') = serve command s in
      (elim reply [ inl e ↦ failed e | inr rs ↦ settle tolerated rs ], s')

  -- What follows a command that succeeded, or its error.
  unfoldable pub after : Outcome × State → (State → Provisioned × State) → Provisioned × State
  after (done, s) next = next s
  after (failed e, s) next = (refused (run_failed e), s)

  pub add_acls : String → List Acl → (State → Provisioned × State) → State → Provisioned × State
  add_acls role [] next s = next s
  add_acls role (acl ∷ acls) next s =
      after (run ("already exists" ∷ []) (add_role_acl role acl) s) (add_acls role acls next)

  -- `ensureRole`, and what follows it
  pub ensure_role : String → List Acl → (State → Provisioned × State) → State → Provisioned × State
  ensure_role role acls next s =
      after (run ("already exists" ∷ []) (create_role role) s) (add_acls role acls next)

  pub upsert_client : String → String → String → State → Provisioned × State
  upsert_client name password role s =
      after (run ("already exists" ∷ []) (create_client name password name (role_use role ∷ [])) s)
        (λ s₁.
          after (run [] (modify_client name password name (role_use role ∷ [])) s₁)
            (λ s₂. (ready, s₂)))

  -- `UpsertDevice`
  unfoldable pub upsert_device : String → String → State → Provisioned × State
  upsert_device device_id device_secret s =
      if str_eq (trim_space device_id) "" || str_eq (trim_space device_secret) ""
      then (refused missing_device_credentials, s)
      else ensure_role device_role
          (device_acl "subscribeLiteral" (command_topic device_id)
            ∷ device_acl "publishClientReceive" (command_topic device_id)
            ∷ [])
          (upsert_client device_id device_secret device_role) s

  -- `EnsureServerPublisher`
  unfoldable pub ensure_server_publisher : String → String → State → Provisioned × State
  ensure_server_publisher username password s =
      if str_eq (trim_space username) "" || str_eq (trim_space password) ""
      then (refused missing_publisher_credentials, s)
      else ensure_role server_role (device_acl "publishClientSend" "devices/+/commands" ∷ [])
          (upsert_client username password server_role) s

  -- `errors.Join` of the errors that there are
  unfoldable pub join : Outcome → Outcome → Provisioned
  join done done = ready
  join (failed e) done = refused (run_failed e)
  join done (failed f) = refused (run_failed f)
  join (failed e) (failed f) = refused (joined e f)

  -- `DisableDevice`: both commands are sent, whatever the first one's outcome
  unfoldable pub disable_device : String → State → Provisioned × State
  disable_device device_id s =
      if str_eq (trim_space device_id) ""
      then (refused missing_device_id, s)
      else let (first, s₁) = run ("not found" ∷ []) (disable_client device_id) s in
        let (second, s₂) = run ("not found" ∷ []) (delete_client device_id) s₁ in
        (join first second, s₂)
