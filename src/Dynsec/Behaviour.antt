-- ===== src/Dynsec/Behaviour.antt =====
-- What the provisioner achieves at a broker that behaves as the dynamic-security plugin documents.
use xmdm.Common.{
  List, [], ◌∷◌, ◌≡◌, refl, ap, subst, ◌⊎◌, inl, inr, ◌||◌, String, str_eq, trim_space, arith,
  if◌then◌else◌, Bool, true, false, Bool-cases,
}
use xmdm.Mqtt.Responses.{Response, RunError, Outcome, done, failed, settle}
use xmdm.Dynsec.{
  Acl, DynsecCommand, create_role, add_role_acl, modify_client, disable_client, delete_client,
  Broker, Provisioned, ready, device_role, command_topic, device_acl, role_use, run, after,
  add_acls, ensure_role, upsert_client, upsert_device, join, disable_device,
}

-- The plugin's documented behaviour, for the commands that the program sends: what a state grants a
-- role, which roles a client wears, and which clients there are.
pub record IsPlugin (broker : Broker) : Type 1 where
  pub Grants : broker.State → String → String → String → Type 0
  pub Wears : broker.State → String → String → Type 0
  pub Knows : broker.State → String → Type 0
  -- No command of the program takes an ACL away.
  pub keeps_grant :
      (c : DynsecCommand) (s : broker.State) (role acltype topic : String)
      → Grants s role acltype topic
      → Grants (broker.serve c s).1 role acltype topic
  -- An ACL that allows its topic, and was added or exists already, is granted: no ACL of the
  -- program's roles denies.
  pub adds_acl :
      (s : broker.State) (role : String) (acl : Acl) (rs : List Response)
      → acl.allow ≡ true
      → (broker.serve (add_role_acl role acl) s).0 ≡ inr rs
      → settle ("already exists" ∷ []) rs ≡ done
      → Grants (broker.serve (add_role_acl role acl) s).1 role acl.acltype acl.topic
  pub gives_role :
      (s : broker.State) (name password role : String) (rs : List Response)
      → (broker.serve (modify_client name password name (role_use role ∷ [])) s).0 ≡ inr rs
      → settle [] rs ≡ done
      → Wears (broker.serve (modify_client name password name (role_use role ∷ [])) s).1 name role
  -- A client that was deleted, or is not found, is not there.
  pub removes :
      (s : broker.State) (name : String) (rs : List Response)
      → (broker.serve (delete_client name) s).0 ≡ inr rs
      → settle ("not found" ∷ []) rs ≡ done
      → ¬ Knows (broker.serve (delete_client name) s).1 name

module _ (broker : Broker) where
  open broker use {State, serve}

  after-ready :
      (p : Outcome × State) (next : State → Provisioned × State) (s' : State)
      → after broker p next ≡ (ready, s')
      → (p.0 ≡ done) × (next p.1 ≡ (ready, s'))
  unfolding after
  after-ready (done, s) next s' h = (refl, h)
  after-ready (failed e, s) next s' h = absurd (ground arith)

  run-done :
      (tolerated : List String) (c : DynsecCommand) (s : State)
      → (run broker tolerated c s).0 ≡ done
      → (rs : List Response) × ((serve c s).0 ≡ inr rs) × (settle tolerated rs ≡ done)
  unfolding run
  run-done tolerated c s h = go (serve c s).0 refl h
    where
      go :
          (reply : RunError ⊎ List Response)
          → (serve c s).0 ≡ reply
          → (let o : Outcome = elim reply [ inl e ↦ failed e | inr rs ↦ settle tolerated rs ] in o)
            ≡ done
          → (rs : List Response) × ((serve c s).0 ≡ inr rs) × (settle tolerated rs ≡ done)
      go (inl e) p d = absurd (ground arith)
      go (inr rs) p d = (rs, p, d)

  join-ready : (o p : Outcome) → join broker o p ≡ ready → p ≡ done
  unfolding join
  join-ready done done h = refl
  join-ready (failed e) done h = refl
  join-ready done (failed f) h = absurd (ground arith)
  join-ready (failed e) (failed f) h = absurd (ground arith)

module _ (broker : Broker) (plugin : IsPlugin broker) where
  open broker use {State, serve}
  open plugin use {Grants, Wears, Knows, keeps_grant, adds_acl, gives_role, removes}

  -- What an operation does not take away.
  abbrev Keeps : (State → Provisioned × State) → Type 0
  Keeps op =
      (s : State) (role acltype topic : String)
      → Grants s role acltype topic
      → Grants (op s).1 role acltype topic

  Grants-after :
      (p : Outcome × State) (next : State → Provisioned × State) (role acltype topic : String)
      → Keeps next
      → Grants p.1 role acltype topic
      → Grants (after broker p next).1 role acltype topic
  unfolding after
  Grants-after (done, s) next role acltype topic k g = k s role acltype topic g
  Grants-after (failed e, s) next role acltype topic k g = g

  Keeps-after :
      (tolerated : List String) (c : DynsecCommand) (next : State → Provisioned × State)
      → Keeps next
      → Keeps (λ s. after broker (run broker tolerated c s) next)
  unfolding run
  Keeps-after tolerated c next k s role acltype topic g =
      Grants-after _ next role acltype topic k (keeps_grant c s role acltype topic g)

  Keeps-if :
      (b : Bool) (p : Provisioned) (op : State → Provisioned × State)
      → Keeps op
      → Keeps (λ s. if b then (p, s) else op s)
  Keeps-if true p op k s role acltype topic g = g
  Keeps-if false p op k s role acltype topic g = k s role acltype topic g

  Keeps-add_acls :
      (role : String) (acls : List Acl) (next : State → Provisioned × State)
      → Keeps next
      → Keeps (add_acls broker role acls next)
  unfolding add_acls
  Keeps-add_acls role [] next k = k
  Keeps-add_acls role (acl ∷ acls) next k =
      Keeps-after ("already exists" ∷ []) (add_role_acl role acl) _
        (Keeps-add_acls role acls next k)

  Keeps-ensure_role :
      (role : String) (acls : List Acl) (next : State → Provisioned × State)
      → Keeps next
      → Keeps (ensure_role broker role acls next)
  unfolding ensure_role
  Keeps-ensure_role role acls next k =
      Keeps-after ("already exists" ∷ []) (create_role role) _ (Keeps-add_acls role acls next k)

  Keeps-upsert_client :
      (name password role : String) → Keeps (upsert_client broker name password role)
  unfolding upsert_client
  Keeps-upsert_client name password role =
      Keeps-after ("already exists" ∷ []) _ _
        (Keeps-after [] (modify_client name password name (role_use role ∷ [])) _ (λ s r a t g. g))

  -- Provisioning a device never takes an ACL away, also where it fails.
  pub Keeps-upsert_device :
      (device_id secret : String) → Keeps (upsert_device broker device_id secret)
  unfolding upsert_device
  Keeps-upsert_device device_id secret =
      Keeps-if _ _ _
        (Keeps-ensure_role device_role _ _ (Keeps-upsert_client device_id secret device_role))

  -- What a provisioned device has: the role, and the two ACLs of its topic in the role.
  pub record IsProvisioned (s : State) (device_id : String) : Type 0 where
    pub wears : Wears s device_id device_role
    pub subscribes : Grants s device_role "subscribeLiteral" (command_topic device_id)
    pub receives : Grants s device_role "publishClientReceive" (command_topic device_id)

  granted :
      (role : String) (acl : Acl) (next : State → Provisioned × State) (s s' : State)
      → acl.allow ≡ true
      → Keeps next
      → after broker (run broker ("already exists" ∷ []) (add_role_acl role acl) s) next
        ≡ (ready, s')
      → Grants s' role acl.acltype acl.topic
        × (next (serve (add_role_acl role acl) s).1 ≡ (ready, s'))
  unfolding run
  granted role acl next s s' allows k h =
      let (ran, rest) = after-ready broker _ next s' h in
      let (rs, answered, settled) = run-done broker _ (add_role_acl role acl) s ran in
      (
        subst (λ (p : Provisioned × State). Grants p.1 role acl.acltype acl.topic) rest
            (k _ role acl.acltype acl.topic (adds_acl s role acl rs allows answered settled)),
        rest,
      )

  upsert_client-Wears :
      (name password role : String) (s s' : State)
      → upsert_client broker name password role s ≡ (ready, s')
      → Wears s' name role
  unfolding upsert_client run
  upsert_client-Wears name password role s s' h =
      let (created, h₁) = after-ready broker _ _ s' h in
      let (modified, h₂) = after-ready broker _ _ s' h₁ in
      let (rs, answered, settled) =
        run-done broker [] (modify_client name password name (role_use role ∷ [])) _ modified in
      subst (λ (p : Provisioned × State). Wears p.1 name role) h₂
        (gives_role _ name password role rs answered settled)

  -- At a broker that behaves as `IsPlugin` says: when `UpsertDevice` succeeds, the device has its
  -- role, and the role has the two ACLs of the device's topic.
  pub upsert_device-IsProvisioned :
      (device_id secret : String) (s s' : State)
      → upsert_device broker device_id secret s ≡ (ready, s')
      → IsProvisioned s' device_id
  unfolding upsert_device ensure_role add_acls run
  upsert_device-IsProvisioned device_id secret s s' h =
      elim (Bool-cases (str_eq (trim_space device_id) "" || str_eq (trim_space secret) "")) [
        | inl blank ↦ absurd (ground arith)
        | inr named ↦
            let last = upsert_client broker device_id secret device_role in
            let keeps = Keeps-upsert_client device_id secret device_role in
            let acl₁ = device_acl "subscribeLiteral" (command_topic device_id) in
            let acl₂ = device_acl "publishClientReceive" (command_topic device_id) in
            let (created, h₁) = after-ready broker _ _ s' (rw named at h) in
            let (sub, h₂) =
              granted device_role acl₁ (add_acls broker device_role (acl₂ ∷ []) last) _ s' refl
                (Keeps-add_acls device_role (acl₂ ∷ []) last keeps) h₁ in
            let (receive, h₃) = granted device_role acl₂ last _ s' refl keeps h₂ in
            record {
              wears = upsert_client-Wears device_id secret device_role _ s' h₃;
              subscribes = sub;
              receives = receive;
            }
      ]

  -- At a broker that behaves as `IsPlugin` says: when `UpsertDevice` succeeds for one device and
  -- then for another, the second one has the device role, and that role has the two ACLs of the
  -- first one's topic.
  pub upsert_device-shares_topics :
      (first first_secret second second_secret : String) (s s₁ s₂ : State)
      → upsert_device broker first first_secret s ≡ (ready, s₁)
      → upsert_device broker second second_secret s₁ ≡ (ready, s₂)
      → Wears s₂ second device_role
        × Grants s₂ device_role "subscribeLiteral" (command_topic first)
        × Grants s₂ device_role "publishClientReceive" (command_topic first)
  upsert_device-shares_topics first x second y s s₁ s₂ h k =
      let p = upsert_device-IsProvisioned first x s s₁ h in
      let q = upsert_device-IsProvisioned second y s₁ s₂ k in
      let still = λ (acltype : String) (g : Grants s₁ device_role acltype (command_topic first)).
        subst (λ (r : Provisioned × State). Grants r.1 device_role acltype (command_topic first)) k
          (Keeps-upsert_device second y s₁ device_role acltype (command_topic first) g) in
      (q.wears, still "subscribeLiteral" p.subscribes, still "publishClientReceive" p.receives)

  -- At a broker that behaves as `IsPlugin` says: when `DisableDevice` succeeds, the device is no
  -- client of the broker.
  pub disable_device-removes :
      (device_id : String) (s s' : State)
      → disable_device broker device_id s ≡ (ready, s')
      → ¬ Knows s' device_id
  unfolding disable_device run
  disable_device-removes device_id s s' h = elim (Bool-cases (str_eq (trim_space device_id) "")) [
    | inl blank ↦ absurd (ground arith)
    | inr named ↦
        let h' = rw named at h in
        let s₁ = (serve (disable_client device_id) s).1 in
        let (rs, answered, settled) =
          run-done broker ("not found" ∷ []) (delete_client device_id) s₁
            (join-ready broker _ _ (ap (λ (p : Provisioned × State). p.0) h')) in
        subst (λ (t : State). ¬ Knows t device_id) (ap (λ (p : Provisioned × State). p.1) h')
          (removes s₁ device_id rs answered settled)
  ]
