-- ===== src/Devices/Access.antt =====
-- Who may act as a device of server/internal/device/postgres/store.go, and what a change of a device
-- that fails leaves.
use xmdm.Common.{
  ◌≡◌, refl, ap, ◌∙◌, List, [], ◌∷◌, String, Bool, true, false, ◌&&◌, ◌||◌, some, Bool-cases,
  Option-cases, inl, inr, find_if, str_eq, arith, Among, sym, subst, and_parts, eq_iff, some_inj,
}
use xmdm.Database.Rows.{
  Time, Db, DeviceRow, DeviceStatus, pending, enrolled, active, locked, suspended, retired, wiped,
  unknown,
}
use xmdm.Database.Triples.{
  Triple, Triple-bind, Triple-require, Triple-query, Triple-found, Triple-pure, Triple-returned,
}
use xmdm.Database.{
  Error, not_found, ok, err, Env, Sys, calm, ◌>>=◌, pure, query, exec, now, require, found,
  provision, advance, step, attempt,
}
use xmdm.Database.Query.{update_where, skipped}
use xmdm.Database.Atomic.{
  IsQuiet, IsAtomic, quiet_rules, IsQuiet-if, IsQuiet-tx_query, IsQuiet-bind, IsQuiet-tx_exec,
  IsQuiet-now, IsQuiet-begin_tx, IsQuiet-require, IsQuiet-new_uuid, IsQuiet-found, IsAtomic-bind,
  IsAtomic-commit,
}
use xmdm.Devices.{
  Device, DeviceUpsert, view, view_of, of_key, retired_device, retire_row, can_authenticate,
  ensure_active_groups, insert_groups, load_device, create_device, update_device, retire_device,
  authenticate,
}

IsQuiet-ensure_active_groups :
    (tenant : String) (groups : List String) → IsQuiet (ensure_active_groups tenant groups)
unfolding ensure_active_groups
IsQuiet-ensure_active_groups tenant [] = search quiet_rules
IsQuiet-ensure_active_groups tenant (group ∷ groups) =
    IsQuiet-if _ _ _ (IsQuiet-ensure_active_groups tenant groups) (
      IsQuiet-bind _ _ (IsQuiet-tx_query _)
        λ row. IsQuiet-bind _ _ (IsQuiet-found _ _) λ _. IsQuiet-ensure_active_groups tenant groups)

IsQuiet-insert_groups :
    (tenant device : String) (t : Time) (groups : List String)
    → IsQuiet (insert_groups tenant device t groups)
unfolding insert_groups
IsQuiet-insert_groups tenant device t [] = search quiet_rules
IsQuiet-insert_groups tenant device t (group ∷ groups) =
    IsQuiet-bind _ _ (IsQuiet-tx_exec _) λ _. IsQuiet-insert_groups tenant device t groups

IsQuiet-load_device : (tenant id : String) → IsQuiet (load_device tenant id)
unfolding load_device
IsQuiet-load_device tenant id = search quiet_rules

IsAtomic-create_device :
    (env : Env) (tenant : String) (req : DeviceUpsert) → IsAtomic (create_device env tenant req)
unfolding create_device
IsAtomic-create_device env tenant req = IsAtomic-bind _ _ (IsQuiet-require _ _) λ _.
    IsAtomic-bind _ _ IsQuiet-now λ t. IsAtomic-bind _ _ (IsQuiet-new_uuid env) λ id.
      IsAtomic-bind _ _ IsQuiet-begin_tx λ _. IsAtomic-bind _ _ IsQuiet-now λ created.
        IsAtomic-bind _ _ (IsQuiet-ensure_active_groups tenant _) λ _.
          IsAtomic-bind _ _ (IsQuiet-tx_exec _) λ _.
            IsAtomic-bind _ _ (IsQuiet-insert_groups tenant id t _) λ _.
              IsAtomic-bind _ _ (IsQuiet-load_device tenant id) λ device. IsAtomic-commit device

IsAtomic-update_device :
    (tenant id : String) (req : DeviceUpsert) → IsAtomic (update_device tenant id req)
unfolding update_device
IsAtomic-update_device tenant id req = IsAtomic-bind _ _ (IsQuiet-require _ _) λ _.
    IsAtomic-bind _ _ IsQuiet-now λ t. IsAtomic-bind _ _ IsQuiet-begin_tx λ _.
      IsAtomic-bind _ _ (IsQuiet-ensure_active_groups tenant _) λ _.
        IsAtomic-bind _ _ (IsQuiet-tx_exec _) λ changed.
          IsAtomic-bind _ _ (IsQuiet-found _ _) λ row. IsAtomic-bind _ _ (IsQuiet-tx_exec _) λ _.
            IsAtomic-bind _ _ (IsQuiet-insert_groups tenant row.id t _) λ _.
              IsAtomic-bind _ _ (IsQuiet-load_device tenant row.id) λ device. IsAtomic-commit device

-- A device is created with all its groups or not at all: where `CreateDevice` fails, in whatever
-- state, the committed tables are what they were.
create_device-rolls_back :
    (env : Env) (tenant : String) (req : DeviceUpsert) (s : Sys) (e : Error)
    → (create_device env tenant req s).0 ≡ err e
    → (create_device env tenant req s).1.db ≡ s.db
create_device-rolls_back env tenant req s e failed =
    (IsAtomic-create_device env tenant req).at s e failed

-- Where `UpdateDevice` fails, in whatever state, also between the removal of the old groups and the
-- insertion of the new ones, the committed tables are what they were.
update_device-rolls_back :
    (tenant id : String) (req : DeviceUpsert) (s : Sys) (e : Error)
    → (update_device tenant id req s).0 ≡ err e
    → (update_device tenant id req s).1.db ≡ s.db
update_device-rolls_back tenant id req s e failed =
    (IsAtomic-update_device tenant id req).at s e failed

-- Neither retired nor wiped.
abbrev pub IsAllowed : DeviceStatus → Type 0
IsAllowed retired = ⊥
IsAllowed wiped = ⊥
IsAllowed _ = Unit

-- The device is that of a row of the table, with the tenant and the id, that holds the hash of the
-- secret and is neither retired nor wiped.
pub record IsAdmitted (env : Env) (tenant id secret : String) (d : Db) (device : Device)
    : Type 0 where
  pub row : DeviceRow
  pub stands : Among row d.devices
  pub of_tenant : row.tenant_id ≡ tenant
  pub of_id : row.id ≡ id
  pub knows_secret : row.secret_hash ≡ env.hash_token secret
  pub is_allowed : IsAllowed row.status
  pub shown : device ≡ view d row

allowed : (status : DeviceStatus) → can_authenticate status ≡ true → IsAllowed status
unfolding can_authenticate
allowed retired h = absurd (ground arith)
allowed wiped h = absurd (ground arith)
allowed pending h = tt
allowed enrolled h = tt
allowed active h = tt
allowed locked h = tt
allowed suspended h = tt
allowed unknown h = tt

view_of-found :
    (p : DeviceRow → Bool) (d : Db) (rows : List DeviceRow) (device : Device)
    → view_of d (find_if p rows) ≡ some device
    → (row : DeviceRow) × (device ≡ view d row) × Among row rows × (p row ≡ true)
view_of-found p d [] device h = absurd (ground arith)
view_of-found p d (r ∷ rows) device h = elim (Bool-cases (p r)) [
  | inl yes' ↦ (r, sym (some_inj (view d r) device (rw yes' at h)), inl refl, yes')
  | inr no' ↦
      let (row, shown, there, fits) = view_of-found p d rows device (rw no' at h) in
      (row, shown, inr there, fits)
]

row_admits :
    (env : Env) (tenant id secret : String) (d : Db) (device : Device)
    → view_of d (
        find_if (λ r. of_key tenant id r && str_eq r.secret_hash (env.hash_token secret)) d.devices)
      ≡ some device
    → can_authenticate device.status ≡ true
    → IsAdmitted env tenant id secret d device
row_admits env tenant id secret d device h may =
    let (row, shown, there, fits) = view_of-found _ d d.devices device h in
    let outer =
      and_parts (of_key tenant id row) (str_eq row.secret_hash (env.hash_token secret)) fits in
    let key = and_parts (str_eq row.tenant_id tenant) (str_eq row.id id) outer.0 in
    record {
      row = row;
      stands = there;
      of_tenant = (eq_iff row.tenant_id tenant).0 key.0;
      of_id = (eq_iff row.id id).0 key.1;
      knows_secret = (eq_iff row.secret_hash (env.hash_token secret)).0 outer.1;
      is_allowed =
          allowed row.status (subst (λ (x : Device). can_authenticate x.status ≡ true) shown may);
      shown = shown;
    }

Triple-authenticate :
    (env : Env) (tenant id secret : String) (d : Db)
    → Triple
        (λ s. s.db ≡ d)
        (authenticate env tenant id secret)
        (λ device s. IsAdmitted env tenant id secret d device)
        (λ s. Unit {0})
unfolding authenticate
Triple-authenticate env tenant id secret d =
    let fits =
      λ (r : DeviceRow). of_key tenant id r && str_eq r.secret_hash (env.hash_token secret) in
    Triple-bind _ _ _ (Triple-require _ _ (λ s h. tt)) λ _.
      Triple-bind _ _ (λ row s. row ≡ view_of d (find_if fits d.devices))
        (Triple-query _ (λ s fs h. tt)
          (λ s fs h. ap (λ (x : Db). view_of x (find_if fits x.devices)) h.1))
        λ row.
          Triple-bind _ _ (λ device s. view_of d (find_if fits d.devices) ≡ some device)
            (Triple-found row _ (λ s h. tt) (λ s device there h. sym h ∙ there))
            λ device.
              Triple-bind _ _ _ (Triple-require _ _ (λ s h. tt))
                λ _. Triple-pure device (λ s h. row_admits env tenant id secret d device h.1 h.0)

-- The device that `Authenticate` returns, in any state and whichever statements fail, is that of a
-- committed row with the tenant and the id, which holds the hash of the secret that was presented
-- and is neither retired nor wiped.
pub authenticate-IsAdmitted :
    (env : Env) (tenant id secret : String) (s : Sys) (device : Device)
    → (authenticate env tenant id secret s).0 ≡ ok device
    → IsAdmitted env tenant id secret s.db device
authenticate-IsAdmitted env tenant id secret s device admitted =
    Triple-returned _ (Triple-authenticate env tenant id secret s.db) s device refl admitted

-- A row that a test finds after an UPDATE that fits all the rows of the test is a changed one.
find_if-changed :
    (p fits : DeviceRow → Bool) (change : DeviceRow → DeviceRow) (rows : List DeviceRow)
    (row : DeviceRow)
    → ((r : DeviceRow) → p r ≡ true → fits r ≡ true)
    → ((r : DeviceRow) → p (change r) ≡ p r)
    → find_if p (update_where fits change rows) ≡ some row
    → (before : DeviceRow) × (row ≡ change before)
unfolding update_where
find_if-changed p fits change [] row wide same h = absurd (ground arith)
find_if-changed p fits change (r ∷ rows) row wide same h = elim (Bool-cases (p r)) [
  | inl yes' ↦ (r, ground (arith, h, yes', wide r yes', same r))
  | inr no' ↦
      find_if-changed p fits change rows row wide same
        (rw (skipped p change (fits r) r same no') at h)
]

retire_device_run :
    (env : Env) (tenant id : String) (d : Db) (t : Time) (row : DeviceRow)
    → find_if (of_key tenant id) d.devices ≡ some row
    → ((retire_device env tenant id (calm d t)).0 ≡ ok (view d (retired_device t row)))
      × ((retire_device env tenant id (calm d t)).1.db ≡ (retire_row tenant id t d).1)
unfolding retire_device ◌>>=◌ now advance exec step attempt found provision pure
retire_device_run env tenant id d t row there = elim (Bool-cases env.has_provisioner) [
  | inl yes' ↦ rw (there, yes') (refl, refl)
  | inr no' ↦ rw (there, no') (refl, refl)
]

-- No secret opens the rows of a key that was retired.
refused_after :
    (env : Env) (tenant id secret : String) (d : Db) (t u : Time)
    → (str_eq tenant "" || str_eq id "" || str_eq secret "") ≡ false
    → (authenticate env tenant id secret (calm (retire_row tenant id t d).1 u)).0 ≡ err not_found
unfolding authenticate ◌>>=◌ require query step attempt found can_authenticate pure
refused_after env tenant id secret d t u given =
    let opens =
      λ (x : DeviceRow). of_key tenant id x && str_eq x.secret_hash (env.hash_token secret) in
    elim (Option-cases (find_if opens (retire_row tenant id t d).1.devices)) [
      | inl absent ↦ rw (given, absent) refl
      | inr there ↦
          let (before, retired_then) =
            find_if-changed opens (of_key tenant id) (retired_device t) d.devices there.0
              (λ r h. ground (arith, h)) (λ r. refl) there.1 in
          rw (given, there.1 ∙ ap some retired_then) refl
    ]

-- After `RetireDevice` of a device that is there, on a system where no statement fails and the
-- clock stands still during an operation: the device is returned retired, and `Authenticate` on the
-- tables that this leaves, with the same tenant and id, not empty, and any secret that is not
-- empty, at whatever time, answers that there is no such device.
pub retire_device-locks_out :
    (env : Env) (tenant id secret : String) (d : Db) (t : Time) (row : DeviceRow) (u : Time)
    → find_if (of_key tenant id) d.devices ≡ some row
    → (str_eq tenant "" || str_eq id "" || str_eq secret "") ≡ false
    → ((retire_device env tenant id (calm d t)).0 ≡ ok (view d (retired_device t row)))
      × ((authenticate env tenant id secret
            (calm (retire_device env tenant id (calm d t)).1.db u)).0
          ≡ err not_found)
retire_device-locks_out env tenant id secret d t row u there given =
    let run = retire_device_run env tenant id d t row there in
    (run.0, rw run.1 (refused_after env tenant id secret d t u given))
