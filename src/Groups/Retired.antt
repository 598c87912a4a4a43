-- ===== src/Groups/Retired.antt =====
-- What a group of server/internal/group/postgres/store.go that was retired takes from the command
-- queue of server/internal/commands/postgres/store.go.
use mathlib.Core.List.{flat_map}
use xmdm.Common.{
  ◌≡◌, refl, inl, inr, List, [], ◌∷◌, String, Bool, true, false, ◌&&◌, ◌||◌, none, some, str_eq,
  eq_iff, keep_if, find_if, Bool-cases, Option-cases, and_parts, arith,
}
use xmdm.Database.Rows.{Db, Time, GroupRow, DeviceGroupRow}
use xmdm.Database.{
  Env, Sys, calm, not_found, err, ◌>>=◌, require, query, exec, now, pure, raise, advance, attempt,
  step, begin_tx,
}
use xmdm.Database.Query.{order_by, update_where}
use xmdm.Database.Table.{of_id, retired_base, retire_row, change_row, answered}
use xmdm.Commands.{Upsert}
use xmdm.Commands.Targets.{group_devices, resolve_targets, is_active_group}
use xmdm.Commands.Queue.{enqueue, insert_commands}
use xmdm.Groups.{groups_table, retire_group}

flat_map-keep_if :
    {A B : Type 0} (f : A → List B) (p : A → Bool) (xs : List A)
    → ((x : A) → p x ≡ true → f x ≡ [])
    → flat_map f (keep_if p xs) ≡ []
unfolding flat_map
flat_map-keep_if f p [] nothing = refl
flat_map-keep_if f p (x ∷ xs) nothing = elim (Bool-cases (p x)) [
  | inl yes' ↦ rw (yes', nothing x yes', flat_map-keep_if f p xs nothing) refl
  | inr no' ↦ rw (no', flat_map-keep_if f p xs nothing) refl
]

-- The active groups with the id.
abbrev active_groups : String → String → List GroupRow → List GroupRow
active_groups tenant id groups =
    keep_if
      (λ g. str_eq g.base.tenant_id tenant && str_eq g.base.id id && is_active_group g.base.status)
      groups

abbrev retired_group : Time → GroupRow → GroupRow
retired_group t g = record g { base = retired_base t g.base }

active_groups-update_where :
    (tenant id : String) (t : Time) (groups : List GroupRow)
    → active_groups tenant id (update_where (of_id groups_table tenant id) (retired_group t) groups)
      ≡ []
unfolding update_where
active_groups-update_where tenant id t [] = refl
active_groups-update_where tenant id t (g ∷ groups) =
    elim (Bool-cases (str_eq g.base.tenant_id tenant)) [
      | inr other ↦ rw (other, active_groups-update_where tenant id t groups) (rw other refl)
      | inl ours ↦ elim (Bool-cases (str_eq g.base.id id)) [
        | inr other ↦
            rw (ours, other, active_groups-update_where tenant id t groups) (rw (ours, other) refl)
        | inl here ↦
            rw (ours, here, active_groups-update_where tenant id t groups) (rw (ours, here) refl)
      ]
    ]

some_not_none : (g : GroupRow) → some g ≡ none → ⊥
some_not_none g h = ground arith

active_groups-absent :
    (tenant id : String) (groups : List GroupRow)
    → find_if (of_id groups_table tenant id) groups ≡ none
    → active_groups tenant id groups ≡ []
active_groups-absent tenant id [] h = refl
active_groups-absent tenant id (g ∷ groups) h = elim (Bool-cases (str_eq g.base.tenant_id tenant)) [
  | inr other ↦ rw other (active_groups-absent tenant id groups (rw other at h))
  | inl ours ↦ elim (Bool-cases (str_eq g.base.id id)) [
    | inr other ↦ rw (ours, other) (active_groups-absent tenant id groups (rw (ours, other) at h))
    | inl here ↦ absurd (some_not_none g (rw (ours, here) at h))
  ]
]

flat_map-active_groups :
    {B : Type 0} (f : GroupRow → List B) (tenant id : String) (m : DeviceGroupRow)
    (groups : List GroupRow)
    → active_groups tenant id groups ≡ []
    → (str_eq m.tenant_id tenant && str_eq m.group_id id) ≡ true
    → flat_map f (active_groups m.tenant_id m.group_id groups) ≡ []
unfolding flat_map
flat_map-active_groups f tenant id m groups h fits =
    let parts = and_parts (str_eq m.tenant_id tenant) (str_eq m.group_id id) fits in
    rw ((eq_iff m.tenant_id tenant).0 parts.0, (eq_iff m.group_id id).0 parts.1, h) refl

-- Where no active group has the id, no device is in the group.
group_devices-none :
    (tenant id : String) (db : Db)
    → active_groups tenant id db.groups ≡ []
    → group_devices tenant id db ≡ []
unfolding group_devices order_by
group_devices-none tenant id db h =
    rw
      (flat_map-keep_if _
        (λ (m : DeviceGroupRow). str_eq m.tenant_id tenant && str_eq m.group_id id) db.device_groups
        λ m fits. flat_map-active_groups _ tenant id m db.groups h fits)
      refl

-- RetireGroup leaves no active group with the id.
retire_group-active_groups :
    (tenant id : String) (d : Db) (t : Time)
    → active_groups tenant id (retire_group tenant id (calm d t)).1.db.groups ≡ []
unfolding retire_group retire_row change_row answered now advance exec step attempt ◌>>=◌ pure raise
retire_group-active_groups tenant id d t =
    elim (Option-cases (find_if (of_id groups_table tenant id) d.groups)) [
      | inl absent ↦ rw absent (active_groups-absent tenant id d.groups absent)
      | inr (g, there) ↦ rw there (active_groups-update_where tenant id t d.groups)
    ]

-- No statement fails and the clock ticks evenly.
abbrev IsCalm : Sys → Type 0
IsCalm s = (s.faults ≡ []) × (s.ticks ≡ [])

IsCalm-retire_group :
    (tenant id : String) (d : Db) (t : Time) → IsCalm (retire_group tenant id (calm d t)).1
unfolding retire_group retire_row change_row answered now advance exec step attempt ◌>>=◌ pure raise
IsCalm-retire_group tenant id d t =
    elim (Option-cases (find_if (of_id groups_table tenant id) d.groups)) [
      | inl absent ↦ rw absent (refl, refl)
      | inr (g, there) ↦ rw there (refl, refl)
    ]

-- A command for the group.
abbrev pub for_group : String → Upsert → Upsert
for_group id req = record req { target = record { type = "group"; device_id = ""; group_id = id } }

enqueue-no_group :
    (env : Env) (tenant id : String) (req : Upsert) (s : Sys)
    → (str_eq tenant "" || str_eq req.type "") ≡ false
    → str_eq id "" ≡ false
    → IsCalm s
    → active_groups tenant id s.db.groups ≡ []
    → (enqueue env tenant (for_group id req) s).0 ≡ err not_found
unfolding enqueue require pure raise ◌>>=◌ now advance resolve_targets query attempt step begin_tx
    insert_commands
enqueue-no_group env tenant id req s given named is_calm none_active =
    rw (given, named, is_calm.0, is_calm.1, group_devices-none tenant id s.db none_active) refl

-- After RetireGroup, where no statement fails, whether or not there was such a group, Enqueue of a
-- command for the group answers ErrNotFound, if the tenant, the type of the command and the id of
-- the group are not empty.
pub retire_group-takes_no_commands :
    (env : Env) (tenant id : String) (req : Upsert) (d : Db) (t : Time)
    → (str_eq tenant "" || str_eq req.type "") ≡ false
    → str_eq id "" ≡ false
    → (enqueue env tenant (for_group id req) (retire_group tenant id (calm d t)).1).0
      ≡ err not_found
retire_group-takes_no_commands env tenant id req d t given named =
    enqueue-no_group env tenant id req (retire_group tenant id (calm d t)).1 given named
      (IsCalm-retire_group tenant id d t) (retire_group-active_groups tenant id d t)
