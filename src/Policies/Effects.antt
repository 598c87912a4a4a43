-- ===== src/Policies/Effects.antt =====
-- What the list of active assignments shows after a call that adds or removes one
-- (server/internal/policy/postgres/store.go).
pub mod Listed
use xmdm.Common.{
  ◌≡◌, refl, sym, ap, ◌∙◌, List, [], ◌∷◌, ◌++◌, String, Bool, true, false, ◌&&◌, ◌||◌, not, some,
  if◌then◌else◌, str_eq, eq_refl, any_of, find_if, keep_if, arith, Bool-cases, Option-cases, inl,
  inr, ◌==◌,
}
use xmdm.Database.Rows.{Db, Time, BindingRow}
use xmdm.Database.{
  Error, conflict, ok, err, Env, Sys, Store, calm, pure, raise, ◌>>=◌, query, exec, now, new_uuid,
  require, step, attempt, advance,
}
use xmdm.Database.Query.{update_where, count_where, order_by, insert_by}
use xmdm.Database.Stands.{IsTable}
use xmdm.Database.Table.{
  Table, is_active, answered, Written, written, none_fits, violates, upsert_row, insert_row,
  new_base, select_all, oldest_first,
}
use xmdm.Database.Tables.{
  policies_table, policy_apps_table, policy_certificates_table, policy_managed_files_table,
  apps_table, certificates_table, managed_files_table,
}
use xmdm.Policies.Bindings.{
  in_use, of_policy, of_pair, active_base, disabled_base, add_binding, remove_binding,
  list_active_bindings, add_policy_app, remove_policy_app, list_active_policy_apps,
  add_policy_certificate, remove_policy_certificate, list_active_policy_certificates,
  add_policy_managed_file, remove_policy_managed_file, list_active_policy_managed_files,
}
use xmdm.Policies.Effects.Listed.{
  lists, ok_inj, any_of-order_by, any_of-kept, any_of-cleared, any_of-made, any_of-last, unlisted,
  paired, not_violated, not_ok, answered-ok,
}

module _ (T : Table BindingRow) (lens : IsTable T)
    (base_lens : (b : BindingRow) → T.base b ≡ b.base) (tenant policy item : String) where
  is_listed : BindingRow → Bool
  is_listed b = (of_policy T tenant policy b && is_active b.base.status) && str_eq b.item_id item

  -- What the list of active assignments shows in a calm state.
  list_active-lists :
      (s : Sys) (rows : List BindingRow)
      → s.faults ≡ []
      → (list_active_bindings T tenant policy s).0 ≡ ok rows
      → lists item rows ≡ any_of is_listed (T.rows s.db)
  unfolding list_active_bindings select_all query step attempt lists is_listed
  list_active-lists s rows calm' h =
      let shown = ok_inj _ rows (rw calm' at h) in
      ap (any_of (λ b. str_eq b.item_id item)) (sym shown)
      ∙ any_of-order_by (λ b. str_eq b.item_id item) (oldest_first T) _
      ∙ any_of-kept (λ b. str_eq b.item_id item) _ (T.rows s.db)

  removed_db : Time → Db → Db
  removed_db t d =
      T.with_rows (update_where (of_pair T tenant policy item) (disabled_base t) (T.rows d)) d

  remove-run :
      (d : Db) (t : Time)
      → (remove_binding T tenant policy item (calm d t)).1
        ≡ record (calm d t) { db = removed_db t d }
  unfolding remove_binding now advance exec step attempt ◌>>=◌ require removed_db
  remove-run d t =
      elim (Bool-cases (not (count_where (of_pair T tenant policy item) (T.rows d) == 0))) [
        | inl some' ↦ rw some' refl
        | inr none' ↦ rw none' refl
      ]

  disabled-unlisted : (t : Time) (b : BindingRow) → is_listed (disabled_base t b) ≡ false
  unfolding is_listed
  disabled-unlisted t b = ground arith

  other-unlisted : (b : BindingRow) → of_pair T tenant policy item b ≡ false → is_listed b ≡ false
  unfolding is_listed
  other-unlisted b h =
      unlisted (of_policy T tenant policy b) (str_eq b.item_id item) (is_active b.base.status) h

  remove-lists :
      (d : Db) (t : Time) (rows : List BindingRow)
      → (list_active_bindings T tenant policy (remove_binding T tenant policy item (calm d t)).1).0
        ≡ ok rows
      → lists item rows ≡ false
  unfolding removed_db
  remove-lists d t rows h =
      list_active-lists (record (calm d t) { db = removed_db t d }) rows refl
        (rw (remove-run d t) at h)
      ∙ rw (lens (update_where (of_pair T tenant policy item) (disabled_base t) (T.rows d)) d) (
          any_of-cleared is_listed (of_pair T tenant policy item) (disabled_base t) (T.rows d)
            (λ r fit. disabled-unlisted t r) other-unlisted)

  new_row : String → Time → BindingRow
  new_row id t = record { base = new_base id tenant t t; policy_id = policy; item_id = item }

  upserted : String → Time → Db → Written BindingRow × Db
  upserted id t d = upsert_row T (of_pair T tenant policy item) (new_row id t) (active_base t) d

  active-listed :
      (t : Time) (b : BindingRow)
      → of_pair T tenant policy item b ≡ true
      → is_listed (active_base t b) ≡ true
  unfolding is_listed
  active-listed t b h = rw (base_lens (active_base t b)) (
      paired (str_eq b.base.tenant_id tenant) (str_eq b.policy_id policy) (str_eq b.item_id item)
        (rw (base_lens b) at h))

  new-listed : (id : String) (t : Time) → is_listed (new_row id t) ≡ true
  unfolding is_listed new_row
  new-listed id t = rw (base_lens (new_row id t), eq_refl tenant, eq_refl policy, eq_refl item) refl

  -- What an upsert leaves is listed, if it wrote a row.
  upsert-listed :
      (id : String) (t : Time) (d : Db) (row : BindingRow)
      → (upserted id t d).0 ≡ written row
      → any_of is_listed (T.rows (upserted id t d).1) ≡ true
  unfolding upserted upsert_row insert_row
  upsert-listed id t d row h =
      elim (Option-cases (find_if (of_pair T tenant policy item) (T.rows d))) [
        | inr there ↦
            rw
              (
                upsert_row,
                there.1,
                lens (update_where (of_pair T tenant policy item) (active_base t) (T.rows d)) d,
              )
              (any_of-made is_listed (of_pair T tenant policy item) (active_base t) (T.rows d)
                there.0 (λ r fit. active-listed t r fit) there.1)
        | inl absent ↦
            elim (Bool-cases (
              any_of
                (λ o.
                  str_eq (T.base o).id (T.base (new_row id t)).id || of_pair T tenant policy item o)
                (T.rows d))) [
                  | inl taken ↦ absurd (not_violated row (rw (upsert_row, absent, taken) at h))
                  | inr free ↦
                      rw (upsert_row, absent, free, lens (T.rows d ++ new_row id t ∷ []) d)
                        (any_of-last is_listed (T.rows d) (new_row id t) (new-listed id t))
                ]
      ]

  module _ {R : Type 0} (items : Table R) (env : Env) where
    after_add : Db → Time → Sys
    after_add d t = record (calm d t) { db = (upserted (env.uuid 0) t d).1; drawn = 1 }

    -- A call that adds the item and returns wrote a row.
    add-run :
        (d : Db) (t : Time) (row : BindingRow)
        → (add_binding T items env tenant policy item (calm d t)).0 ≡ ok row
        → ((upserted (env.uuid 0) t d).0 ≡ written row)
          × ((add_binding T items env tenant policy item (calm d t)).1 ≡ after_add d t)
    unfolding add_binding now advance query exec step attempt ◌>>=◌ require raise new_uuid after_add
        upserted new_row
    add-run d t row h = elim (Bool-cases (str_eq tenant "" || str_eq policy "" || str_eq item "")) [
      | inl blank ↦ absurd (not_ok row (rw blank at h))
      | inr given ↦ elim (Bool-cases (in_use policies_table tenant policy d)) [
        | inr no_policy ↦ absurd (not_ok row (rw (given, no_policy) at h))
        | inl policy_there ↦ elim (Bool-cases (in_use items tenant item d)) [
          | inr no_item ↦ absurd (not_ok row (rw (given, policy_there, no_item) at h))
          | inl item_there ↦
              let done =
                answered-ok conflict _ (after_add d t) row
                  (rw (given, policy_there, item_there) at h) in
              (done.0, rw (given, policy_there, item_there) done.1)
        ]
      ]
    ]

    add-lists :
        (d : Db) (t : Time) (row : BindingRow) (rows : List BindingRow)
        → (add_binding T items env tenant policy item (calm d t)).0 ≡ ok row
        → (list_active_bindings T tenant policy
            (add_binding T items env tenant policy item (calm d t)).1).0
          ≡ ok rows
        → lists item rows ≡ true
    unfolding after_add
    add-lists d t row rows added h =
        let run = add-run d t row added in
        list_active-lists (after_add d t) rows refl (rw run.1 at h)
        ∙ upsert-listed (env.uuid 0) t d row run.0

-- What a policy can assign.
pub data Kind : Type 0 where
  app certificate managed_file : Kind

unfoldable pub add_of : Kind → Env → String → String → String → Store BindingRow
add_of app = add_policy_app
add_of certificate = add_policy_certificate
add_of managed_file = add_policy_managed_file

unfoldable pub remove_of : Kind → String → String → String → Store (Unit {0})
remove_of app = remove_policy_app
remove_of certificate = remove_policy_certificate
remove_of managed_file = remove_policy_managed_file

unfoldable pub list_active_of : Kind → String → String → Store (List BindingRow)
list_active_of app = list_active_policy_apps
list_active_of certificate = list_active_policy_certificates
list_active_of managed_file = list_active_policy_managed_files

-- Where no statement fails, an item that was added to a policy is in the list of what is active for
-- the policy, for apps, certificates and managed files.
pub add_of-lists :
    (kind : Kind) (env : Env) (tenant policy item : String) (d : Db) (t : Time) (row : BindingRow)
    (rows : List BindingRow)
    → (add_of kind env tenant policy item (calm d t)).0 ≡ ok row
    → (list_active_of kind tenant policy (add_of kind env tenant policy item (calm d t)).1).0
      ≡ ok rows
    → lists item rows ≡ true
unfolding add_of list_active_of add_policy_app add_policy_certificate add_policy_managed_file
    list_active_policy_apps list_active_policy_certificates list_active_policy_managed_files
add_of-lists app env tenant policy item d t row rows =
    add-lists policy_apps_table (λ r db. refl) (λ b. refl) tenant policy item apps_table env d t row
      rows
add_of-lists certificate env tenant policy item d t row rows =
    add-lists policy_certificates_table (λ r db. refl) (λ b. refl) tenant policy item
      certificates_table env d t row rows
add_of-lists managed_file env tenant policy item d t row rows =
    add-lists policy_managed_files_table (λ r db. refl) (λ b. refl) tenant policy item
      managed_files_table env d t row rows

-- Where no statement fails, an item that was removed from a policy is not in the list of what is
-- active for the policy, for apps, certificates and managed files.
pub remove_of-unlists :
    (kind : Kind) (tenant policy item : String) (d : Db) (t : Time) (rows : List BindingRow)
    → (list_active_of kind tenant policy (remove_of kind tenant policy item (calm d t)).1).0
      ≡ ok rows
    → lists item rows ≡ false
unfolding remove_of list_active_of remove_policy_app remove_policy_certificate
    remove_policy_managed_file list_active_policy_apps list_active_policy_certificates
    list_active_policy_managed_files
remove_of-unlists app tenant policy item d t rows =
    remove-lists policy_apps_table (λ r db. refl) (λ b. refl) tenant policy item d t rows
remove_of-unlists certificate tenant policy item d t rows =
    remove-lists policy_certificates_table (λ r db. refl) (λ b. refl) tenant policy item d t rows
remove_of-unlists managed_file tenant policy item d t rows =
    remove-lists policy_managed_files_table (λ r db. refl) (λ b. refl) tenant policy item d t rows
