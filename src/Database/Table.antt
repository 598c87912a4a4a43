-- ===== src/Database/Table.antt =====
-- The statements that the stores of the administrators' records share: SELECT of a page, of the
-- active rows and of one row, INSERT and UPDATE with RETURNING under a UNIQUE constraint, and ON
-- CONFLICT. A table is given by its rows in the database and by the record base of a row.
use xmdm.Common.{
  ℕ, List, [], ◌∷◌, ◌++◌, String, Bool, true, false, ◌&&◌, ◌||◌, not, none, some, if◌then◌else◌,
  str_eq, keep_if, find_if, any_of, length,
}
use xmdm.Common.Int.{pos}
use xmdm.Pagination.{Params, default_limit, normalize}
use xmdm.Database.Rows.{Db, Time, RecordBase, RecordStatus}
use xmdm.Database.{Error, not_found, Store, pure, raise, ◌>>=◌, query, exec, now, found}
use xmdm.Database.Query.{order_by, slice, earlier, update_where, count_where}

pub record Table (R : Type 0) : Type 0 where
  pub rows : Db → List R
  pub with_rows : List R → Db → Db
  pub base : R → RecordBase

abbrev pub is_active : RecordStatus → Bool
is_active RecordStatus.active = true
is_active _ = false

abbrev pub is_retired : RecordStatus → Bool
is_retired RecordStatus.retired = true
is_retired _ = false

-- What a statement that writes one row did: no row fits it, it would break a UNIQUE constraint, or
-- the row as it is now.
pub data Written (R : Type 0) : Type 0 where
  none_fits violates : Written R
  written : R → Written R

-- A row of one's own: `id` and the times, with the defaults of the columns.
abbrev pub new_base : String → String → Time → Time → RecordBase
new_base id tenant created t = record {
  id = id;
  tenant_id = tenant;
  status = RecordStatus.active;
  created_at = created;
  updated_at = t;
  deleted_at = none;
}

-- SET status = 'retired', deleted_at = t, updated_at = t
abbrev pub retired_base : Time → RecordBase → RecordBase
retired_base t b = record b { status = RecordStatus.retired; deleted_at = some t; updated_at = t }

-- The row, or the errors of a statement that fits none or breaks a UNIQUE constraint.
unfoldable pub answered : {R : Type 0} → Error → Written R → Store R
answered e none_fits = raise not_found
answered e violates = raise e
answered e (written row) = pure row

module _ {R : Type 0} (T : Table R) where
  abbrev pub of_tenant : String → R → Bool
  of_tenant tenant row = str_eq (T.base row).tenant_id tenant

  -- WHERE tenant_id = … AND id = …
  abbrev pub of_id : String → String → R → Bool
  of_id tenant id row = of_tenant tenant row && str_eq (T.base row).id id

  abbrev pub newest_first : R → R → Bool
  newest_first a b = earlier (T.base b).created_at (T.base b).id (T.base a).created_at (T.base a).id

  abbrev pub oldest_first : R → R → Bool
  oldest_first a b = earlier (T.base a).created_at (T.base a).id (T.base b).created_at (T.base b).id

  unfoldable pub select_all : (R → R → Bool) → (R → Bool) → Store (List R)
  select_all before fits = query (λ db. order_by before (keep_if fits (T.rows db)))

  unfoldable pub select_page : (R → R → Bool) → (R → Bool) → Params → Store (List R)
  select_page before fits page =
      let p = normalize page default_limit (pos 100) in
      query (λ db. slice p (order_by before (keep_if fits (T.rows db))))

  -- SELECT of one row, `not_found` where there is none
  unfoldable pub select_one : (R → Bool) → Store R
  select_one fits = do row ← query (λ db. find_if fits (T.rows db)); found row not_found

  -- INSERT; `clash` tells which rows a UNIQUE constraint does not allow beside the new one.
  unfoldable pub insert_row : (R → Bool) → R → Db → Written R × Db
  insert_row clash row db =
      if any_of (λ other. str_eq (T.base other).id (T.base row).id || clash other) (T.rows db)
      then (violates, db)
      else (written row, T.with_rows (T.rows db ++ row ∷ []) db)

  -- UPDATE of the one row that fits, of columns that no UNIQUE constraint names.
  unfoldable pub change_row : (R → Bool) → (R → R) → Db → Written R × Db
  change_row fits change db = elim (find_if fits (T.rows db)) [
    | none ↦ (none_fits, db)
    | some row ↦ (written (change row), T.with_rows (update_where fits change (T.rows db)) db)
  ]

  -- UPDATE; `clash row other` tells that both cannot stand in the table.
  unfoldable pub update_row : (R → Bool) → (R → R) → (R → R → Bool) → Db → Written R × Db
  unfolding change_row
  update_row fits change clash db = elim (find_if fits (T.rows db)) [
    | none ↦ (none_fits, db)
    | some row ↦
        if any_of (λ other. not (fits other) && clash (change row) other) (T.rows db)
        then (violates, db)
        else change_row fits change db
  ]

  -- INSERT … ON CONFLICT … DO UPDATE; `same` tells which row has the key of the new one.
  unfoldable pub upsert_row : (R → Bool) → R → (R → R) → Db → Written R × Db
  unfolding insert_row
  upsert_row same row change db = elim (find_if same (T.rows db)) [
    | none ↦ insert_row same row db
    | some old ↦ (written (change old), T.with_rows (update_where same change (T.rows db)) db)
  ]

  -- UPDATE … SET status = 'retired' … WHERE tenant_id = … AND id = … RETURNING …
  unfoldable pub retire_row : (Time → R → R) → (R → Bool) → Store R
  unfolding change_row
  retire_row change fits = do
    t ← now
    row ← exec (change_row fits (change t))
    answered not_found row

  -- COUNT(*) and COUNT(*) FILTER
  abbrev pub count_of : String → (RecordStatus → Bool) → Db → ℕ
  count_of tenant test db =
      count_where (λ r. test (T.base r).status) (keep_if (of_tenant tenant) (T.rows db))

  abbrev pub count_all : String → Db → ℕ
  count_all tenant db = length (keep_if (of_tenant tenant) (T.rows db))
