-- ===== src/Accounts.antt =====
-- server/internal/roles/postgres/store.go, server/internal/users/postgres/store.go and
-- server/internal/users/password.go: the roles and users of a tenant, and who may sign in. The
-- column with the permissions of a role holds the list that was written into it as JSON. The tests
-- of bcrypt are a parameter.
pub mod SignIn
mod Tests
use xmdm.Common.{
  ℕ, List, [], ◌∷◌, String, Bool, true, false, ◌&&◌, ◌||◌, not, Option, none, some, if◌then◌else◌,
  str_eq, starts_with, find_if, any_of, ◌==◌,
}
use xmdm.Pagination.{Params}
use xmdm.Database.Rows.{Db, RoleRow, UserRow}
use xmdm.Database.{
  database, invalid_input, invalid_credentials, Env, Store, pure, raise, ◌>>=◌, ◌>>◌, query, exec,
  now, new_uuid, require, found,
}
use xmdm.Database.Table.{
  Table, of_tenant, of_id, is_active, new_base, retired_base, newest_first, select_all, select_page,
  select_one, insert_row, update_row, retire_row, answered, Written, none_fits, violates, written,
}

abbrev pub roles_table : Table RoleRow
roles_table = record {
  rows = λ db. db.catalog.roles;
  with_rows = λ rows db. record db { catalog = record db.catalog { roles = rows } };
  base = λ r. r.base;
}

abbrev pub users_table : Table UserRow
users_table = record {
  rows = λ db. db.catalog.users;
  with_rows = λ rows db. record db { catalog = record db.catalog { users = rows } };
  base = λ u. u.base;
}

-- UNIQUE (tenant_id, name)
abbrev role_named : String → String → RoleRow → Bool
role_named tenant name r = of_tenant roles_table tenant r && str_eq r.name name

-- UNIQUE (tenant_id, email)
abbrev pub user_of : String → String → UserRow → Bool
user_of tenant email u = of_tenant users_table tenant u && str_eq u.email email

-- `CreateRole`
unfoldable pub create_role : Env → String → String → List String → Store RoleRow
create_role env tenant name permissions = if str_eq name "" then raise invalid_input else (do
  id ← new_uuid env
  t ← now
  created ← now
  row ← exec (
      insert_row roles_table (role_named tenant name)
        (record { base = new_base id tenant created t; name = name; permissions = permissions }))
  answered database row)

-- `ListRoles`
unfoldable pub list_roles : String → Params → Store (List RoleRow)
list_roles tenant page =
    select_page roles_table (newest_first roles_table) (of_tenant roles_table tenant) page

-- `ListActiveRoles`
unfoldable pub list_active_roles : String → Store (List RoleRow)
list_active_roles tenant =
    select_all roles_table (newest_first roles_table)
      (λ r. of_tenant roles_table tenant r && is_active r.base.status)

-- `GetRole`
unfoldable pub get_role : String → String → Store RoleRow
get_role tenant id = select_one roles_table (of_id roles_table tenant id)

-- `UpdateRole`, for a role that is active
unfoldable pub update_role : String → String → String → List String → Store RoleRow
update_role tenant id name permissions = if str_eq name "" then raise invalid_input else (do
  t ← now
  row ← exec (
      update_row roles_table (λ r. of_id roles_table tenant id r && is_active r.base.status)
        (λ r. record {
          base = record r.base { updated_at = t };
          name = name;
          permissions = permissions;
        })
        (λ r other. role_named tenant name other))
  answered database row)

-- `RetireRole`
unfoldable pub retire_role : String → String → Store RoleRow
retire_role tenant id =
    retire_row roles_table (λ t r. record r { base = retired_base t r.base })
      (of_id roles_table tenant id)

pub record UserUpsert : Type 0 where
  pub email : String
  pub password_hash : String
  pub role_id : String

-- A statement on a key that is not there: one that fits no row changes nothing anyway.
abbrev refused : Written UserRow → Written UserRow
refused none_fits = none_fits
refused violates = violates
refused (written u) = violates

-- FOREIGN KEY (tenant_id, role_id) REFERENCES roles
abbrev with_role : String → String → (Db → Written UserRow × Db) → Db → Written UserRow × Db
with_role tenant role write db =
    let done = write db in
    if any_of (of_id roles_table tenant role) db.catalog.roles then done else (refused done.0, db)

-- `CreateUser`
unfoldable pub create_user : Env → String → UserUpsert → Store UserRow
create_user env tenant req =
    if str_eq req.email "" || str_eq req.password_hash "" || str_eq req.role_id ""
    then raise invalid_input
    else (do
      t ← now
      id ← new_uuid env
      created ← now
      row ← exec (
          with_role tenant req.role_id (
            insert_row users_table (user_of tenant req.email) (record {
              base = new_base id tenant created t;
              email = req.email;
              password_hash = req.password_hash;
              role_id = req.role_id;
            })))
      answered database row)

-- `ListUsers`
unfoldable pub list_users : String → Params → Store (List UserRow)
list_users tenant page =
    select_page users_table (newest_first users_table) (of_tenant users_table tenant) page

-- `ListActiveUsers`
unfoldable pub list_active_users : String → Store (List UserRow)
list_active_users tenant =
    select_all users_table (newest_first users_table)
      (λ u. of_tenant users_table tenant u && is_active u.base.status)

-- `GetUser`
unfoldable pub get_user : String → String → Store UserRow
get_user tenant id = select_one users_table (of_id users_table tenant id)

-- `UpdateUser`, for a user that is active; a blank password hash leaves the one that there is
unfoldable pub update_user : String → String → UserUpsert → Store UserRow
update_user tenant id req =
    if str_eq req.email "" || str_eq req.role_id "" then raise invalid_input else (do
      t ← now
      row ← exec (
          with_role tenant req.role_id (
            update_row users_table (λ u. of_id users_table tenant id u && is_active u.base.status)
              (λ u. record {
                base = record u.base { updated_at = t };
                email = req.email;
                password_hash =
                    if str_eq req.password_hash "" then u.password_hash else req.password_hash;
                role_id = req.role_id;
              })
              (λ u other. user_of tenant req.email other)))
      answered database row)

-- `RetireUser`
unfoldable pub retire_user : String → String → Store UserRow
retire_user tenant id =
    retire_row users_table (λ t u. record u { base = retired_base t u.base })
      (of_id users_table tenant id)

-- `verifyPassword`
unfoldable pub verify_password :
    (String → String → Bool) → (String → String) → String → String → Bool
verify_password bcrypt hash_token hash password =
    if str_eq hash "" || str_eq password ""
    then false
    else if starts_with hash "$2"
    then bcrypt hash password
    else str_eq hash (hash_token password)

abbrev pub pair_with : UserRow → Option RoleRow → Option (UserRow × RoleRow)
pair_with u none = none
pair_with u (some r) = some (u, r)

abbrev pub with_role_of : Db → Option UserRow → Option (UserRow × RoleRow)
with_role_of db none = none
with_role_of db (some u) =
    pair_with u (find_if (of_id roles_table u.base.tenant_id u.role_id) db.catalog.roles)

-- The join of a user with the role of the same tenant.
unfoldable pub user_and_role : String → String → Db → Option (UserRow × RoleRow)
user_and_role tenant email db = with_role_of db (find_if (user_of tenant email) db.catalog.users)

-- The checks of `AuthenticateUser` on the row that it loaded.
unfoldable pub checked :
    (String → String → Bool) → Env → String → UserRow × RoleRow → Store (UserRow × RoleRow)
checked bcrypt env password pair = do
  require (verify_password bcrypt env.hash_token pair.0.password_hash password) invalid_credentials
  require (is_active pair.0.base.status && is_active pair.1.base.status) invalid_credentials
  pure pair

-- `AuthenticateUser`
unfoldable pub authenticate_user :
    (String → String → Bool) → Env → String → String → String → Store (UserRow × RoleRow)
authenticate_user bcrypt env tenant email password = do
  require (not (str_eq tenant "" || str_eq email "" || str_eq password "")) invalid_credentials
  row ← query (user_and_role tenant email)
  pair ← found row invalid_credentials
  checked bcrypt env password pair
