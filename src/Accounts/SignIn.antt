-- ===== src/Accounts/SignIn.antt =====
-- Who may sign in as a user of server/internal/users/postgres/store.go.
use xmdm.Common.{
  some_inj, and_parts, subst, ◌≡◌, refl, String, Bool, true, false, ◌||◌, not, Option, none, some,
  str_eq, find_if, arith, Bool-cases, inl, inr, ap,
}
use xmdm.Database.Rows.{Db, Time, RoleRow, UserRow}
use xmdm.Database.{
  Sys, invalid_credentials, ok, err, Env, calm, pure, ◌>>=◌, query, exec, now, step, attempt,
  advance, require, found,
}
use xmdm.Database.Query.{find_if-update_where, find_if_passes}
use xmdm.Database.Table.{of_id, is_active, retired_base, retire_row, change_row, answered}
use xmdm.Database.Yields.{
  Yields, Yields-bind, Yields-bind_with, Yields-query, Yields-found, Yields-require, Yields-pure,
}
use xmdm.Accounts.{
  pair_with, with_role_of, roles_table, users_table, user_of, verify_password, user_and_role,
  checked, authenticate_user, retire_user,
}

-- The user and the role that are shown are those of the tenant and the address.
pub record IsSignedIn (bcrypt : String → String → Bool) (env : Env) (tenant email password : String)
    (pair : UserRow × RoleRow) : Type 0 where
  pub verified : verify_password bcrypt env.hash_token pair.0.password_hash password ≡ true
  pub in_tenant : str_eq pair.0.base.tenant_id tenant ≡ true
  pub of_email : str_eq pair.0.email email ≡ true
  pub user_active : is_active pair.0.base.status ≡ true
  pub role_active : is_active pair.1.base.status ≡ true
  pub of_role : of_id roles_table pair.0.base.tenant_id pair.0.role_id pair.1 ≡ true

IsPair : String → String → Option (UserRow × RoleRow) → Type 0
IsPair tenant email o =
    (pair : UserRow × RoleRow)
    → o ≡ some pair
    → (user_of tenant email pair.0 ≡ true)
      × (of_id roles_table pair.0.base.tenant_id pair.0.role_id pair.1 ≡ true)

pair_with-some :
    (u : UserRow) (o : Option RoleRow) (pair : UserRow × RoleRow)
    → pair_with u o ≡ some pair
    → (u ≡ pair.0) × (o ≡ some pair.1)
pair_with-some u none pair h = absurd (ground arith)
pair_with-some u (some r) pair h =
    let same : Path (UserRow × RoleRow) (u, r) pair = some_inj _ _ h in
    (ap (λ (p : UserRow × RoleRow). p.0) same, ap (λ (p : UserRow × RoleRow). some p.1) same)

with_role_of-IsPair :
    (tenant email : String) (db : Db) (o : Option UserRow)
    → find_if (user_of tenant email) db.catalog.users ≡ o
    → IsPair tenant email (with_role_of db o)
unfolding IsPair
with_role_of-IsPair tenant email db none e pair h = absurd (ground arith)
with_role_of-IsPair tenant email db (some u) e pair h =
    let parts = pair_with-some u _ pair h in
    let key : user_of tenant email u ≡ true =
      find_if_passes (user_of tenant email) db.catalog.users u e in
    let role : of_id roles_table u.base.tenant_id u.role_id pair.1 ≡ true =
      find_if_passes (of_id roles_table u.base.tenant_id u.role_id) db.catalog.roles pair.1
        parts.1 in
    subst
      (λ (v : UserRow).
        (user_of tenant email v ≡ true)
        × (of_id roles_table v.base.tenant_id v.role_id pair.1 ≡ true))
      parts.0 (key, role)

user_and_role-IsPair :
    (tenant email : String) (db : Db) → IsPair tenant email (user_and_role tenant email db)
unfolding user_and_role
user_and_role-IsPair tenant email db = with_role_of-IsPair tenant email db _ refl

Yields-authenticate_user :
    (bcrypt : String → String → Bool) (env : Env) (tenant email password : String)
    → Yields
        (IsSignedIn bcrypt env tenant email password)
        (authenticate_user bcrypt env tenant email password)
unfolding authenticate_user checked IsPair
Yields-authenticate_user bcrypt env tenant email password = Yields-bind _ _ λ _.
    Yields-bind_with _ _
      (Yields-query {P = IsPair tenant email} _ (user_and_role-IsPair tenant email))
      λ row matches. Yields-bind_with _ _ (Yields-found row _) λ pair there.
        Yields-bind_with _ _ (Yields-require _ _) λ _ verified.
          Yields-bind_with _ _ (Yields-require _ _) λ _ may. Yields-pure pair (
            let fits = matches pair there in
            let key =
              and_parts (str_eq pair.0.base.tenant_id tenant) (str_eq pair.0.email email) fits.0 in
            let both =
              and_parts (is_active pair.0.base.status) (is_active pair.1.base.status) may in
            record {
              verified = verified;
              in_tenant = key.0;
              of_email = key.1;
              user_active = both.0;
              role_active = both.1;
              of_role = fits.1;
            })

-- What AuthenticateUser returns, in any state and whichever statements fail, is an active user of
-- the tenant with the address, whose password hash verifies the password, and the user's own role,
-- which is active and of the same tenant.
pub authenticate_user-IsSignedIn :
    (bcrypt : String → String → Bool) (env : Env) (tenant email password : String) (s : Sys)
    (pair : UserRow × RoleRow)
    → (authenticate_user bcrypt env tenant email password s).0 ≡ ok pair
    → IsSignedIn bcrypt env tenant email password pair
authenticate_user-IsSignedIn bcrypt env tenant email password s pair shown =
    (Yields-authenticate_user bcrypt env tenant email password).at s pair shown

pair_refused :
    (bcrypt : String → String → Bool) (env : Env) (password : String) (s : Sys) (u : UserRow)
    (o : Option RoleRow)
    → is_active u.base.status ≡ false
    → ((found (pair_with u o) invalid_credentials >>= checked bcrypt env password) s).0
      ≡ err invalid_credentials
unfolding found ◌>>=◌ require pure checked
pair_refused bcrypt env password s u none h = refl
pair_refused bcrypt env password s u (some r) h =
    elim (Bool-cases (verify_password bcrypt env.hash_token u.password_hash password)) [
      | inl yes' ↦ rw (yes', h) refl
      | inr no' ↦ rw no' refl
    ]

abbrev retired_user : Time → UserRow → UserRow
retired_user t u = record u { base = retired_base t u.base }

-- After RetireUser of the user with an address, where no statement fails, AuthenticateUser refuses
-- the address whatever the password.
pub retire_user-locks_out :
    (bcrypt : String → String → Bool) (env : Env) (tenant email password : String) (d : Db)
    (t : Time) (u : UserRow)
    → find_if (user_of tenant email) d.catalog.users ≡ some u
    → find_if (of_id users_table tenant u.base.id) d.catalog.users ≡ some u
    → (authenticate_user bcrypt env tenant email password
        (retire_user tenant u.base.id (calm d t)).1).0
      ≡ err invalid_credentials
unfolding retire_user retire_row change_row answered now advance exec step attempt ◌>>=◌ pure
    authenticate_user query require user_and_role
retire_user-locks_out bcrypt env tenant email password d t u named there =
    elim (Bool-cases (not (str_eq tenant "" || str_eq email "" || str_eq password ""))) [
      | inr blank ↦ rw (there, blank) refl
      | inl given ↦
          rw
            (
              there,
              given,
              find_if-update_where (user_of tenant email) (of_id users_table tenant u.base.id)
                  (retired_user t) d.catalog.users u (λ r. refl)
                  (find_if_passes (of_id users_table tenant u.base.id) d.catalog.users u there)
                  named,
            )
            (pair_refused bcrypt env password _ (retired_user t u) _ refl)
    ]
