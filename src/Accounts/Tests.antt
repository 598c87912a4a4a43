-- ===== src/Accounts/Tests.antt =====
-- Users and roles of server/internal/users and server/internal/roles at given rows.
use xmdm.Common.{◌≡◌, refl, String, [], ◌∷◌, Bool, false, none}
use xmdm.Database.Rows.{Db, RoleRow, UserRow, empty_db, empty_catalog}
use xmdm.Database.{
  err, database, invalid_credentials, Env, calm, pure, raise, ◌>>=◌, query, exec, now, step,
  attempt, advance, require, found, new_uuid,
}
use xmdm.Database.Table.{new_base, insert_row, answered}
use xmdm.Accounts.{
  create_user, authenticate_user, checked, user_and_role, verify_password, retire_user,
}
use xmdm.Accounts.SignIn.{IsSignedIn, authenticate_user-IsSignedIn, retire_user-locks_out}

abbrev operator : RoleRow
operator = record {
  base = new_base "r1" "t" 1 1;
  name = "operator";
  permissions = "devices.read" ∷ [];
}

abbrev user : UserRow
user = record {
  base = new_base "u1" "t" 2 2;
  email = "a@b";
  password_hash = "word";
  role_id = "r1";
}

abbrev tables : Db
tables = record empty_db {
  catalog = record empty_catalog { roles = operator ∷ []; users = user ∷ [] };
}

-- A hash that leaves the password as it is, and no hash of bcrypt, serve for an example.
abbrev env : Env
env = record {
  uuid = λ n. "u";
  secret = λ n. "s";
  hash_token = λ s. s;
  publisher = none;
  has_provisioner = false;
}

abbrev no_bcrypt : String → String → Bool
no_bcrypt hash password = false

unknown_role :
    (create_user env "t"
      (record { email = "c@d"; password_hash = "x"; role_id = "r2" })
      (calm tables 5)).0
    ≡ err database
unfolding create_user insert_row answered new_uuid now advance exec step attempt ◌>>=◌ raise
unknown_role = refl

authenticate_user-IsSignedIn_example : IsSignedIn no_bcrypt env "t" "a@b" "word" (user, operator)
unfolding authenticate_user checked user_and_role verify_password query step attempt ◌>>=◌ require
    found pure
authenticate_user-IsSignedIn_example =
    authenticate_user-IsSignedIn no_bcrypt env "t" "a@b" "word" (calm tables 5) (user, operator)
      refl

retire_user-locks_out_example :
    (authenticate_user no_bcrypt env "t" "a@b" "word" (retire_user "t" "u1" (calm tables 5)).1).0
    ≡ err invalid_credentials
retire_user-locks_out_example =
    retire_user-locks_out no_bcrypt env "t" "a@b" "word" tables 5 user refl refl
