-- ===== src/Database.antt =====
-- database.py: the table of users as the list of its rows in the order of insertion, with the
-- columns that the program reads. SHA-256 in hexadecimal is a parameter; `salt` is the random one.
pub mod Users
use cloudmer_cloud_storage.Prelude.{
  String, ◌<>◌, Bool, true, false, not, Option, none, some, List, [], ◌∷◌, ◌++◌, str_eq,
  if◌then◌else◌,
}

pub record User : Type 0 where
  pub full_name : String
  pub email : String
  pub password : String
  pub salt : String
  pub role : String

pub data LoginResult : Type 0 where
  welcome : User → LoginResult
  refused : String → LoginResult

-- `SELECT * FROM users WHERE email = ?` and `fetchone()`
unfoldable pub get_user_by_email : List User → String → Option User
get_user_by_email [] email = none
get_user_by_email (u ∷ us) email =
    let rest = get_user_by_email us email in if str_eq u.email email then some u else rest

module _ (sha256_hex : String → String) where
  abbrev pub hash_password : String → String → String
  hash_password password salt = sha256_hex (password <> salt)

  -- The constraint UNIQUE on the column refuses an email that the table has.
  abbrev pub insert_user : User → List User → Option User → List User × Bool × String
  insert_user u users none = (users ++ u ∷ [], true, "User registered successfully.")
  insert_user u users (some _) = (users, false, "Email already exists.")

  unfoldable pub register_user :
      String → List User → String → String → String → String → List User × Bool × String
  unfolding get_user_by_email
  register_user salt users full_name email password role =
      insert_user
        (record {
          full_name = full_name;
          email = email;
          password = hash_password password salt;
          salt = salt;
          role = role;
        })
        users (get_user_by_email users email)

  abbrev pub check_password : String → Option User → LoginResult
  check_password password none = refused "Account not found."
  check_password password (some user) =
      if not (str_eq (hash_password password user.salt) user.password)
      then refused "Incorrect password."
      else welcome user

  unfoldable pub login_user : List User → String → String → LoginResult
  unfolding get_user_by_email
  login_user users email password = check_password password (get_user_by_email users email)

-- `UPDATE users SET role = ? WHERE email = ?`
unfoldable pub update_role : List User → String → String → List User
update_role [] email new_role = []
update_role (u ∷ us) email new_role =
    let rest = update_role us email new_role in
    (if str_eq u.email email then record u { role = new_role } else u) ∷ rest
