-- ===== src/Tests/Accounts.antt =====
-- The properties of database.py on a table with one user.
use cloudmer_cloud_storage.Prelude.{◌≡◌, ◌≢◌, refl, String, ◌<>◌, none, [], ◌∷◌}
use cloudmer_cloud_storage.Database.{
  User, welcome, refused, get_user_by_email, register_user, login_user,
}
use cloudmer_cloud_storage.Database.Users.{
  IsUnique, new_user, login_user-register_user, register_user-IsUnique,
}

abbrev digest : String → String
digest s = "h" <> s

abbrev omer : User
omer = record { full_name = "Omer"; email = "o@t"; password = "h1s"; salt = "s"; role = "user" }

admin_free : get_user_by_email (omer ∷ []) "a@t" ≡ none
unfolding get_user_by_email
admin_free = refl

login_example :
    (login_user digest
        (register_user digest "x" (omer ∷ []) "Admin" "a@t" "pw" "admin").0
        "a@t"
        "pw"
      ≡ welcome (new_user digest "x" (omer ∷ []) "Admin" "a@t" "pw" "admin"))
    × ((other : String)
        → digest (other <> "x") ≢ digest ("pw" <> "x")
        → login_user digest
            (register_user digest "x" (omer ∷ []) "Admin" "a@t" "pw" "admin").0
            "a@t"
            other
          ≡ refused "Incorrect password.")
login_example =
    login_user-register_user digest "x" (omer ∷ []) "Admin" "a@t" "pw" "admin" admin_free

omer-IsUnique : IsUnique (omer ∷ [])
unfolding get_user_by_email
omer-IsUnique = (refl, tt)

register_again_example :
    IsUnique (register_user digest "x" (omer ∷ []) "Admin" "a@t" "pw" "admin").0
register_again_example =
    register_user-IsUnique digest "x" (omer ∷ []) "Admin" "a@t" "pw" "admin" omer-IsUnique
