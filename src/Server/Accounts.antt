-- ===== src/Server/Accounts.antt =====
-- Login and sign-up of cloudmer_SRV.py on the table of users; `salt` is the random one.
use cloudmer_cloud_storage.Prelude.{String, Bool, true, false, List, [], ◌∷◌}
use cloudmer_cloud_storage.Database.{User, LoginResult, welcome, refused, register_user, login_user}
use cloudmer_cloud_storage.Server.{line}

abbrev pub login_reply : LoginResult → String
login_reply (welcome user) = line ("LOGN" ∷ "OK" ∷ user.full_name ∷ [])
login_reply (refused reason) = line ("LOGN" ∷ "FAIL" ∷ reason ∷ [])

unfoldable pub handle_login : (String → String) → List User → List String → String
unfolding login_user
handle_login digest users (_ ∷ email ∷ password ∷ _) =
    login_reply (login_user digest users email password)
handle_login digest users _ = "LOGN~FAIL~Bad request format"

abbrev pub signup_reply : String → List User × Bool × String → List User × String
signup_reply name (users, true, _) = (users, line ("RGST" ∷ "OK" ∷ name ∷ []))
signup_reply name (users, false, reason) = (users, line ("RGST" ∷ "FAIL" ∷ reason ∷ []))

unfoldable pub handle_signup :
    (String → String) → String → List User → List String → List User × String
unfolding register_user
handle_signup digest salt users (_ ∷ name ∷ email ∷ password ∷ _) =
    signup_reply name (register_user digest salt users name email password "user")
handle_signup digest salt users _ = (users, "RGST~FAIL~Bad request format")
