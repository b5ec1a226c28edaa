-- ===== src/Database/Users.antt =====
-- Registration and login of database.py together, and the emails of the table.
use text.Mathlib.TextPositions.{eq_refl}
use cloudmer_cloud_storage.Prelude.{
  ◌≡◌, ◌≢◌, refl, ◌∙◌, sym, String, ◌<>◌, true, false, Bool-cases, Option-cases, inl, inr, eq_iff,
  str_eq, str_eq-apart, none, some, List, [], ◌∷◌, ◌++◌,
}
use cloudmer_cloud_storage.Database.{
  User, welcome, refused, get_user_by_email, hash_password, register_user, login_user,
}

get_user_by_email-append_new :
    (us : List User) (u : User)
    → get_user_by_email us u.email ≡ none
    → get_user_by_email (us ++ u ∷ []) u.email ≡ some u
unfolding get_user_by_email
get_user_by_email-append_new [] u free = rw (eq_refl u.email)
get_user_by_email-append_new (v ∷ us) u free = elim (Bool-cases (str_eq v.email u.email)) [
  | inl same ↦ cc (rw same at free)
  | inr other ↦ rw other (get_user_by_email-append_new us u (rw other at free))
]

get_user_by_email-append_other :
    (us : List User) (u : User) (email : String)
    → u.email ≢ email
    → get_user_by_email (us ++ u ∷ []) email ≡ get_user_by_email us email
unfolding get_user_by_email
get_user_by_email-append_other [] u email apart = rw (str_eq-apart u.email email apart)
get_user_by_email-append_other (v ∷ us) u email apart =
    rw (get_user_by_email-append_other us u email apart) refl

module _ (sha256_hex : String → String) (salt : String) (users : List User)
    (full_name email password role : String) where
  abbrev pub new_user : User
  new_user = record {
    full_name = full_name;
    email = email;
    password = hash_password sha256_hex password salt;
    salt = salt;
    role = role;
  }

  register_user_free :
      get_user_by_email users email ≡ none
      → register_user sha256_hex salt users full_name email password role
        ≡ (users ++ new_user ∷ [], true, "User registered successfully.")
  unfolding register_user
  register_user_free free = rw free

  register_user_taken :
      (u : User)
      → get_user_by_email users email ≡ some u
      → register_user sha256_hex salt users full_name email password role
        ≡ (users, false, "Email already exists.")
  unfolding register_user
  register_user_taken u taken = rw taken

  -- With an email that the table does not have, a registration is followed by a login that
  -- succeeds with the same password and gives the new row, and that fails with any password whose
  -- hash with the salt of the row is another one.
  pub login_user-register_user :
      get_user_by_email users email ≡ none
      → (login_user sha256_hex
            (register_user sha256_hex salt users full_name email password role).0
            email
            password
          ≡ welcome new_user)
        × ((other : String)
            → sha256_hex (other <> salt) ≢ sha256_hex (password <> salt)
            → login_user sha256_hex
                (register_user sha256_hex salt users full_name email password role).0
                email
                other
              ≡ refused "Incorrect password.")
  unfolding login_user
  login_user-register_user free = rw (register_user_free free) (
    rw (get_user_by_email-append_new users new_user free)
        (rw (eq_refl (sha256_hex (password <> salt)))),
    λ other apart.
        rw (get_user_by_email-append_new users new_user free)
          (rw (str_eq-apart (sha256_hex (other <> salt)) (sha256_hex (password <> salt)) apart)),
  )

  -- A registration, whether it succeeds or not, makes no difference to a login with another email.
  pub login_user-register_user_other :
      (email' password' : String)
      → email ≢ email'
      → login_user sha256_hex
          (register_user sha256_hex salt users full_name email password role).0
          email'
          password'
        ≡ login_user sha256_hex users email' password'
  unfolding login_user
  login_user-register_user_other email' password' apart =
      elim (Option-cases (get_user_by_email users email)) [
        | inl free ↦
            rw (register_user_free free)
              (rw (get_user_by_email-append_other users new_user email' apart) refl)
        | inr (u, taken) ↦ rw (register_user_taken u taken) refl
      ]

-- No two rows have the same email.
abbrev pub IsUnique : List User → Type 0
IsUnique [] = Unit
IsUnique (u ∷ us) = (get_user_by_email us u.email ≡ none) × IsUnique us

email-apart :
    (us : List User) (u v : User) → get_user_by_email (u ∷ us) v.email ≡ none → v.email ≢ u.email
unfolding get_user_by_email
email-apart us u v free same =
    let here : str_eq u.email v.email ≡ true = (eq_iff u.email v.email).1 (sym same) in
    cc (rw here at free)

get_user_by_email-tail :
    (us : List User) (u : User) (email : String)
    → get_user_by_email (u ∷ us) email ≡ none
    → get_user_by_email us email ≡ none
unfolding get_user_by_email
get_user_by_email-tail us u email free = elim (Bool-cases (str_eq u.email email)) [
  | inl same ↦ cc (rw same at free)
  | inr other ↦ rw other at free
]

append-IsUnique :
    (us : List User) (v : User)
    → IsUnique us
    → get_user_by_email us v.email ≡ none
    → IsUnique (us ++ v ∷ [])
unfolding get_user_by_email
append-IsUnique [] v u free = (nothing v.email, tt)
  where
    nothing : (email : String) → get_user_by_email [] email ≡ none
    nothing email = refl
append-IsUnique (w ∷ us) v (alone, u) free = (
  get_user_by_email-append_other us v w.email (email-apart us w v free) ∙ alone,
  append-IsUnique us v u (get_user_by_email-tail us w v.email free),
)

-- A registration keeps the emails of the table distinct.
pub register_user-IsUnique :
    (sha256_hex : String → String) (salt : String) (users : List User)
    (full_name email password role : String)
    → IsUnique users
    → IsUnique (register_user sha256_hex salt users full_name email password role).0
register_user-IsUnique sha256_hex salt users full_name email password role u =
    elim (Option-cases (get_user_by_email users email)) [
      | inl free ↦
          rw (register_user_free sha256_hex salt users full_name email password role free) (
            append-IsUnique users (new_user sha256_hex salt users full_name email password role) u
              free)
      | inr (v, taken) ↦
          rw (register_user_taken sha256_hex salt users full_name email password role v taken) u
    ]
