-- ===== src/Client/Ownership.antt =====
-- The owner of a session is the email of the last request to log in, whatever the answer was.
use text.Mathlib.TextLemmas.{append_assoc}
use cloudmer_cloud_storage.Prelude.{
  ℕ, ◌+◌, ◌≡◌, ◌≤◌, refl, ap, ◌∙◌, sym, String, true, some, [], ◌∷◌, length, ok,
}
use cloudmer_cloud_storage.Text.{codes, str, join, begins_with}
use cloudmer_cloud_storage.Text.Split.{AllLack, Lacks}
use cloudmer_cloud_storage.Text.Prefix.{begins_with_append}
use cloudmer_cloud_storage.Database.{refused, login_user}
use cloudmer_cloud_storage.Server.{Server, line}
use cloudmer_cloud_storage.Server.Accounts.{handle_login}
use cloudmer_cloud_storage.Server.Uploads.{Inputs}
use cloudmer_cloud_storage.Server.Uploads.Arrivals.{new_transfer, with_transfer}
use cloudmer_cloud_storage.Server.Dispatch.{Env, route, login_owner}
use cloudmer_cloud_storage.Server.Dispatch.Requests.{split-line, handle_request-line}
use cloudmer_cloud_storage.Client.Link.{idle, talk, talk_answered, recv_message}
use cloudmer_cloud_storage.Client.Requests.{word, line_filled, talk-upload_init}

module _ (env : Env) (inputs : ℕ → Inputs)
    (decode-encode : (s : String) → env.codecs.decode (env.codecs.encode s) ≡ ok s)
    (encode_long : (s : String) → length (codes s) ≤ length (env.codecs.encode s)) where
  login_owner-login :
      (email password owner : String)
      → AllLack b'~' ("LOGN" ∷ email ∷ password ∷ [])
      → login_owner
          (env.codecs.decode (env.codecs.encode (line ("LOGN" ∷ email ∷ password ∷ []))))
          owner
        ≡ email
  unfolding join
  login_owner-login email password owner lack =
      let text = line ("LOGN" ∷ email ∷ password ∷ []) in
      let rest = join "~" (email ∷ password ∷ []) in
      let begins : begins_with text "LOGN~" ≡ true =
        ap (λ s. begins_with s "LOGN~") (sym (append_assoc "LOGN" "~" rest))
        ∙ begins_with_append "LOGN~" rest in
      rw (decode-encode text) (rw begins (rw (split-line "LOGN" (email ∷ password ∷ []) lack) refl))

  -- A login that is refused still makes its email the owner of the session: the next upload is
  -- opened for that email.
  pub talk-refused_login :
      (email password reason filename owner : String) (size n : ℕ) (st : Server) (served : ℕ)
      → Lacks b'~' email
      → Lacks b'~' password
      → Lacks b'~' filename
      → login_user env.digest st.users email password ≡ refused reason
      → (talk env inputs
            (env.codecs.encode (line ("LOGN" ∷ email ∷ password ∷ [])) ∷ [])
            (idle st owner served)
          ≡ (
            ok (some (env.codecs.encode (line ("LOGN" ∷ "FAIL" ∷ reason ∷ [])))),
            idle st email (served + 1),
          ))
        × (talk env inputs
              (env.codecs.encode (line ("UPLD" ∷ filename ∷ str size ∷ str n ∷ [])) ∷ [])
              (idle st email (served + 1))
            ≡ (
              ok (
                  some (
                    env.codecs.encode
                      (line ("UPLD" ∷ "OK" ∷ (inputs (served + 1)).transfer_id ∷ [])))),
              idle
                  (with_transfer
                    (inputs (served + 1)).transfer_id
                    (new_transfer filename n email)
                    st)
                  email
                  (served + 1 + 1),
            ))
  unfolding route handle_login
  talk-refused_login email password reason filename owner size n st served e p f denied =
      let lack : AllLack b'~' ("LOGN" ∷ email ∷ password ∷ []) = (word "LOGN" refl, (e, (p, tt))) in
      let reply = env.codecs.encode (line ("LOGN" ∷ "FAIL" ∷ reason ∷ [])) in
      (
        talk_answered env inputs st st owner email served
            (env.codecs.encode (line ("LOGN" ∷ email ∷ password ∷ []))) [] reply
            (line_filled env inputs decode-encode encode_long "LOGN" email (password ∷ []) refl)
            (login_owner-login email password owner lack)
            (handle_request-line env recv_message decode-encode (inputs served) "LOGN" email
                (password ∷ []) [] email st lack refl
              ∙ (rw denied refl)),
        talk-upload_init env inputs decode-encode encode_long filename size n st email (served + 1)
            f,
      )
