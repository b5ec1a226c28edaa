-- ===== src/Client/Requests.antt =====
-- Requests of the client that a server answers, one by one.
use Prim.Native.Char.{Char, code}
use cloudmer_cloud_storage.Prelude.{
  ℕ, ◌+◌, ◌≡◌, ◌≤◌, ◌<◌, refl, ap, ◌∙◌, String, ◌<>◌, Bool, true, false, some, List, [], ◌∷◌, Bytes,
  length, length-append, lookup, ◌==◌, ok, arith,
}
use cloudmer_cloud_storage.Text.{codes, str, join}
use cloudmer_cloud_storage.Text.Split.{AllLack, Lacks, lacks, lacks-Lacks, codes-append}
use cloudmer_cloud_storage.Text.Decimal.{int_of-str, str-Lacks}
use cloudmer_cloud_storage.Chunks.{unpacked, flag, put_piece}
use cloudmer_cloud_storage.Server.{Server, Transfer, line, replied}
use cloudmer_cloud_storage.Server.Uploads.{Inputs, handle_upload_init, handle_upload_done}
use cloudmer_cloud_storage.Server.Uploads.Arrivals.{
  new_transfer, with_transfer, handle_chunk_stored,
}
use cloudmer_cloud_storage.Server.Dispatch.{Env, ended, owner_of, Outcome, answer, route, reported}
use cloudmer_cloud_storage.Server.Dispatch.Requests.{
  split-line, handle_request-line, login_owner-line,
}
use cloudmer_cloud_storage.Client.{reply_parts}
use cloudmer_cloud_storage.Client.Link.{idle, talk, talk_answered, recv_message}

abbrev pub answered : Server → Bytes → Outcome (List Bytes)
answered st reply = record { server = st; sock = []; sent = []; turn = answer (some reply) false }

pub word : (s : String) → lacks b'~' s ≡ true → Lacks b'~' s
word s h = lacks-Lacks b'~' s h

pub number : (n : ℕ) → Lacks b'~' (str n)
number n = str-Lacks b'~' n (omega arith)

pub flag-Lacks : (b : Bool) → Lacks b'~' (flag b)
flag-Lacks true = word "1" refl
flag-Lacks false = word "0" refl

module _ (env : Env) (inputs : ℕ → Inputs)
    (decode-encode : (s : String) → env.codecs.decode (env.codecs.encode s) ≡ ok s)
    (encode_long : (s : String) → length (codes s) ≤ length (env.codecs.encode s)) where
  pub line_filled :
      (code p : String) (ps : List String)
      → length (codes code) ≡ 4
      → 0 < length (env.codecs.encode (line (code ∷ p ∷ ps)))
  unfolding join
  line_filled code p ps four =
      let rest = "~" <> join "~" (p ∷ ps) in
      omega (
        arith,
        encode_long (code <> rest),
        ap length (codes-append code rest),
        length-append (codes code) (codes rest),
      )

  pub talk-line :
      (c : Char) (s p : String) (ps : List String) (more : List Bytes) (st st' : Server)
      (owner : String) (served : ℕ) (reply : Bytes)
      → (code c == b'L') ≡ false
      → length (codes (String.◌∷◌ c s)) ≡ 4
      → AllLack b'~' (String.◌∷◌ c s ∷ p ∷ ps)
      → route env recv_message
          (inputs served)
          (String.◌∷◌ c s)
          (String.◌∷◌ c s ∷ p ∷ ps)
          more
          owner
          st
        ≡ answered st' reply
      → talk env inputs
          (env.codecs.encode (line (String.◌∷◌ c s ∷ p ∷ ps)) ∷ more)
          (idle st owner served)
        ≡ (ok (some reply), idle st' owner (served + 1))
  talk-line c s p ps more st st' owner served reply other four lack handled =
      talk_answered env inputs st st' owner owner served
        (env.codecs.encode (line (String.◌∷◌ c s ∷ p ∷ ps))) more reply
        (line_filled (String.◌∷◌ c s) p ps four)
        (login_owner-line env recv_message decode-encode c s p ps owner other)
        (handle_request-line env recv_message decode-encode (inputs served) (String.◌∷◌ c s) p ps
            more owner st lack four
          ∙ ap {A = Outcome (List Bytes)} (λ o. record o { turn = reported env.codecs o.turn })
              handled)

  -- UPLD: the transfer is opened under the id of this request.
  pub talk-upload_init :
      (filename : String) (size n : ℕ) (st : Server) (owner : String) (served : ℕ)
      → Lacks b'~' filename
      → talk env inputs
          (env.codecs.encode (line ("UPLD" ∷ filename ∷ str size ∷ str n ∷ [])) ∷ [])
          (idle st owner served)
        ≡ (
          ok (some (env.codecs.encode (line ("UPLD" ∷ "OK" ∷ (inputs served).transfer_id ∷ [])))),
          idle
              (with_transfer (inputs served).transfer_id (new_transfer filename n owner) st)
              owner
              (served + 1),
        )
  unfolding route handle_upload_init
  talk-upload_init filename size n st owner served lack =
      talk-line "U" "PLD" filename (str size ∷ str n ∷ []) [] st
        (with_transfer (inputs served).transfer_id (new_transfer filename n owner) st) owner served
        (env.codecs.encode (line ("UPLD" ∷ "OK" ∷ (inputs served).transfer_id ∷ []))) refl refl
        (word "UPLD" refl, (lack, (number size, (number n, tt)))) (rw (int_of-str n) refl)

  -- CHNK with its payload: the piece is stored, whether it was compressed or not.
  pub talk-chunk :
      (tid : String) (i : ℕ) (payload chunk : Bytes) (is_comp : Bool) (t : Transfer) (st : Server)
      (owner : String) (served : ℕ)
      → Lacks b'~' tid
      → lookup tid st.active_transfers ≡ some t
      → 0 < length payload
      → unpacked env.codecs is_comp payload ≡ ok chunk
      → talk env inputs
          (env.codecs.encode
              (line ("CHNK" ∷ tid ∷ str i ∷ str (length payload) ∷ flag is_comp ∷ []))
            ∷ payload
            ∷ [])
          (idle st owner served)
        ≡ (
          ok (some (env.codecs.encode (line ("CHNK" ∷ "OK" ∷ str i ∷ [])))),
          idle
              (with_transfer tid (record t { chunks = put_piece i chunk t.chunks }) st)
              owner
              (served + 1),
        )
  unfolding route recv_message
  talk-chunk tid i payload chunk is_comp t st owner served lack known filled whole =
      talk-line "C" "HNK" tid (str i ∷ str (length payload) ∷ flag is_comp ∷ []) (payload ∷ []) st
        (with_transfer tid (record t { chunks = put_piece i chunk t.chunks }) st) owner served
        (env.codecs.encode (line ("CHNK" ∷ "OK" ∷ str i ∷ []))) refl refl
        (word "CHNK" refl, (lack, (number i, (number (length payload), (flag-Lacks is_comp, tt)))))
        (rw
          (handle_chunk_stored env.codecs recv_message "CHNK" tid (str (length payload)) i payload
            chunk is_comp t st (payload ∷ []) [] known refl filled whole)
          refl)

  pub reply_parts-line :
      (p : String) (ps : List String)
      → AllLack b'~' (p ∷ ps)
      → reply_parts env.codecs (ok (some (env.codecs.encode (line (p ∷ ps))))) ≡ ok (p ∷ ps)
  reply_parts-line p ps lack = rw (decode-encode (line (p ∷ ps))) (rw (split-line p ps lack) refl)

  -- DONE: what the handler answers for the owner of the transfer goes to the client.
  pub talk-done :
      (tid md5 owner reply : String) (t : Transfer) (st st' : Server) (served : ℕ)
      → Lacks b'~' tid
      → Lacks b'~' md5
      → lookup tid st.active_transfers ≡ some t
      → handle_upload_done env.codecs env.hasher
          (inputs served)
          ("DONE" ∷ tid ∷ md5 ∷ [])
          t.owner
          st
        ≡ (st', replied reply)
      → talk env inputs
          (env.codecs.encode (line ("DONE" ∷ tid ∷ md5 ∷ [])) ∷ [])
          (idle st owner served)
        ≡ (ok (some (env.codecs.encode reply)), idle st' owner (served + 1))
  unfolding route
  talk-done tid md5 owner reply t st st' served lack lack' known handled =
      talk-line "D" "ONE" tid (md5 ∷ []) [] st st' owner served (env.codecs.encode reply) refl refl
        (word "DONE" refl, (lack, (lack', tt)))
        (ap
            (λ o.
              ended env recv_message
                (handle_upload_done env.codecs env.hasher (inputs served) ("DONE" ∷ tid ∷ md5 ∷ [])
                  (owner_of o owner) st)
                [])
            known
          ∙ ap (λ r. ended env recv_message r []) handled)
