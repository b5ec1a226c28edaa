-- ===== src/Client/Empty.antt =====
-- The upload of an empty file: the client sends one empty piece, which the server refuses.
use native.Mathlib.Nat.{div-eq_of_lt}
use cloudmer_cloud_storage.Prelude.{
  ℕ, ◌+◌, ◌-◌, ◌*◌, ◌/◌, ◌≡◌, ◌≤◌, ◌<◌, refl, ap, ◌∙◌, String, false, some, List, [], ◌∷◌, length,
  take, ltb, lookup, remove, lookup-insert, ok, arith,
}
use cloudmer_cloud_storage.Text.{codes, str, split}
use cloudmer_cloud_storage.Text.Split.{Lacks}
use cloudmer_cloud_storage.Chunks.{Codecs, count_chunks, piece, packed, missing, get}
use cloudmer_cloud_storage.Raid5.{slice}
use cloudmer_cloud_storage.Raid5.Slices.{take_nil, drop_nil}
use cloudmer_cloud_storage.Server.{Server, Transfer, line, replied}
use cloudmer_cloud_storage.Server.Uploads.{Inputs, handle_chunk, handle_upload_done}
use cloudmer_cloud_storage.Server.Uploads.Arrivals.{new_transfer, with_transfer}
use cloudmer_cloud_storage.Server.Dispatch.{Env, route, ended}
use cloudmer_cloud_storage.Client.{
  Signal, reply_parts, refused, upload_in, if_ok, finished, finish_upload, and_next, with_reply,
  with_parts, after_init, send_chunks, chunk_messages,
}
use cloudmer_cloud_storage.Client.Link.{Link, idle, talk, recv_message}
use cloudmer_cloud_storage.Client.Requests.{
  word, number, talk-line, talk-done, reply_parts-line, talk-upload_init,
}

one_piece : (size : ℕ) → 0 < size → count_chunks size 0 ≡ 1
one_piece size pos =
    let less : 0 + (size - 1) < size = omega arith in
    let none_ : (0 + (size - 1)) / size ≡ 0 = div-eq_of_lt less in rw none_ refl

piece_empty : (size : ℕ) → piece size [] 0 ≡ []
unfolding piece slice
piece_empty size =
    ap (take ((0 + 1) * size - 0 * size)) (drop_nil (0 * size))
    ∙ take_nil ((0 + 1) * size - 0 * size)

packed_empty : (k : Codecs) → packed k [] ≡ ([], false)
packed_empty k =
    let no : ltb (10 * length (k.compress [])) (9 * 0) ≡ false = ground arith in rw no refl

handle_chunk_refused :
    (k : Codecs) (code tid size : String) (is_comp : String) (t : Transfer) (st : Server)
    → lookup tid st.active_transfers ≡ some t
    → handle_chunk k recv_message (code ∷ tid ∷ str 0 ∷ size ∷ is_comp ∷ []) ([] ∷ []) st
      ≡ ((st, replied "CHNK~FAIL~Empty payload"), [])
unfolding handle_chunk recv_message str
handle_chunk_refused k code tid size is_comp t st known = rw known refl

handle_upload_done_first :
    (env : Env) (now : Inputs) (tid md5 owner : String) (t : Transfer) (st : Server)
    → lookup tid st.active_transfers ≡ some t
    → t.chunks ≡ []
    → t.total_chunks ≡ 1
    → handle_upload_done env.codecs env.hasher now ("DONE" ∷ tid ∷ md5 ∷ []) owner st ≡ (
      record st { active_transfers = remove tid st.active_transfers },
      replied "DONE~FAIL~Missing chunk 0",
    )
unfolding handle_upload_done missing get str
handle_upload_done_first env now tid md5 owner t st known empty one =
    rw known (rw empty (rw one refl))

module _ (env : Env) (inputs : ℕ → Inputs)
    (decode-encode : (s : String) → env.codecs.decode (env.codecs.encode s) ≡ ok s)
    (encode_long : (s : String) → length (codes s) ≤ length (env.codecs.encode s)) where
  talk-chunk_refused :
      (tid owner : String) (t : Transfer) (st : Server) (served : ℕ)
      → Lacks b'~' tid
      → lookup tid st.active_transfers ≡ some t
      → talk env inputs
          (env.codecs.encode (line ("CHNK" ∷ tid ∷ str 0 ∷ str 0 ∷ "0" ∷ [])) ∷ [] ∷ [])
          (idle st owner served)
        ≡ (ok (some (env.codecs.encode "CHNK~FAIL~Empty payload")), idle st owner (served + 1))
  unfolding route
  talk-chunk_refused tid owner t st served lack known =
      talk-line env inputs decode-encode encode_long "C" "HNK" tid (str 0 ∷ str 0 ∷ "0" ∷ [])
        ([] ∷ []) st st owner served (env.codecs.encode "CHNK~FAIL~Empty payload") refl refl
        (word "CHNK" refl, (lack, (number 0, (number 0, (word "0" refl, tt)))))
        (ap (λ r. ended env recv_message r.0 r.1)
          (handle_chunk_refused env.codecs "CHNK" tid (str 0) "0" t st known))

  send_chunks-empty :
      (size : ℕ) (tid owner : String) (t : Transfer) (st : Server) (served : ℕ)
      → Lacks b'~' tid
      → lookup tid st.active_transfers ≡ some t
      → send_chunks env.codecs (talk env inputs) size [] tid 0 1 (idle st owner served)
        ≡ (ok tt, idle st owner (served + 1))
  unfolding send_chunks
  send_chunks-empty size tid owner t st served lack known =
      let rest = send_chunks env.codecs (talk env inputs) size [] tid 1 0 in
      ap
        (λ p.
          and_next env.codecs (talk env inputs)
            (talk env inputs (chunk_messages env.codecs (talk env inputs) tid 0 p)
              (idle st owner served))
            rest)
        (ap (packed env.codecs) (piece_empty size) ∙ packed_empty env.codecs)
      ∙ ap (λ r. and_next env.codecs (talk env inputs) r rest)
          (talk-chunk_refused tid owner t st served lack known)

  missing_reply :
      reply_parts env.codecs (ok (some (env.codecs.encode "DONE~FAIL~Missing chunk 0")))
      ≡ ok ("DONE" ∷ "FAIL" ∷ "Missing chunk 0" ∷ [])
  unfolding split
  missing_reply = rw (decode-encode "DONE~FAIL~Missing chunk 0") refl

  -- An empty file cannot be uploaded: the transfer is refused for its missing piece, and neither the
  -- files nor the chain nor the users have changed.
  pub upload_in-empty :
      (size : ℕ) (name owner : String) (st : Server) (served : ℕ)
      → 0 < size
      → Lacks b'~' name
      → Lacks b'~' (inputs served).transfer_id
      → Lacks b'~' (env.codecs.md5_hex [])
      → (st' : Server) × (upload_in env.codecs (talk env inputs) size name [] (idle st owner served)
          ≡ (refused "Missing chunk 0", idle st' owner (served + 3)))
        × (st'.files ≡ st.files)
        × (st'.blockchain ≡ st.blockchain)
        × (st'.users ≡ st.users)
  unfolding upload_in
  upload_in-empty size name owner st served pos plain lack lack' =
      let k = env.codecs in
      let ask = talk env inputs in
      let n = count_chunks size 0 in
      let tid = (inputs served).transfer_id in
      let t = new_transfer name 1 owner in
      let st1 = with_transfer tid t st in
      let st' = record st1 { active_transfers = remove tid st1.active_transfers } in
      let known : lookup tid st1.active_transfers ≡ some t =
        lookup-insert tid t st.active_transfers in
      let opened : List String → Link → Signal × Link =
        λ parts w. if_ok k ask parts "UPLD rejected" w (after_init k ask size name [] parts w) in
      let e : served + 1 + 1 + 1 ≡ served + 3 = omega arith in
      (
        st',
        ap (λ r. with_reply k ask r opened)
              (talk-upload_init env inputs decode-encode encode_long name 0 n st owner served plain)
            ∙ ap
                (λ q.
                  with_parts k ask q
                    (idle (with_transfer tid (new_transfer name n owner) st) owner (served + 1))
                    opened)
                (reply_parts-line env inputs decode-encode encode_long "UPLD" ("OK" ∷ tid ∷ [])
                  (word "UPLD" refl, (word "OK" refl, (lack, tt))))
            ∙ ap
                (λ m. finish_upload k ask name [] tid (
                  send_chunks k ask size [] tid 0 m
                    (idle (with_transfer tid (new_transfer name m owner) st) owner (served + 1))))
                (one_piece size pos)
            ∙ ap (finish_upload k ask name [] tid)
                (send_chunks-empty size tid owner t st1 (served + 1) lack known)
            ∙ ap (λ r. with_reply k ask r (finished k ask name))
                (talk-done env inputs decode-encode encode_long tid (k.md5_hex []) owner
                  "DONE~FAIL~Missing chunk 0" t st1 st' (served + 1 + 1) lack lack' known
                  (handle_upload_done_first env (inputs (served + 1 + 1)) tid (k.md5_hex []) owner t
                    st1 known refl refl))
            ∙ ap
                (λ q.
                  with_parts k ask q (idle st' owner (served + 1 + 1 + 1)) (finished k ask name))
                missing_reply
            ∙ ap (λ m. (refused "Missing chunk 0", idle st' owner m)) e,
        refl,
        refl,
        refl,
      )
