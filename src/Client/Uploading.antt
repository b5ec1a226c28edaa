-- ===== src/Client/Uploading.antt =====
-- `uploadFile` of cloudmer_CLIENT.py against the server, from the first request to the last.
use cloudmer_cloud_storage.Prelude.{
  ℕ, zero, suc, ◌+◌, ◌≡◌, ◌≢◌, ◌≤◌, ◌<◌, refl, ap, ◌∙◌, sym, String, ◌<>◌, none, some, [], ◌∷◌,
  Bytes, length, lookup, insert, lookup-insert, lookup-insert_other, lookup-remove, insert-insert,
  ok, arith,
}
use cloudmer_cloud_storage.Text.{codes}
use cloudmer_cloud_storage.Text.Split.{Lacks}
use cloudmer_cloud_storage.Chunks.{count_chunks, piece, packed, put_piece}
use cloudmer_cloud_storage.Chunks.Cutting.{
  joined-pieces, piece_filled, unpacked-packed, packed_filled,
}
use cloudmer_cloud_storage.Chunks.Reassembly.{
  arrivals, indexes, occurs-indexes, pieces_of, length-pieces_of, arrivals-Carries,
}
use cloudmer_cloud_storage.Blockchain.Block.{Block}
use cloudmer_cloud_storage.Blockchain.Chain.{
  CloudBlockchain, mined, last_of, mine_pending_transactions, save,
}
use cloudmer_cloud_storage.Server.{Server, Transfer, line, path_join, uploads_dir}
use cloudmer_cloud_storage.Server.Uploads.{Inputs, upload_tx}
use cloudmer_cloud_storage.Server.Uploads.Arrivals.{new_transfer, with_transfer}
use cloudmer_cloud_storage.Server.Uploads.Done.{
  queued, uploaded_state, filled_transfer, handle_upload_done_stored,
}
use cloudmer_cloud_storage.Server.Dispatch.{Env}
use cloudmer_cloud_storage.Client.{
  succeeded, send_chunks, finish_upload, after_init, upload_in, if_ok, finished, and_next,
  with_reply, with_parts,
}
use cloudmer_cloud_storage.Client.Link.{idle, talk}
use cloudmer_cloud_storage.Client.Requests.{
  word, reply_parts-line, talk-done, talk-upload_init, talk-chunk,
}

module _ (env : Env) (inputs : ℕ → Inputs)
    (decode-encode : (s : String) → env.codecs.decode (env.codecs.encode s) ≡ ok s)
    (encode_long : (s : String) → length (codes s) ≤ length (env.codecs.encode s))
    (decompress-compress : (bytes : Bytes)
      → env.codecs.decompress (env.codecs.compress bytes) ≡ ok bytes)
    (compress_filled : (bytes : Bytes) → 0 < length (env.codecs.compress bytes)) where
  -- The pieces from the i-th on, in order.
  send_chunks-arrivals :
      (size : ℕ) (contents : Bytes) (tid owner : String) (i n : ℕ) (t : Transfer) (st : Server)
      (served : ℕ)
      → Lacks b'~' tid
      → ((j : ℕ) → j < i + n → 0 < length (piece size contents j))
      → send_chunks env.codecs
          (talk env inputs)
          size
          contents
          tid
          i
          n
          (idle (with_transfer tid t st) owner served)
        ≡ (
          ok tt,
          idle
              (with_transfer tid
                (record t { chunks = arrivals (piece size contents) (indexes i n) t.chunks })
                st)
              owner
              (served + n),
        )
  unfolding send_chunks
  send_chunks-arrivals size contents tid owner i zero t st served lack filled =
      let e : served ≡ served + 0 = omega arith in
      ap (λ m. (ok tt, idle (with_transfer tid t st) owner m)) e
  send_chunks-arrivals size contents tid owner i (suc n) t st served lack filled =
      let p = packed env.codecs (piece size contents i) in
      let t' = record t { chunks = put_piece i (piece size contents i) t.chunks } in
      let one =
        talk-chunk env inputs decode-encode encode_long tid i p.0 (piece size contents i) p.1 t
          (with_transfer tid t st) owner served lack (lookup-insert tid t st.active_transfers)
          (packed_filled env.codecs (piece size contents i) compress_filled
            (filled i (omega arith)))
          (unpacked-packed env.codecs decompress-compress (piece size contents i)) in
      let rest = send_chunks env.codecs (talk env inputs) size contents tid (i + 1) n in
      let e : served + 1 + n ≡ served + suc n = omega arith in
      let last =
        with_transfer tid
          (record t' { chunks = arrivals (piece size contents) (indexes (i + 1) n) t'.chunks })
          st in
      ap (λ r. and_next env.codecs (talk env inputs) r rest) one
      ∙ ap (λ a. rest (idle (record st { active_transfers = a }) owner (served + 1)))
          (insert-insert tid t' t st.active_transfers)
      ∙ send_chunks-arrivals size contents tid owner (i + 1) n t' st (served + 1) lack
          (λ j b. filled j (omega arith))
      ∙ ap (λ m. (ok tt, idle last owner m)) e

  -- What is left of an upload once the transfer is open.
  after_init-stored :
      (size : ℕ) (name tid owner : String) (contents : Bytes) (st : Server) (served : ℕ)
      (bc : CloudBlockchain) (last new_block : Block)
      → 0 < size
      → 0 < length contents
      → Lacks b'~' tid
      → Lacks b'~' (env.codecs.md5_hex contents)
      → Lacks b'~' (env.codecs.sha256_hex contents)
      → last_of st.blockchain.chain ≡ ok last
      → let n = count_chunks size (length contents) in
        let now = inputs (served + n) in
        mine_pending_transactions env.hasher now.fuel now.reward_time now.block_time "server" (
            queued
              (upload_tx env.codecs env.hasher now owner (new_transfer name n owner) contents)
              st.blockchain)
          ≡ mined bc new_block
        → finish_upload env.codecs (talk env inputs) name contents tid (
            send_chunks env.codecs
              (talk env inputs)
              size
              contents
              tid
              0
              n
              (idle (with_transfer tid (new_transfer name n owner) st) owner served))
          ≡ (
            succeeded (name <> ("|" <> env.codecs.sha256_hex contents)),
            idle
                (uploaded_state tid
                  (filled_transfer (new_transfer name n owner) (piece size contents) (indexes 0 n))
                  contents
                  bc
                  (with_transfer tid
                    (filled_transfer
                      (new_transfer name n owner)
                      (piece size contents)
                      (indexes 0 n))
                    st))
                owner
                (served + n + 1),
          )
  after_init-stored size name tid owner contents st served bc last new_block pos some_ lack lack'
        lack'' top done =
      let n = count_chunks size (length contents) in
      let f = piece size contents in
      let t = new_transfer name n owner in
      let t' = filled_transfer t f (indexes 0 n) in
      let st' = with_transfer tid t' st in
      let sha = env.codecs.sha256_hex contents in
      let known : lookup tid st'.active_transfers ≡ some t' =
        lookup-insert tid t' st.active_transfers in
      let carries =
        arrivals-Carries f (indexes 0 n) [] 0 n
          (λ j b. occurs-indexes j 0 n (omega arith) (omega arith)) in
      let handled =
        handle_upload_done_stored env.codecs env.hasher (inputs (served + n)) "DONE" tid owner t'
          (pieces_of f 0 n) contents bc last new_block st' known carries
          (sym (length-pieces_of f 0 n)) (joined-pieces size contents pos) top done in
      ap (finish_upload env.codecs (talk env inputs) name contents tid) (
        send_chunks-arrivals size contents tid owner 0 n t st served lack
          (λ j b. piece_filled size contents j pos some_ (omega arith)))
      ∙ ap
          (λ r.
            with_reply env.codecs (talk env inputs) r (finished env.codecs (talk env inputs) name))
          (talk-done env inputs decode-encode encode_long tid (env.codecs.md5_hex contents) owner
            (line ("DONE" ∷ "OK" ∷ sha ∷ [])) t' st' (uploaded_state tid t' contents bc st')
            (served + n) lack lack' known handled)
      ∙ ap
          (λ q.
            with_parts env.codecs (talk env inputs) q
              (idle (uploaded_state tid t' contents bc st') owner (served + n + 1))
              (finished env.codecs (talk env inputs) name))
          (reply_parts-line env inputs decode-encode encode_long "DONE" ("OK" ∷ sha ∷ [])
            (word "DONE" refl, (word "OK" refl, (lack'', tt))))

  -- The upload of a file with contents, under a name without a bar, to a server that mines it:
  -- the window is told the name and the SHA-256, the file is at the path of that name with these
  -- contents, the other files are as before, the chain and its file are those after mining, and
  -- the transfer is gone.
  pub upload_in-Stored :
      (size : ℕ) (name owner : String) (contents : Bytes) (st : Server) (served : ℕ)
      (bc : CloudBlockchain) (last new_block : Block)
      → 0 < size
      → 0 < length contents
      → Lacks b'~' name
      → Lacks b'~' (inputs served).transfer_id
      → Lacks b'~' (env.codecs.md5_hex contents)
      → Lacks b'~' (env.codecs.sha256_hex contents)
      → last_of st.blockchain.chain ≡ ok last
      → let n = count_chunks size (length contents) in
        let now = inputs (served + 1 + n) in
        mine_pending_transactions env.hasher now.fuel now.reward_time now.block_time "server" (
            queued
              (upload_tx env.codecs env.hasher now owner (new_transfer name n owner) contents)
              st.blockchain)
          ≡ mined bc new_block
        → (st' : Server) × (upload_in env.codecs
              (talk env inputs)
              size
              name
              contents
              (idle st owner served)
            ≡ (
              succeeded (name <> ("|" <> env.codecs.sha256_hex contents)),
              idle st' owner (served + 1 + count_chunks size (length contents) + 1),
            ))
          × (lookup (path_join uploads_dir name) st'.files ≡ some contents)
          × ((path : String)
              → path ≢ path_join uploads_dir name
              → lookup path st'.files ≡ lookup path st.files)
          × (st'.blockchain ≡ bc)
          × (st'.chain_file ≡ some (save bc))
          × (lookup (inputs served).transfer_id st'.active_transfers ≡ none)
          × (st'.users ≡ st.users)
  unfolding upload_in
  upload_in-Stored size name owner contents st served bc last new_block pos some_ plain lack lack'
        lack'' top done =
      let n = count_chunks size (length contents) in
      let tid = (inputs served).transfer_id in
      let t = new_transfer name n owner in
      let t' = filled_transfer t (piece size contents) (indexes 0 n) in
      let st1 = with_transfer tid t st in
      let st' = uploaded_state tid t' contents bc (with_transfer tid t' st) in
      (
        st',
        ap
              (λ r. with_reply env.codecs (talk env inputs) r (λ parts w.
                if_ok env.codecs (talk env inputs) parts "UPLD rejected" w
                  (after_init env.codecs (talk env inputs) size name contents parts w)))
              (talk-upload_init env inputs decode-encode encode_long name (length contents) n st
                owner served plain)
            ∙ ap
                (λ q.
                  with_parts env.codecs (talk env inputs) q (idle st1 owner (served + 1))
                    (λ parts w.
                      if_ok env.codecs (talk env inputs) parts "UPLD rejected" w
                        (after_init env.codecs (talk env inputs) size name contents parts w)))
                (reply_parts-line env inputs decode-encode encode_long "UPLD" ("OK" ∷ tid ∷ [])
                  (word "UPLD" refl, (word "OK" refl, (lack, tt))))
            ∙ after_init-stored size name tid owner contents st (served + 1) bc last new_block pos
                some_ lack lack' lack'' top done,
        lookup-insert (path_join uploads_dir name) contents st.files,
        λ path apart. lookup-insert_other (path_join uploads_dir name) path contents st.files apart,
        refl,
        refl,
        lookup-remove tid (insert tid t' st.active_transfers),
        refl,
      )
