-- ===== src/Server/Uploads/Done.antt =====
-- The end of an upload: pieces that are all there make the file and a block; otherwise nothing is
-- stored.
use cloudmer_cloud_storage.Prelude.{
  ℕ, arith, ◌<◌, ◌≡◌, refl, ap, ◌∙◌, sym, String, true, Option, none, some, List, [], ◌∷◌, ◌++◌,
  Bytes, length, str_eq, eq_iff, lookup, insert, remove, map, lookup-insert, lookup-remove, Result,
  ok,
}
use cloudmer_cloud_storage.Raid5.{joined}
use cloudmer_cloud_storage.Chunks.{Codecs, packed, missing, assemble}
use cloudmer_cloud_storage.Chunks.Reassembly.{
  Carries, missing-Carries, assemble-Carries, arrivals, occurs, pieces_of, length-pieces_of,
  arrivals-Carries,
}
use cloudmer_cloud_storage.Aes.{Delivers}
use cloudmer_cloud_storage.Server.Uploads.Arrivals.{
  with_transfer, new_transfer, arrive, arrive-arrivals,
}
use cloudmer_cloud_storage.Blockchain.Hasher.{Hasher}
use cloudmer_cloud_storage.Blockchain.Block.{Block}
use cloudmer_cloud_storage.Blockchain.Tx.{Tx}
use cloudmer_cloud_storage.Blockchain.Chain.{
  CloudBlockchain, mined, last_of, add_transaction, mine_pending_transactions, save,
}
use cloudmer_cloud_storage.Server.{Server, Transfer, replied, path_join, uploads_dir, line}
use cloudmer_cloud_storage.Server.Uploads.{Inputs, upload_tx, handle_upload_done}

-- The chain object with a transaction more in its queue.
abbrev pub queued : Tx → CloudBlockchain → CloudBlockchain
queued tx bc = record bc { pending_transactions = bc.pending_transactions ++ tx ∷ [] }

-- The state in which the upload of `contents` ends.
abbrev pub uploaded_state : String → Transfer → Bytes → CloudBlockchain → Server → Server
uploaded_state tid t contents bc st = record st {
  files = insert (path_join uploads_dir t.filename) contents st.files;
  active_transfers = remove tid st.active_transfers;
  blockchain = bc;
  chain_file = some (save bc);
}

-- The transfer after the pieces of `contents` have arrived.
abbrev pub filled_transfer : Transfer → (ℕ → Bytes) → List ℕ → Transfer
filled_transfer t f order = record t { chunks = arrivals f order [] }

module _ (k : Codecs) (h : Hasher) (inputs : Inputs) where
  pub handle_upload_done_stored :
      (code tid owner : String) (t : Transfer) (pieces : List Bytes) (contents : Bytes)
      (bc : CloudBlockchain) (last new_block : Block) (st : Server)
      → lookup tid st.active_transfers ≡ some t
      → Carries t.chunks 0 pieces
      → t.total_chunks ≡ length pieces
      → joined pieces ≡ contents
      → last_of st.blockchain.chain ≡ ok last
      → mine_pending_transactions h inputs.fuel inputs.reward_time inputs.block_time "server"
          (queued (upload_tx k h inputs owner t contents) st.blockchain)
        ≡ mined bc new_block
      → handle_upload_done k h inputs (code ∷ tid ∷ k.md5_hex contents ∷ []) owner st ≡ (
        uploaded_state tid t contents bc st,
        replied (line ("DONE" ∷ "OK" ∷ k.sha256_hex contents ∷ [])),
      )
  unfolding handle_upload_done add_transaction
  handle_upload_done_stored code tid owner t pieces contents bc last new_block st known carries
        count whole top done =
      let same : str_eq (k.md5_hex contents) (k.md5_hex contents) ≡ true =
        (eq_iff (k.md5_hex contents) (k.md5_hex contents)).1 refl in
      rw known (
        rw (ap (missing t.chunks 0) count ∙ missing-Carries t.chunks 0 pieces carries) (
          rw
            (ap (assemble t.chunks 0) count
              ∙ assemble-Carries t.chunks 0 pieces carries
              ∙ ap ok whole)
            (rw same (rw top (rw done refl)))))

  -- Pieces in any order and repeatedly, each with its CHNK request, and then DONE with the MD5 of
  -- the whole: the pieces in the order of their indexes are the file under the transfer's name, the
  -- chain and its file are those after mining the upload, and the transfer is gone.
  pub handle_upload_done-arrive :
      {S : Type 0} (recv : S → Result (Option Bytes) × S)
      → (f : ℕ → Bytes) (n : ℕ) (order : List ℕ) (tid name owner : String) (st : Server) (sock : S)
        (bc : CloudBlockchain) (last new_block : Block)
      → ((bytes : Bytes) → k.decompress (k.compress bytes) ≡ ok bytes)
      → ((i : ℕ) → occurs i order ≡ true → 0 < length (packed k (f i)).0)
      → ((i : ℕ) → i < n → occurs i order ≡ true)
      → Delivers recv (map (λ i. (packed k (f i)).0) order) sock
      → last_of st.blockchain.chain ≡ ok last
      → mine_pending_transactions h inputs.fuel inputs.reward_time inputs.block_time "server" (
          queued
            (upload_tx k h inputs owner (new_transfer name n owner) (joined (pieces_of f 0 n)))
            st.blockchain)
        ≡ mined bc new_block
      → let contents = joined (pieces_of f 0 n) in
        let end =
          handle_upload_done k h inputs
            ("DONE" ∷ tid ∷ k.md5_hex contents ∷ [])
            owner
            (arrive k recv f tid order sock (with_transfer tid (new_transfer name n owner) st)).0 in
        (end.1 ≡ replied (line ("DONE" ∷ "OK" ∷ k.sha256_hex contents ∷ [])))
        × (lookup (path_join uploads_dir name) end.0.files ≡ some contents)
        × (end.0.blockchain ≡ bc)
        × (end.0.chain_file ≡ some (save bc))
        × (lookup tid end.0.active_transfers ≡ none)
  handle_upload_done-arrive {S} recv f n order tid name owner st sock bc last new_block zlib filled
        complete delivers top done =
      let t = new_transfer name n owner in
      let t' = filled_transfer t f order in
      let contents = joined (pieces_of f 0 n) in
      let st' = with_transfer tid t' st in
      let whole =
        ap (λ s. handle_upload_done k h inputs ("DONE" ∷ tid ∷ k.md5_hex contents ∷ []) owner s)
          (arrive-arrivals k recv f tid order t st sock zlib filled delivers)
        ∙ handle_upload_done_stored "DONE" tid owner t' (pieces_of f 0 n) contents bc last new_block
            st' (lookup-insert tid t' st.active_transfers)
            (arrivals-Carries f order [] 0 n (λ j b. complete j (omega arith)))
            (sym (length-pieces_of f 0 n)) refl top done in
      (
        ap (λ e. e.1) whole,
        ap (λ e. lookup (path_join uploads_dir name) e.0.files) whole
            ∙ lookup-insert (path_join uploads_dir name) contents st.files,
        ap (λ e. e.0.blockchain) whole,
        ap (λ e. e.0.chain_file) whole,
        ap (λ e. lookup tid e.0.active_transfers) whole
            ∙ lookup-remove tid (insert tid t' st.active_transfers),
      )
