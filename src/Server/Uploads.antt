-- ===== src/Server/Uploads.antt =====
-- The three requests of an upload in cloudmer_SRV.py, and the last one as
-- cloudmer_SRV_p2p_patch.py replaces it. `recv` is `recv_with_AES` on the client's socket.
pub mod Arrivals
pub mod Done
use cloudmer_cloud_storage.Prelude.{
  ℕ, String, ◌<>◌, Bool, true, false, Option, none, some, List, [], ◌∷◌, Bytes, length, str_eq,
  Error, Result, ok, err, lookup, insert, remove, if◌then◌else◌, not,
}
use cloudmer_cloud_storage.Text.{codes, str, int_of}
use cloudmer_cloud_storage.Chunks.{Codecs, unpacked, put_piece, missing, assemble}
use cloudmer_cloud_storage.Blockchain.Hasher.{Hasher}
use cloudmer_cloud_storage.Blockchain.Tx.{Tx, make_upload_tx}
use cloudmer_cloud_storage.Blockchain.Chain.{
  CloudBlockchain, MineResult, running, raised as mine_raised, mined, add_transaction,
  mine_pending_transactions, save,
}
use cloudmer_cloud_storage.Server.{
  Server, Transfer, Files, Reply, replied, raised, mining, path_join, uploads_dir, line,
}

-- What the environment gives one request: the text of the random transfer id and salt, and the
-- readings of the clock for a transaction, the reward and the block; `fuel` bounds the rounds of the
-- proof of work.
pub record Inputs : Type 0 where
  pub transfer_id : String
  pub salt : String
  pub tx_time : ℕ
  pub reward_time : ℕ
  pub block_time : ℕ
  pub fuel : ℕ

abbrev pub started : Inputs → String → String → Result ℕ → Server → Server × Reply
started inputs owner_email filename (err e) st = (st, raised e)
started inputs owner_email filename (ok num_chunks) st = (
  record st {
    active_transfers =
        insert inputs.transfer_id
          (record {
            filename = filename;
            total_chunks = num_chunks;
            chunks = [];
            owner = owner_email;
          })
          st.active_transfers;
  },
  replied (line ("UPLD" ∷ "OK" ∷ inputs.transfer_id ∷ [])),
)

unfoldable pub handle_upload_init : Inputs → List String → String → Server → Server × Reply
unfolding int_of
handle_upload_init inputs (_ ∷ filename ∷ _ ∷ num_chunks ∷ _) owner_email st =
    started inputs owner_email filename (int_of (codes num_chunks)) st
handle_upload_init inputs _ owner_email st = (st, replied "UPLD~FAIL~Bad format")

module _ (k : Codecs) where
  abbrev pub keep_chunk : String → ℕ → Transfer → Result Bytes → Server → Server × Reply
  keep_chunk tid idx transfer (err e) st = (st, raised e)
  keep_chunk tid idx transfer (ok bytes) st = (
    record st {
      active_transfers =
          insert tid (record transfer { chunks = put_piece idx bytes transfer.chunks })
            st.active_transfers;
    },
    replied (line ("CHNK" ∷ "OK" ∷ str idx ∷ [])),
  )

  -- No payload and an empty one are alike.
  abbrev pub take_payload :
      String → ℕ → Bool → Transfer → Result (Option Bytes) → Server → Server × Reply
  take_payload tid idx is_comp transfer (err e) st = (st, raised e)
  take_payload tid idx is_comp transfer (ok none) st = (st, replied "CHNK~FAIL~Empty payload")
  take_payload tid idx is_comp transfer (ok (some [])) st = (st, replied "CHNK~FAIL~Empty payload")
  take_payload tid idx is_comp transfer (ok (some (x ∷ xs))) st =
      keep_chunk tid idx transfer (unpacked k is_comp (x ∷ xs)) st

  module _ {S : Type 0} (recv : S → Result (Option Bytes) × S) where
    -- The payload is read only for a transfer that is known.
    abbrev pub chunk_for :
        String → Bool → Result ℕ → Option Transfer → S → Server → (Server × Reply) × S
    chunk_for tid is_comp (err e) found sock st = ((st, raised e), sock)
    chunk_for tid is_comp (ok idx) none sock st =
        ((st, replied "CHNK~FAIL~Unknown transfer id"), sock)
    chunk_for tid is_comp (ok idx) (some transfer) sock st =
        let (raw, after) = recv sock in (take_payload tid idx is_comp transfer raw st, after)

    unfoldable pub handle_chunk : List String → S → Server → (Server × Reply) × S
    unfolding int_of lookup
    handle_chunk (_ ∷ tid ∷ idx ∷ _ ∷ is_comp ∷ _) sock st =
        chunk_for tid (str_eq is_comp "1") (int_of (codes idx)) (lookup tid st.active_transfers)
          sock st
    handle_chunk _ sock st = ((st, replied "CHNK~FAIL~Bad format"), sock)

  module _ (h : Hasher) (inputs : Inputs) where
    abbrev pub upload_tx : String → Transfer → Bytes → Tx
    upload_tx owner_email transfer file_data =
        make_upload_tx inputs.tx_time owner_email (k.sha256_hex file_data) transfer.filename
          (length file_data) transfer.total_chunks ("local" ∷ []) none none

    -- The file of the chain is written only after the block has been mined.
    abbrev pub settle_mining : String → CloudBlockchain → MineResult → Server → Server × Reply
    settle_mining file_hash queued running st = (record st { blockchain = queued }, mining)
    settle_mining file_hash queued (mine_raised e) st =
        (record st { blockchain = queued }, raised e)
    settle_mining file_hash queued (mined bc new_block) st = (
      record st { blockchain = bc; chain_file = some (save bc) },
      replied (line ("DONE" ∷ "OK" ∷ file_hash ∷ [])),
    )

    abbrev pub mine_upload : String → CloudBlockchain × Result ℕ → Server → Server × Reply
    mine_upload file_hash (bc, err e) st = (record st { blockchain = bc }, raised e)
    mine_upload file_hash (bc, ok _) st =
        settle_mining file_hash bc
          (mine_pending_transactions h inputs.fuel inputs.reward_time inputs.block_time "server" bc)
          st

    -- The folder of the path is there.
    abbrev pub write_upload : Transfer → Bytes → Server → Server
    write_upload transfer file_data st = record st {
      files = insert (path_join uploads_dir transfer.filename) file_data st.files;
    }

    abbrev pub store_upload : String → String → Transfer → Result Bytes → Server → Server × Reply
    store_upload owner_email expected_md5 transfer (err e) st = (st, raised e)
    store_upload owner_email expected_md5 transfer (ok file_data) st =
        if not (str_eq (k.md5_hex file_data) expected_md5)
        then (st, replied "DONE~FAIL~MD5 mismatch - file corrupted")
        else mine_upload (k.sha256_hex file_data)
            (add_transaction st.blockchain (upload_tx owner_email transfer file_data))
            (write_upload transfer file_data st)

    abbrev pub guarded : String → String → Transfer → Option ℕ → Server → Server × Reply
    guarded owner_email expected_md5 transfer (some i) st =
        (st, replied ("DONE~FAIL~Missing chunk " <> str i))
    guarded owner_email expected_md5 transfer none st =
        store_upload owner_email expected_md5 transfer
          (assemble transfer.chunks 0 transfer.total_chunks) st

    -- The transfer is taken out before the guards.
    abbrev pub finish_transfer :
        String → String → String → Option Transfer → Server → Server × Reply
    finish_transfer tid expected_md5 owner_email none st =
        (st, replied "DONE~FAIL~Unknown transfer")
    finish_transfer tid expected_md5 owner_email (some transfer) st =
        guarded owner_email expected_md5 transfer (missing transfer.chunks 0 transfer.total_chunks)
          (record st { active_transfers = remove tid st.active_transfers })

    unfoldable pub handle_upload_done : List String → String → Server → Server × Reply
    unfolding lookup
    handle_upload_done (_ ∷ tid ∷ expected_md5 ∷ _) owner_email st =
        finish_transfer tid expected_md5 owner_email (lookup tid st.active_transfers) st
    handle_upload_done _ owner_email st = (st, replied "DONE~FAIL~Bad format")
