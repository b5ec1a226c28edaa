-- ===== src/Server/Peer.antt =====
-- `handle_upload_done` of cloudmer_SRV_p2p_patch.py, which hands the transaction of an upload to the
-- P2P node instead of mining it.
pub mod Laws
use cloudmer_cloud_storage.Prelude.{
  ℕ, String, Option, none, some, List, [], ◌∷◌, Bytes, length, str_eq, not, Result, ok, err, lookup,
  insert, remove, if◌then◌else◌,
}
use cloudmer_cloud_storage.Chunks.{Codecs, assemble}
use cloudmer_cloud_storage.Blockchain.Tx.{Tx, make_upload_tx}
use cloudmer_cloud_storage.P2p.Node.{Node}
use cloudmer_cloud_storage.P2p.Send.{Network, submit_transaction}
use cloudmer_cloud_storage.Server.{
  Server, Transfer, Reply, replied, raised, line, path_join, uploads_dir,
}

-- The server, its node, and what the handler returns.
abbrev pub PeerReply : Type 0
PeerReply = Server × Node × Reply

module _ (k : Codecs) (net : Network) (tx_time : ℕ) where
  abbrev pub peer_tx : String → Transfer → Bytes → Node → Tx
  peer_tx owner_email transfer file_data node =
      make_upload_tx tx_time owner_email (k.sha256_hex file_data) transfer.filename
        (length file_data) transfer.total_chunks (node.node_id ∷ []) none none

  abbrev pub submitted : String → Server → Node × Result (Unit {0}) → PeerReply
  submitted file_hash st (node, err e) = (st, node, raised e)
  submitted file_hash st (node, ok _) = (st, node, replied (line ("DONE" ∷ "OK" ∷ file_hash ∷ [])))

  abbrev pub save_upload : Transfer → Bytes → Server → Server
  save_upload transfer file_data st = record st {
    files = insert (path_join uploads_dir transfer.filename) file_data st.files;
  }

  abbrev pub publish_upload : String → String → Transfer → Result Bytes → Server → Node → PeerReply
  publish_upload owner_email expected_md5 transfer (err e) st node = (st, node, raised e)
  publish_upload owner_email expected_md5 transfer (ok file_data) st node =
      if not (str_eq (k.md5_hex file_data) expected_md5)
      then (st, node, replied "DONE~FAIL~MD5 mismatch - file corrupted")
      else submitted (k.sha256_hex file_data) (save_upload transfer file_data st)
          (submit_transaction net (peer_tx owner_email transfer file_data node) node)

  -- There is no guard before the pieces are joined.
  abbrev pub publish_transfer :
      String → String → String → Option Transfer → Server → Node → PeerReply
  publish_transfer tid expected_md5 owner_email none st node =
      (st, node, replied "DONE~FAIL~Unknown transfer")
  publish_transfer tid expected_md5 owner_email (some transfer) st node =
      publish_upload owner_email expected_md5 transfer
        (assemble transfer.chunks 0 transfer.total_chunks)
        (record st { active_transfers = remove tid st.active_transfers }) node

  unfoldable pub publish_upload_done : List String → String → Server → Node → PeerReply
  publish_upload_done (_ ∷ tid ∷ expected_md5 ∷ _) owner_email st node =
      publish_transfer tid expected_md5 owner_email (lookup tid st.active_transfers) st node
  publish_upload_done _ owner_email st node = (st, node, replied "DONE~FAIL~Bad format")
