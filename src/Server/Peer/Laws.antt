-- ===== src/Server/Peer/Laws.antt =====
-- The end of an upload on a server with a P2P node, and both servers where a piece is missing.
use cloudmer_cloud_storage.Prelude.{
  ℕ, ◌<◌, ◌≡◌, ◌≢◌, arith, refl, ap, ◌∙◌, String, ◌<>◌, true, none, some, List, [], ◌∷◌, Bytes,
  length, str_eq, eq_iff, lookup, remove, lookup-insert, lookup-remove, ok, key_error,
}
use cloudmer_cloud_storage.Text.{str}
use cloudmer_cloud_storage.Raid5.{joined}
use cloudmer_cloud_storage.Chunks.{Codecs, get, missing, assemble}
use cloudmer_cloud_storage.Chunks.Reassembly.{
  Carries, assemble-Carries, assemble-missing, missing-least,
}
use cloudmer_cloud_storage.Blockchain.Hasher.{Hasher}
use cloudmer_cloud_storage.Blockchain.Block.{Block}
use cloudmer_cloud_storage.Blockchain.Chain.{last_of, add_transaction}
use cloudmer_cloud_storage.P2p.Message.{new_tx}
use cloudmer_cloud_storage.P2p.Node.{Node}
use cloudmer_cloud_storage.P2p.Send.{Network, broadcast, submit_transaction}
use cloudmer_cloud_storage.P2p.Steps.Unchanged.{broadcast-blockchain}
use cloudmer_cloud_storage.Server.{Server, Transfer, replied, raised, path_join, uploads_dir, line}
use cloudmer_cloud_storage.Server.Uploads.{Inputs, handle_upload_done}
use cloudmer_cloud_storage.Server.Uploads.Done.{queued}
use cloudmer_cloud_storage.Server.Peer.{peer_tx, save_upload, publish_upload_done}

module _ (k : Codecs) (net : Network) (tx_time : ℕ) where
  -- A submission on a chain with a last block.
  submit_transaction-queued :
      (node : Node) (last : Block) (tx : _)
      → last_of node.blockchain.chain ≡ ok last
      → submit_transaction net tx node ≡ (
        broadcast net (new_tx (some tx)) (record node { blockchain = queued tx node.blockchain }),
        ok tt,
      )
  unfolding submit_transaction add_transaction
  submit_transaction-queued node last tx top = rw top refl

  publish_upload_done-steps :
      (tid owner : String) (t : Transfer) (contents : Bytes) (node : Node) (last : Block)
      (st : Server)
      → lookup tid st.active_transfers ≡ some t
      → assemble t.chunks 0 t.total_chunks ≡ ok contents
      → last_of node.blockchain.chain ≡ ok last
      → let tx = peer_tx k net tx_time owner t contents node in
        publish_upload_done k net tx_time ("DONE" ∷ tid ∷ k.md5_hex contents ∷ []) owner st node ≡ (
          save_upload k net tx_time t contents
              (record st { active_transfers = remove tid st.active_transfers }),
          broadcast net (new_tx (some tx)) (record node { blockchain = queued tx node.blockchain }),
          replied (line ("DONE" ∷ "OK" ∷ k.sha256_hex contents ∷ [])),
        )
  unfolding publish_upload_done
  publish_upload_done-steps tid owner t contents node last st known whole top =
      let tx = peer_tx k net tx_time owner t contents node in
      let same : str_eq (k.md5_hex contents) (k.md5_hex contents) ≡ true =
        (eq_iff (k.md5_hex contents) (k.md5_hex contents)).1 refl in
      rw known (rw whole (rw same (rw (submit_transaction-queued node last tx top) refl)))

  -- An upload that is complete, on a server whose node has a chain with a last block: the client is
  -- told the SHA-256, the file is stored, the transfer is gone, and the chain of the node is as
  -- before but for the transaction at the end of its queue, whatever the peers answer.
  pub publish_upload_done-queued :
      (tid owner : String) (t : Transfer) (pieces : List Bytes) (node : Node) (last : Block)
      (st : Server)
      → lookup tid st.active_transfers ≡ some t
      → Carries t.chunks 0 pieces
      → t.total_chunks ≡ length pieces
      → last_of node.blockchain.chain ≡ ok last
      → let contents = joined pieces in
        let end =
          publish_upload_done k net tx_time
            ("DONE" ∷ tid ∷ k.md5_hex contents ∷ [])
            owner
            st
            node in
        (end.2 ≡ replied (line ("DONE" ∷ "OK" ∷ k.sha256_hex contents ∷ [])))
        × (lookup (path_join uploads_dir t.filename) end.0.files ≡ some contents)
        × (lookup tid end.0.active_transfers ≡ none)
        × (end.1.blockchain ≡ queued (peer_tx k net tx_time owner t contents node) node.blockchain)
  publish_upload_done-queued tid owner t pieces node last st known carries count top =
      let contents = joined pieces in
      let tx = peer_tx k net tx_time owner t contents node in
      let whole : assemble t.chunks 0 t.total_chunks ≡ ok contents =
        ap (assemble t.chunks 0) count ∙ assemble-Carries t.chunks 0 pieces carries in
      let steps = publish_upload_done-steps tid owner t contents node last st known whole top in
      (
        ap (λ e. e.2) steps,
        ap (λ e. lookup (path_join uploads_dir t.filename) e.0.files) steps
            ∙ lookup-insert (path_join uploads_dir t.filename) contents st.files,
        ap (λ e. lookup tid e.0.active_transfers) steps ∙ lookup-remove tid st.active_transfers,
        ap (λ e. e.1.blockchain) steps
            ∙ broadcast-blockchain net (new_tx (some tx))
                (record node { blockchain = queued tx node.blockchain }),
      )

  -- Where an index below the number of pieces has no piece and those before it have one, the server
  -- without a node answers with that index, and the server with a node raises a KeyError; both
  -- forget the transfer and change nothing else.
  pub publish_upload_done-missing :
      (h : Hasher) (inputs : Inputs) (tid md5 owner : String) (t : Transfer) (i : ℕ) (node : Node)
      (st : Server)
      → lookup tid st.active_transfers ≡ some t
      → i < t.total_chunks
      → get i t.chunks ≡ none
      → ((l : ℕ) → l < i → get l t.chunks ≢ none)
      → let forgotten = record st { active_transfers = remove tid st.active_transfers } in
        (handle_upload_done k h inputs ("DONE" ∷ tid ∷ md5 ∷ []) owner st
          ≡ (forgotten, replied ("DONE~FAIL~Missing chunk " <> str i)))
        × (publish_upload_done k net tx_time ("DONE" ∷ tid ∷ md5 ∷ []) owner st node
            ≡ (forgotten, node, raised key_error))
  unfolding handle_upload_done publish_upload_done
  publish_upload_done-missing h inputs tid md5 owner t i node st known within hole kept =
      let gone : missing t.chunks 0 t.total_chunks ≡ some i =
        missing-least t.chunks 0 t.total_chunks i (omega arith) (omega (arith, within)) hole kept in
      (
        rw known (rw gone refl),
        rw known (rw (assemble-missing t.chunks 0 t.total_chunks i gone) refl),
      )
