-- ===== src/Tests/Peer.antt =====
-- The properties of the server with a P2P node, on a node without a peer that answers.
use cloudmer_cloud_storage.Prelude.{
  ℕ, zero, suc, ◌≡◌, ◌≢◌, ◌↔◌, ◌<◌, arith, ◌+◌, refl, ◌<>◌, none, some, [], ◌∷◌, Bytes, length,
  lookup, remove, ok, key_error,
}
use cloudmer_cloud_storage.Text.{str}
use cloudmer_cloud_storage.Chunks.{get}
use cloudmer_cloud_storage.Chunks.Reassembly.{Carries}
use cloudmer_cloud_storage.TcpBySize.{send_with_size}
use cloudmer_cloud_storage.TcpBySize.RoundTrip.{length-send_with_size_iff}
use cloudmer_cloud_storage.Blockchain.Chain.{last_of}
use cloudmer_cloud_storage.P2p.Send.{Network, unreachable}
use cloudmer_cloud_storage.Server.{Server, Transfer, replied, raised, path_join, uploads_dir, line}
use cloudmer_cloud_storage.Server.Uploads.{handle_upload_done}
use cloudmer_cloud_storage.Server.Uploads.Done.{queued}
use cloudmer_cloud_storage.Server.Peer.{peer_tx, publish_upload_done}
use cloudmer_cloud_storage.Server.Peer.Laws.{
  publish_upload_done-queued, publish_upload_done-missing,
}
use cloudmer_cloud_storage.Tests.Chain.{marked, genesis}
use cloudmer_cloud_storage.Tests.Codec.{plain}
use cloudmer_cloud_storage.Tests.Network.{node}
use cloudmer_cloud_storage.Tests.Storage.{server, now}

abbrev transfer : Transfer
transfer = record {
  filename = "c.txt";
  total_chunks = 2;
  chunks = (1, 3 ∷ []) ∷ (0, 1 ∷ 2 ∷ []) ∷ [];
  owner = "alice";
}

abbrev partial : Transfer
partial = record transfer { total_chunks = 3 }

abbrev uploading : Transfer → Server
uploading t = record server { active_transfers = ("t1", t) ∷ [] }

abbrev silent : Network
silent p msg = unreachable

uploading_known : (t : Transfer) → lookup "t1" (uploading t).active_transfers ≡ some t
unfolding lookup
uploading_known t = refl

transfer-Carries : Carries transfer.chunks 0 ((1 ∷ 2 ∷ []) ∷ (3 ∷ []) ∷ [])
unfolding get
transfer-Carries = (refl, (refl, tt))

partial_hole : get 2 partial.chunks ≡ none
unfolding get
partial_hole = refl

partial_kept : (l : ℕ) → l < 2 → get l partial.chunks ≢ none
unfolding get
partial_kept zero h e = cc
partial_kept (suc zero) h e = cc
partial_kept (suc (suc l)) h e = absurd (omega (arith, h))

node_last : last_of node.blockchain.chain ≡ ok genesis
unfolding last_of
node_last = refl

publish_example :
    let contents : Bytes = 1 ∷ 2 ∷ 3 ∷ [] in
    let end =
      publish_upload_done plain silent 5
        ("DONE" ∷ "t1" ∷ plain.md5_hex contents ∷ [])
        "alice"
        (uploading transfer)
        node in
    (end.2 ≡ replied (line ("DONE" ∷ "OK" ∷ "h" ∷ [])))
    × (lookup (path_join uploads_dir "c.txt") end.0.files ≡ some contents)
    × (lookup "t1" end.0.active_transfers ≡ none)
    × (end.1.blockchain
        ≡ queued (peer_tx plain silent 5 "alice" transfer contents node) node.blockchain)
publish_example =
    publish_upload_done-queued plain silent 5 "t1" "alice" transfer ((1 ∷ 2 ∷ []) ∷ (3 ∷ []) ∷ [])
      node genesis (uploading transfer) (uploading_known transfer) transfer-Carries refl node_last

missing_example :
    let forgotten = record (uploading partial) {
      active_transfers = remove "t1" (uploading partial).active_transfers;
    } in
    (handle_upload_done plain marked now ("DONE" ∷ "t1" ∷ "m" ∷ []) "alice" (uploading partial)
      ≡ (forgotten, replied ("DONE~FAIL~Missing chunk " <> str 2)))
    × (publish_upload_done plain silent 5
          ("DONE" ∷ "t1" ∷ "m" ∷ [])
          "alice"
          (uploading partial)
          node
        ≡ (forgotten, node, raised key_error))
missing_example =
    publish_upload_done-missing plain silent 5 marked now "t1" "m" "alice" partial 2 node
      (uploading partial) (uploading_known partial) (omega arith) partial_hole partial_kept

frame_length_example : (length (send_with_size (7 ∷ 8 ∷ [])) ≡ 8 + 2) ↔ (2 < 10000000)
frame_length_example = length-send_with_size_iff (7 ∷ 8 ∷ [])
