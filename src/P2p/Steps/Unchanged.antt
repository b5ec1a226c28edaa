-- ===== src/P2p/Steps/Unchanged.antt =====
-- The sending helpers of p2p.py leave the chain as it is.
use cloudmer_cloud_storage.Prelude.{
  ◌≡◌, refl, ◌∙◌, String, Option, none, some, List, [], ◌∷◌, Bytes,
}
use cloudmer_cloud_storage.Blockchain.Block.{BlockDict}
use cloudmer_cloud_storage.Blockchain.Query.{discard}
use cloudmer_cloud_storage.P2p.Message.{Message, new_block, get_chunk, Base64}
use cloudmer_cloud_storage.P2p.Node.{Node}
use cloudmer_cloud_storage.P2p.Send.{
  Delivery, unreachable, answered, Network, delivered, note_dead, drop_dead, carried_text,
  text_or_next, chunk_or_next, send_to_peer, send_all, broadcast, gossip_block, request_from,
}

module _ (net : Network) where
  delivered-blockchain :
      (p : String) (d : Delivery) (n : Node) → (delivered p d n).0.blockchain ≡ n.blockchain
  unfolding delivered
  delivered-blockchain p unreachable n = refl
  delivered-blockchain p (answered reply) n = refl

  pub send_to_peer-blockchain :
      (p : String) (msg : Message) (n : Node)
      → (send_to_peer net p msg n).0.blockchain ≡ n.blockchain
  unfolding send_to_peer
  send_to_peer-blockchain p msg n = delivered-blockchain p (net p msg) n

  note_dead-blockchain :
      (p : String) (dead : List String) (r : Node × Option Message)
      → (note_dead p dead r).0.blockchain ≡ r.0.blockchain
  note_dead-blockchain p dead (n, none) = refl
  note_dead-blockchain p dead (n, some msg) = refl

  send_all-blockchain :
      (ps : List String) (msg : Message) (dead : List String) (n : Node)
      → (send_all net ps msg dead n).0.blockchain ≡ n.blockchain
  unfolding send_all
  send_all-blockchain [] msg dead n = refl
  send_all-blockchain (p ∷ ps) msg dead n =
      let r : Node × List String = note_dead p dead (send_to_peer net p msg n) in
      send_all-blockchain ps msg (r.1) (r.0)
      ∙ note_dead-blockchain p dead (send_to_peer net p msg n)
      ∙ send_to_peer-blockchain p msg n

  pub broadcast-blockchain :
      (msg : Message) (n : Node) → (broadcast net msg n).blockchain ≡ n.blockchain
  unfolding broadcast drop_dead
  broadcast-blockchain msg n = send_all-blockchain n.peers msg [] n

  pub gossip_block-blockchain :
      (d : BlockDict) (origin : String) (n : Node)
      → (gossip_block net d origin n).blockchain ≡ n.blockchain
  unfolding gossip_block drop_dead
  gossip_block-blockchain d origin n =
      send_all-blockchain (discard origin n.peers) (new_block (some d)) [] n

  text_or_next-blockchain :
      (c : Base64) (chunk_hash : String) (o : Option String) (n : Node)
      (next : Node → Node × Option Bytes)
      → ((m : Node) → (next m).0.blockchain ≡ m.blockchain)
      → (text_or_next net c chunk_hash o n next).0.blockchain ≡ n.blockchain
  text_or_next-blockchain c chunk_hash none n next keeps = keeps n
  text_or_next-blockchain c chunk_hash (some text) n next keeps = refl

  chunk_or_next-blockchain :
      (c : Base64) (chunk_hash : String) (r : Node × Option Message)
      (next : Node → Node × Option Bytes)
      → ((m : Node) → (next m).0.blockchain ≡ m.blockchain)
      → (chunk_or_next net c chunk_hash r next).0.blockchain ≡ r.0.blockchain
  chunk_or_next-blockchain c chunk_hash (n, none) next keeps = keeps n
  chunk_or_next-blockchain c chunk_hash (n, some msg) next keeps =
      text_or_next-blockchain c chunk_hash (carried_text msg) n next keeps

  pub request_from-blockchain :
      (c : Base64) (ps : List String) (chunk_hash : String) (n : Node)
      → (request_from net c ps chunk_hash n).0.blockchain ≡ n.blockchain
  unfolding request_from
  request_from-blockchain c [] chunk_hash n = refl
  request_from-blockchain c (p ∷ ps) chunk_hash n =
      chunk_or_next-blockchain c chunk_hash (send_to_peer net p (get_chunk (some chunk_hash)) n)
        (λ m. request_from net c ps chunk_hash m) (λ m. request_from-blockchain c ps chunk_hash m)
      ∙ send_to_peer-blockchain p (get_chunk (some chunk_hash)) n
