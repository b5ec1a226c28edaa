-- ===== src/P2p/Send/Chunks.antt =====
-- `request_chunk` of p2p.py against peers that run the same handlers.
use cloudmer_cloud_storage.Prelude.{
  ◌≡◌, refl, ap, ◌∙◌, String, true, ◌⊎◌, inl, inr, Bool-cases, str_eq, eq_iff, Option, none, some,
  List, [], ◌∷◌, Bytes, lookup, lookup-insert,
}
use cloudmer_cloud_storage.Blockchain.Hasher.{Hasher}
use cloudmer_cloud_storage.Blockchain.Tx.{contains}
use cloudmer_cloud_storage.Blockchain.Query.{discard}
use cloudmer_cloud_storage.P2p.Message.{get_chunk, Base64}
use cloudmer_cloud_storage.P2p.Node.{Node}
use cloudmer_cloud_storage.P2p.Dispatch.{dispatch, chunk_reply}
use cloudmer_cloud_storage.P2p.Send.{
  unreachable, answered, Network, delivered, send_to_peer, request_from, request_chunk,
}
use cloudmer_cloud_storage.P2p.Send.Silence.{reply_of}

module _ (h : Hasher) (c : Base64) (net : Network) (chunk_hash : String) (bytes : Bytes) where
  -- The peer is a node that holds `o` under the hash.
  abbrev pub Answers : String → Option Bytes → Type 0
  Answers p o =
      (sender : String) × (m : Node) × (lookup chunk_hash m.chunk_store ≡ o)
      × (net p (get_chunk (some chunk_hash))
          ≡ answered (reply_of (dispatch h c (get_chunk (some chunk_hash)) sender m)))

  -- A peer is down, or does not have the chunk, or has it with these bytes.
  abbrev pub Honest : String → Type 0
  Honest p =
      (net p (get_chunk (some chunk_hash)) ≡ unreachable)
      ⊎ (Answers p none ⊎ Answers p (some bytes))

  Answers-delivery :
      (p : String) (o : Option Bytes)
      → Answers p o
      → net p (get_chunk (some chunk_hash)) ≡ answered (some (chunk_reply c (some chunk_hash) o))
  unfolding dispatch
  Answers-delivery p o (sender, m, e, d) =
      d ∙ ap (λ t. answered (some (chunk_reply c (some chunk_hash) t))) e

  -- The bytes come back and are kept.
  abbrev pub Got : Node × Option Bytes → Type 0
  Got r = (r.1 ≡ some bytes) × (lookup chunk_hash r.0.chunk_store ≡ some bytes)

  request_from-Got :
      (ps : List String) (p : String) (n : Node)
      → c.b64decode (c.b64encode bytes) ≡ bytes
      → ((q : String) → Honest q)
      → contains ps p ≡ true
      → Answers p (some bytes)
      → Got (request_from net c ps chunk_hash n)
  unfolding request_from send_to_peer delivered
  request_from-Got [] p n code honest member has_it = cc
  request_from-Got (q ∷ ps) p n code honest member has_it = elim (Bool-cases (str_eq q p)) [
    | inl here ↦ rw ((eq_iff q p).0 here) (
        rw (Answers-delivery p (some bytes) has_it)
          (rw code (refl, lookup-insert chunk_hash bytes n.chunk_store)))
    | inr there ↦
        let later : contains ps p ≡ true = rw there at member in
        elim (honest q) [
          | inl down ↦ rw down (
              request_from-Got ps p (record n { peers = discard q n.peers }) code honest later
                has_it)
          | inr (inl lacks) ↦
              rw (Answers-delivery q none lacks) (request_from-Got ps p n code honest later has_it)
          | inr (inr holds_it) ↦
              rw (Answers-delivery q (some bytes) holds_it)
                (rw code (refl, lookup-insert chunk_hash bytes n.chunk_store))
        ]
  ]

  -- Where base64 gives the bytes back and every peer is down, does not have the chunk or has it with
  -- the same bytes, `request_chunk` returns the bytes as soon as one known peer has them, whatever
  -- the order of the peers, and the node keeps them.
  pub request_chunk-Answers :
      (p : String) (n : Node)
      → c.b64decode (c.b64encode bytes) ≡ bytes
      → ((q : String) → Honest q)
      → contains n.peers p ≡ true
      → Answers p (some bytes)
      → Got (request_chunk net c chunk_hash n)
  unfolding request_chunk
  request_chunk-Answers p n code honest member has_it =
      request_from-Got n.peers p n code honest member has_it
