-- ===== src/P2p/Send.antt =====
-- The sending helpers of `P2PNode` of p2p.py. What a connection to a peer comes to is a function
-- of the peer and the message, one for each call of a helper.
pub mod Silence
pub mod Chunks
pub mod Sync
use cloudmer_cloud_storage.Prelude.{
  ℕ, String, ◌<>◌, Bool, true, false, Option, none, some, List, [], ◌∷◌, ◌++◌, length, leb, str_eq,
  Bytes, Error, Result, ok, err, value_error, if◌then◌else◌,
}
use cloudmer_cloud_storage.Blockchain.Hasher.{Hasher}
use cloudmer_cloud_storage.Blockchain.Tx.{Tx, or_else}
use cloudmer_cloud_storage.Blockchain.Block.{Block, BlockDict, to_dict}
use cloudmer_cloud_storage.Blockchain.Chain.{
  CloudBlockchain, add_transaction, MineResult, running, raised, mined, mine_pending_transactions,
}
use cloudmer_cloud_storage.Blockchain.Query.{add, discard}
use cloudmer_cloud_storage.P2p.Message.{
  Message, hello, hello_ack, get_chain, chain, new_block, new_tx, get_chunk, chunk, peers, Base64,
}
use cloudmer_cloud_storage.P2p.Node.{Node, Event, Task, persist_chain, fire, store_chunk}
use cloudmer_cloud_storage.P2p.Dispatch.{receive_chain}

-- The connection fails with an exception, or `decode_message` has a result.
pub data Delivery : Type 0 where
  unreachable : Delivery
  answered : Option Message → Delivery

abbrev pub Network : Type 0
Network = String → Message → Delivery

unfoldable pub delivered : String → Delivery → Node → Node × Option Message
unfolding discard
delivered peer unreachable n = (record n { peers = discard peer n.peers }, none)
delivered peer (answered reply) n = (n, reply)

unfoldable pub discard_all : List String → List String → List String
unfolding discard
discard_all [] xs = xs
discard_all (y ∷ ys) xs = discard_all ys (discard y xs)

abbrev pub note_dead : String → List String → Node × Option Message → Node × List String
note_dead peer dead (n, none) = (n, peer ∷ dead)
note_dead peer dead (n, some _) = (n, dead)

-- `self.peers -= dead`
unfoldable pub drop_dead : Node × List String → Node
unfolding discard_all
drop_dead (n, dead) = record n { peers = discard_all dead n.peers }

-- The known peers that a reply carries under "peers".
abbrev pub reply_peers : Message → List String
reply_peers (hello_ack _ known _) = known
reply_peers (peers known) = known
reply_peers _ = []

unfoldable pub add_peers : String → List String → List String → List String
unfolding add
add_peers node_id [] known = known
add_peers node_id (p ∷ ps) known =
    add_peers node_id ps (if str_eq p node_id then known else add p known)

-- `response.get("chain", [])` where "cmd" is CHAIN.
abbrev pub carried_chain : Message → Option (List BlockDict)
carried_chain (chain blocks _) = some (or_else blocks [])
carried_chain _ = none

-- `response["data"]` where "cmd" is CHUNK.
abbrev pub carried_text : Message → Option String
carried_text (chunk _ text) = some text
carried_text _ = none

-- A step that raises ends the call.
abbrev pub and_then :
    Node × Result (Unit {0}) → (Node → Node × Result (Unit {0})) → Node × Result (Unit {0})
and_then (n, err e) next = (n, err e)
and_then (n, ok _) next = next n

-- `except ValueError: pass`
abbrev pub caught : Error → Result (Unit {0})
caught value_error = ok tt
caught e = err e

module _ (net : Network) where
  unfoldable pub send_to_peer : String → Message → Node → Node × Option Message
  unfolding delivered
  send_to_peer peer msg n = delivered peer (net peer msg) n

  -- The loop of `broadcast` and of `_gossip_block`, and the dead peers.
  unfoldable pub send_all : List String → Message → List String → Node → Node × List String
  unfolding send_to_peer
  send_all [] msg dead n = (n, dead)
  send_all (p ∷ ps) msg dead n =
      let r = note_dead p dead (send_to_peer p msg n) in send_all ps msg (r.1) (r.0)

  unfoldable pub broadcast : Message → Node → Node
  unfolding send_all drop_dead
  broadcast msg n = drop_dead (send_all n.peers msg [] n)

  -- The loop skips the peer that the block came from.
  unfoldable pub gossip_block : BlockDict → String → Node → Node
  unfolding send_all drop_dead discard
  gossip_block block_dict origin_peer n =
      drop_dead (send_all (discard origin_peer n.peers) (new_block (some block_dict)) [] n)

  abbrev pub after_submit : Tx → Node → CloudBlockchain × Result ℕ → Node × Result (Unit {0})
  unfolding broadcast
  after_submit tx n (bc, err e) = (record n { blockchain = bc }, err e)
  after_submit tx n (bc, ok _) =
      (broadcast (new_tx (some tx)) (record n { blockchain = bc }), ok tt)

  unfoldable pub submit_transaction : Tx → Node → Node × Result (Unit {0})
  unfolding add_transaction after_submit
  submit_transaction tx n = after_submit tx n (add_transaction n.blockchain tx)

  module _ (c : Base64) where
    abbrev pub text_or_next :
        String → Option String → Node → (Node → Node × Option Bytes) → Node × Option Bytes
    text_or_next chunk_hash none n next = next n
    text_or_next chunk_hash (some text) n next =
        let bytes = c.b64decode text in (store_chunk chunk_hash bytes n, some bytes)

    abbrev pub chunk_or_next :
        String → Node × Option Message → (Node → Node × Option Bytes) → Node × Option Bytes
    chunk_or_next chunk_hash (n, none) next = next n
    chunk_or_next chunk_hash (n, some response) next =
        text_or_next chunk_hash (carried_text response) n next

    unfoldable pub request_from : List String → String → Node → Node × Option Bytes
    unfolding send_to_peer
    request_from [] chunk_hash n = (n, none)
    request_from (p ∷ ps) chunk_hash n =
        chunk_or_next chunk_hash (send_to_peer p (get_chunk (some chunk_hash)) n)
          (λ m. request_from ps chunk_hash m)

    unfoldable pub request_chunk : String → Node → Node × Option Bytes
    unfolding request_from
    request_chunk chunk_hash n = request_from n.peers chunk_hash n

  module _ (h : Hasher) where
    unfoldable pub take_chain : Option (List BlockDict) → Node → Node × Result (Unit {0})
    unfolding receive_chain
    take_chain none n = (n, ok tt)
    take_chain (some incoming) n = receive_chain h incoming n

    unfoldable pub take_reply : Node × Option Message → Node × Result (Unit {0})
    unfolding take_chain
    take_reply (n, none) = (n, ok tt)
    take_reply (n, some response) = take_chain (carried_chain response) n

    unfoldable pub sync_with : List String → Node → Node × Result (Unit {0})
    unfolding send_to_peer take_reply
    sync_with [] n = (n, ok tt)
    sync_with (p ∷ ps) n = and_then (take_reply (send_to_peer p get_chain n)) (λ m. sync_with ps m)

    unfoldable pub sync_chain : Node → Node × Result (Unit {0})
    unfolding sync_with
    sync_chain n = sync_with n.peers n

    unfoldable pub greet : String → Node × Option Message → Node × Result (Unit {0})
    unfolding sync_chain add_peers add
    greet peer (n, none) = (n, ok tt)
    greet peer (n, some response) =
        sync_chain
          (record n { peers = add_peers n.node_id (reply_peers response) (add peer n.peers) })

    unfoldable pub connect_to_peer : String → Node → Node × Result (Unit {0})
    unfolding greet send_to_peer
    connect_to_peer peer n =
        if str_eq peer n.node_id
        then (n, ok tt)
        else greet peer (send_to_peer peer (hello (some n.node_id) n.node_id) n)

    unfoldable pub run_task : Task → Node → Node × Result (Unit {0})
    unfolding gossip_block sync_chain
    run_task (Task.gossip_block block_dict sender) n = (gossip_block block_dict sender n, ok tt)
    run_task Task.sync_chain n = sync_chain n

    -- What the mining loop does with the result of `mine_pending_transactions`; `none` while the
    -- proof of work goes on.
    unfoldable pub after_mining : Node → MineResult → Option (Node × Result (Unit {0}))
    unfolding broadcast persist_chain to_dict add
    after_mining n running = none
    after_mining n (raised e) = some (n, caught e)
    after_mining n (mined bc block) =
        let kept = persist_chain (record n { blockchain = bc }) in
        let seen = record kept { seen_block_hashes = add block.hash kept.seen_block_hashes } in
        some (
          broadcast (new_block (some (to_dict block))) (fire (Event.block_mined block) seen),
          ok tt,
        )

    -- One round of `_mining_loop`; `AUTO_MINE_THRESHOLD` is 1.
    unfoldable pub mining_round : ℕ → ℕ → ℕ → Node → Option (Node × Result (Unit {0}))
    unfolding after_mining mine_pending_transactions
    mining_round fuel now now' n =
        if leb 1 (length n.blockchain.pending_transactions)
        then after_mining n (mine_pending_transactions h fuel now now' n.node_id n.blockchain)
        else some (n, ok tt)
