-- ===== src/Tests/Network.antt =====
-- The properties of p2p.py: frames in three segments, and a node that a peer with a longer chain
-- talks to.
use cloudmer_cloud_storage.Prelude.{
  lookup, ◌≡◌, ◌≤◌, inr, refl, arith, true, none, some, [], ◌∷◌, length, take, drop, Bytes, ok,
}
use cloudmer_cloud_storage.Blockchain.Block.{to_dict}
use cloudmer_cloud_storage.Blockchain.Chain.{save, from_dicts, is_valid_chain}
use cloudmer_cloud_storage.P2p.Message.{chain, new_block, new_tx, get_peers, Base64}
use cloudmer_cloud_storage.P2p.Node.{Node}
use cloudmer_cloud_storage.P2p.Wire.{Socket, recv_exactly, Json, encode_message, decode_message}
use cloudmer_cloud_storage.P2p.Wire.Frames.{
  stream, IsOpen, recv_exactly_lem, decode_message-encode_message,
}
use cloudmer_cloud_storage.P2p.Dispatch.{receive_block, dispatch}
use cloudmer_cloud_storage.P2p.Dispatch.Receive.{Outcome, receive_block-Outcome}
use cloudmer_cloud_storage.P2p.Dispatch.Seen.{receive_block_twice}
use cloudmer_cloud_storage.P2p.Send.{answered, Network, broadcast, sync_chain, request_chunk}
use cloudmer_cloud_storage.P2p.Send.Chunks.{Got, request_chunk-Answers}
use cloudmer_cloud_storage.P2p.Send.Silence.{reply_of, of_tx, broadcast-RunsNodes}
use cloudmer_cloud_storage.P2p.Send.Sync.{Progress, sync_chain_best}
use cloudmer_cloud_storage.P2p.Steps.{on_message, here, go_on}
use cloudmer_cloud_storage.P2p.Steps.Safety.{Reaches-Progress}
use cloudmer_cloud_storage.Tests.Chain.{marked, an_upload, queued, next_block, grown}

abbrev short_json : Json
short_json = record { dumps = λ msg. 1 ∷ 2 ∷ 3 ∷ []; loads = λ raw. ok (some get_peers) }

abbrev frame : Bytes
frame = 0 ∷ 0 ∷ 0 ∷ 3 ∷ 1 ∷ 2 ∷ 3 ∷ []

abbrev segments : Socket
segments = (0 ∷ 0 ∷ 0 ∷ []) ∷ (3 ∷ 1 ∷ []) ∷ (2 ∷ 3 ∷ 9 ∷ []) ∷ []

segments-IsOpen : IsOpen segments
segments-IsOpen = (omega arith, (omega arith, (omega arith, tt)))

frame_encoded : encode_message short_json get_peers ≡ ok frame
unfolding encode_message
frame_encoded = refl

frame_example :
    (after : Socket) × (decode_message short_json segments ≡ (ok (some get_peers), after))
    × (stream after ≡ 9 ∷ [])
    × IsOpen after
frame_example =
    decode_message-encode_message short_json get_peers frame (9 ∷ []) segments refl frame_encoded
      segments-IsOpen refl

recv_example :
    (after : Socket) × (recv_exactly 4 segments ≡ (some (take 4 (stream segments)), after))
    × (stream after ≡ drop 4 (stream segments))
    × IsOpen after
recv_example = recv_exactly_lem 4 segments segments-IsOpen (omega arith)

abbrev pub node : Node
node = record {
  node_id = "n";
  peers = "p" ∷ "q" ∷ [];
  chunk_store = [];
  blockchain = queued;
  chain_path = true;
  disk = none;
  seen_block_hashes = [];
  running = true;
  fired = [];
  tasks = [];
}

receive_example :
    Outcome marked
      (to_dict next_block)
      "p"
      node
      (receive_block marked (to_dict next_block) "p" node).0
receive_example = receive_block-Outcome marked (to_dict next_block) "p" node

receive_twice_example :
    receive_block marked
      (to_dict next_block)
      "q"
      (receive_block marked (to_dict next_block) "p" node).0
    ≡ ((receive_block marked (to_dict next_block) "p" node).0, ok tt)
receive_twice_example =
    receive_block_twice marked (to_dict next_block) (to_dict next_block) "p" "q" node refl

abbrev plain : Base64
plain = record { b64encode = λ b. "data"; b64decode = λ s. 7 ∷ [] }

-- Every peer answers as this node does.
abbrev mirrors : Network
mirrors p msg = answered (reply_of (dispatch marked plain msg "n" node))

broadcast_example : (broadcast mirrors (new_tx (some an_upload)) node).peers ≡ []
broadcast_example =
    broadcast-RunsNodes marked plain mirrors (new_tx (some an_upload)) node
      (λ p msg. inr ("n", node, refl)) (of_tx (some an_upload))

-- Every peer offers the chain with one more block.
abbrev offers : Network
offers p msg = answered (some (chain (some (save grown)) none))

offered : from_dicts (save grown) ≡ ok grown.chain
unfolding from_dicts save grown
offered = refl

grown_chain_valid : is_valid_chain marked 1 grown.chain ≡ true
unfolding is_valid_chain grown next_block
grown_chain_valid = refl

round_ends : (sync_chain offers marked node).1 ≡ ok tt
unfolding sync_chain grown next_block
round_ends = refl

sync_example : length grown.chain ≤ length (sync_chain offers marked node).0.blockchain.chain
sync_example =
    sync_chain_best marked offers "q" (save grown) none grown.chain refl offered node refl
      grown_chain_valid round_ends

steps_example :
    Progress marked node (dispatch marked plain (new_block (some (to_dict next_block))) "p" node).0
steps_example =
    Reaches-Progress marked plain node
      (dispatch marked plain (new_block (some (to_dict next_block))) "p" node).0
      (go_on node (dispatch marked plain (new_block (some (to_dict next_block))) "p" node).0
        (dispatch marked plain (new_block (some (to_dict next_block))) "p" node).0
        (on_message (new_block (some (to_dict next_block))) "p" node)
        (here (dispatch marked plain (new_block (some (to_dict next_block))) "p" node).0))

abbrev holder : Node
holder = record node { chunk_store = ("c", 7 ∷ []) ∷ [] }

abbrev holders : Network
holders p msg = answered (reply_of (dispatch marked plain msg "n" holder))

holder_has : lookup "c" holder.chunk_store ≡ some (7 ∷ [])
unfolding lookup
holder_has = refl

chunk_example : Got marked plain holders "c" (7 ∷ []) (request_chunk holders plain "c" node)
chunk_example =
    request_chunk-Answers marked plain holders "c" (7 ∷ []) "q" node refl
      (λ q. inr (inr ("n", holder, holder_has, refl))) refl ("n", holder, holder_has, refl)
