-- ===== src/P2p/Node.antt =====
-- The state of `P2PNode` of p2p.py. The callbacks of an event are code outside the module: the
-- node keeps the events that it fired. A thread that a handler starts is a task that waits.
use cloudmer_cloud_storage.Prelude.{
  ℕ, String, Bool, true, false, Option, none, some, List, [], ◌∷◌, ◌++◌, length, str_eq, Bytes,
  Result, ok, err, if◌then◌else◌, insert,
}
use cloudmer_cloud_storage.Blockchain.Hasher.{Hasher}
use cloudmer_cloud_storage.Blockchain.Tx.{Tx, or_else}
use cloudmer_cloud_storage.Blockchain.Block.{Block, BlockDict}
use cloudmer_cloud_storage.Blockchain.Chain.{CloudBlockchain, save, load, is_valid}

pub data Event : Type 0 where
  block_accepted block_mined : Block → Event
  chain_replaced : Event
  new_tx : Tx → Event

-- `_gossip_block(block_dict, sender)` and `sync_chain()`
pub data Task : Type 0 where
  gossip_block : BlockDict → String → Task
  sync_chain : Task

-- `disk` is what the file at `chain_path` holds.
pub record Node : Type 0 where
  pub node_id : String
  pub peers : List String
  pub chunk_store : List (String × Bytes)
  pub blockchain : CloudBlockchain
  pub chain_path : Bool
  pub disk : Option (List BlockDict)
  pub seen_block_hashes : List String
  pub running : Bool
  pub fired : List Event
  pub tasks : List Task

-- `if chain_path: if os.path.exists(chain_path): self.blockchain.load(chain_path)`
abbrev pub load_at :
    Bool → Option (List BlockDict) → CloudBlockchain → CloudBlockchain × Result (Unit {0})
load_at false file bc = (bc, ok tt)
load_at true none bc = (bc, ok tt)
load_at true (some dicts) bc = load bc dicts

-- What `__init__` does with the chain that was loaded; `address` is `f"{host}:{port}"`.
abbrev pub node_with :
    String
    → Option String
    → Bool
    → Option (List BlockDict)
    → CloudBlockchain × Result (Unit {0})
    → Result Node
node_with address node_id chain_path file (bc, err e) = err e
node_with address node_id chain_path file (bc, ok _) = ok (record {
  node_id = (let given = or_else node_id "" in if str_eq given "" then address else given);
  peers = [];
  chunk_store = [];
  blockchain = bc;
  chain_path = chain_path;
  disk = file;
  seen_block_hashes = [];
  running = false;
  fired = [];
  tasks = [];
})

unfoldable pub new_node :
    Hasher → ℕ → String → Option String → ℕ → Bool → Option (List BlockDict) → Result Node
unfolding cloudmer_cloud_storage.Blockchain.Chain.init load
new_node h now address node_id difficulty chain_path file =
    node_with address node_id chain_path file
      (load_at chain_path file (cloudmer_cloud_storage.Blockchain.Chain.init h now difficulty))

-- The file is written whole; an error of the write is logged and leaves the node as it is.
unfoldable pub persist_chain : Node → Node
unfolding save
persist_chain n = if n.chain_path then record n { disk = some (save n.blockchain) } else n

-- An exception of a callback is caught.
abbrev pub fire : Event → Node → Node
fire e n = record n { fired = n.fired ++ e ∷ [] }

abbrev pub start_task : Task → Node → Node
start_task t n = record n { tasks = n.tasks ++ t ∷ [] }

abbrev pub store_chunk : String → Bytes → Node → Node
store_chunk chunk_hash bytes n = record n { chunk_store = insert chunk_hash bytes n.chunk_store }

pub record Status : Type 0 where
  pub node_id : String
  pub connected_peers : ℕ
  pub peers : List String
  pub chain_height : ℕ
  pub chain_valid : Bool
  pub pending_txs : ℕ
  pub local_chunks : ℕ
  pub running : Bool
  pub difficulty : ℕ

abbrev pub status : Hasher → Node → Status
status h n = record {
  node_id = n.node_id;
  connected_peers = length n.peers;
  peers = n.peers;
  chain_height = length n.blockchain.chain;
  chain_valid = is_valid h n.blockchain;
  pending_txs = length n.blockchain.pending_transactions;
  local_chunks = length n.chunk_store;
  running = n.running;
  difficulty = n.blockchain.difficulty;
}
