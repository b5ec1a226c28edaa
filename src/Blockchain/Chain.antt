-- ===== src/Blockchain/Chain.antt =====
-- `CloudBlockchain` of blockchain.py: mining, validation, consensus and persistence. The file on
-- disk is the list of dicts that `json.dump` writes and `json.load` reads.
pub mod Laws
pub mod Mining
pub mod Consensus
pub mod Commits
use cloudmer_cloud_storage.Prelude.{
  ℕ, zero, suc, ◌+◌, String, ◌<>◌, Bool, true, false, not, Option, none, some, List, [], ◌∷◌, ◌++◌,
  map, length, leb, str_eq, Error, Result, ok, err, value_error, index_error, ◌>>=◌, if◌then◌else◌,
}
use cloudmer_cloud_storage.Blockchain.Hasher.{Hasher}
use cloudmer_cloud_storage.Blockchain.Tx.{Tx, empty_tx}
use cloudmer_cloud_storage.Blockchain.Block.{
  Block, BlockDict, compute_hash, new_block, to_dict, from_dict,
}
use cloudmer_cloud_storage.Blockchain.Pow.{zeros, mine, is_valid_proof}

pub record CloudBlockchain : Type 0 where
  pub chain : List Block
  pub pending_transactions : List Tx
  pub difficulty : ℕ

-- The genesis block is made at time `now`.
unfoldable pub init : Hasher → ℕ → ℕ → CloudBlockchain
unfolding new_block zeros
init h now difficulty = record {
  chain = new_block h now 0 [] (zeros 64) 0 ∷ [];
  pending_transactions = [];
  difficulty = difficulty;
}

-- `self.chain[-1]`
unfoldable pub last_of : List Block → Result Block
last_of [] = err index_error
last_of (b ∷ []) = ok b
last_of (b ∷ c ∷ rest) = last_of (c ∷ rest)

abbrev pub last_block : CloudBlockchain → Result Block
last_block bc = last_of bc.chain

abbrev pub height : CloudBlockchain → ℕ
height bc = length bc.chain

-- The queue has grown also where the index of the last block then raises.
unfoldable pub add_transaction : CloudBlockchain → Tx → CloudBlockchain × Result ℕ
unfolding last_of
add_transaction bc tx = (
  record bc { pending_transactions = bc.pending_transactions ++ tx ∷ [] },
  (do b ← last_block bc; ok (b.index + 1)),
)

abbrev pub reward_tx : ℕ → String → Tx
reward_tx now miner_id = record empty_tx {
  type = some "MINING_REWARD";
  miner = some miner_id;
  reward_storage_credits = some 100;
  timestamp = some now;
}

-- The proof of work goes on, an exception, or the new chain and the block that was mined.
pub data MineResult : Type 0 where
  running : MineResult
  raised : Error → MineResult
  mined : CloudBlockchain → Block → MineResult

-- What `mine_pending_transactions` does with the result of the proof of work.
abbrev pub append_mined : CloudBlockchain → Option Block → MineResult
append_mined bc none = running
append_mined bc (some b) =
    mined (record bc { chain = bc.chain ++ b ∷ []; pending_transactions = [] }) b

-- `now` is the time of the reward, `now'` that of the block.
module _ (h : Hasher) (fuel now now' : ℕ) (miner_id : String) (bc : CloudBlockchain) where
  unfoldable pub mine_on : Result Block → MineResult
  unfolding new_block mine
  mine_on (err e) = raised e
  mine_on (ok last) = append_mined bc (
      mine h bc.difficulty fuel (
        new_block h now' (length bc.chain) (bc.pending_transactions ++ reward_tx now miner_id ∷ [])
          last.hash 0))

  unfoldable pub mine_txs : List Tx → MineResult
  unfolding mine_on last_of
  mine_txs [] = raised value_error
  mine_txs (tx ∷ txs) = mine_on (last_block bc)

  unfoldable pub mine_pending_transactions : MineResult
  unfolding mine_txs
  mine_pending_transactions = mine_txs bc.pending_transactions

module _ (h : Hasher) (difficulty : ℕ) where
  -- The three tests on a block and the one before it.
  unfoldable pub links : Block → Block → Bool
  unfolding compute_hash is_valid_proof
  links previous current =
      if not (str_eq current.hash (compute_hash h current))
      then false
      else if not (str_eq current.previous_hash previous.hash)
      then false
      else if not (is_valid_proof h difficulty current)
      then false
      else true

  unfoldable pub valid_from : Block → List Block → Bool
  unfolding links
  valid_from previous [] = true
  valid_from previous (current ∷ rest) = elim (links previous current) [
    | true ↦ valid_from current rest
    | false ↦ false
  ]

  -- `is_valid` on a list of blocks: the loop over `range(1, len(chain))`.
  unfoldable pub is_valid_chain : List Block → Bool
  unfolding valid_from
  is_valid_chain [] = true
  is_valid_chain (b ∷ rest) = valid_from b rest

abbrev pub is_valid : Hasher → CloudBlockchain → Bool
is_valid h bc = is_valid_chain h bc.difficulty bc.chain

unfoldable pub from_dicts : List BlockDict → Result (List Block)
unfolding from_dict
from_dicts [] = ok []
from_dicts (d ∷ ds) = do b ← from_dict d; bs ← from_dicts ds; ok (b ∷ bs)

abbrev pub adopt : Hasher → CloudBlockchain → Result (List Block) → CloudBlockchain × Result Bool
adopt h bc (err e) = (bc, err e)
adopt h bc (ok candidate) =
    if is_valid_chain h bc.difficulty candidate
    then (record bc { chain = candidate }, ok true)
    else (bc, ok false)

unfoldable pub replace_chain :
    Hasher → CloudBlockchain → List BlockDict → CloudBlockchain × Result Bool
unfolding from_dicts is_valid_chain
replace_chain h bc new_chain_data =
    if leb (length new_chain_data) (length bc.chain)
    then (bc, ok false)
    else adopt h bc (from_dicts new_chain_data)

-- `save`, `to_json` and the payload of GET_CHAIN: the dicts of the blocks.
unfoldable pub save : CloudBlockchain → List BlockDict
unfolding to_dict
save bc = map to_dict bc.chain

-- `load` takes what the file holds, without a check of validity.
abbrev pub loaded : CloudBlockchain → Result (List Block) → CloudBlockchain × Result (Unit {0})
loaded bc (err e) = (bc, err e)
loaded bc (ok blocks) = (record bc { chain = blocks }, ok tt)

unfoldable pub load : CloudBlockchain → List BlockDict → CloudBlockchain × Result (Unit {0})
unfolding from_dicts
load bc dicts = loaded bc (from_dicts dicts)
