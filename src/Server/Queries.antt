-- ===== src/Server/Queries.antt =====
-- The queries of cloudmer_SRV.py on the chain, which cloudmer_SRV_p2p_patch.py has too for the chain
-- of its node. `json.dumps` is a parameter.
use cloudmer_cloud_storage.Prelude.{
  ℕ, String, ◌<>◌, Bool, Option, none, some, List, [], ◌∷◌, map, length, if◌then◌else◌,
}
use cloudmer_cloud_storage.Blockchain.Hasher.{Hasher}
use cloudmer_cloud_storage.Blockchain.Tx.{Tx, holds, or_else, upload}
use cloudmer_cloud_storage.Blockchain.Block.{Block}
use cloudmer_cloud_storage.Blockchain.Pow.{is_valid_proof}
use cloudmer_cloud_storage.Blockchain.Chain.{CloudBlockchain}
use cloudmer_cloud_storage.Blockchain.Query.{HistoryEntry, get_file_metadata, get_file_history}

pub record Summary : Type 0 where
  pub index : ℕ
  pub hash : String
  pub timestamp : ℕ
  pub previous_hash : String
  pub nonce : ℕ
  pub tx_count : ℕ
  pub file_hash : String
  pub file_name : String
  pub sender_id : String
  pub is_verified : Bool

pub record Dumps : Type 0 where
  pub dump_tx : Tx → String
  pub dump_history : List HistoryEntry → String
  pub dump_summaries : List Summary → String

module _ (j : Dumps) where
  abbrev pub metadata_reply : Option Tx → String
  metadata_reply none = "FMTA~FAIL~not found"
  metadata_reply (some meta) = "FMTA~OK~" <> j.dump_tx meta

  unfoldable pub handle_file_metadata : List String → CloudBlockchain → String
  handle_file_metadata (_ ∷ file_hash ∷ _) bc = metadata_reply (get_file_metadata bc file_hash)
  handle_file_metadata _ bc = "FMTA~FAIL~missing file_hash"

  unfoldable pub handle_file_history : List String → CloudBlockchain → String
  handle_file_history (_ ∷ file_hash ∷ _) bc =
      "FHST~OK~" <> j.dump_history (get_file_history bc file_hash)
  handle_file_history _ bc = "FHST~FAIL~missing file_hash"

-- The first upload of a block.
unfoldable pub primary_tx : List Tx → Option Tx
primary_tx [] = none
primary_tx (tx ∷ txs) = let rest = primary_tx txs in if holds tx.type upload then some tx else rest

-- `primary_tx.get(key, "") if primary_tx else ""`
abbrev pub field : (Tx → Option String) → Option Tx → String
field key none = ""
field key (some tx) = or_else (key tx) ""

abbrev pub summary : Hasher → ℕ → Block → Summary
summary h difficulty block =
    let tx = primary_tx block.transactions in
    record {
      index = block.index;
      hash = block.hash;
      timestamp = block.timestamp;
      previous_hash = block.previous_hash;
      nonce = block.nonce;
      tx_count = length block.transactions;
      file_hash = field (λ t. t.file_hash) tx;
      file_name = field (λ t. t.file_name) tx;
      sender_id = field (λ t. t.owner) tx;
      is_verified = is_valid_proof h difficulty block;
    }

unfoldable pub handle_get_chain : Dumps → Hasher → CloudBlockchain → String
handle_get_chain j h bc = "BLCH~OK~" <> j.dump_summaries (map (summary h bc.difficulty) bc.chain)
