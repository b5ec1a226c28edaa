-- ===== src/Blockchain/Hasher.antt =====
-- What blockchain.py takes from hashlib and json: `sha256(text.encode()).hexdigest()`, and
-- `json.dumps(…, sort_keys=True)` of a transaction and of a block's contents.
use cloudmer_cloud_storage.Prelude.{ℕ, String, List}
use cloudmer_cloud_storage.Blockchain.Tx.{Tx}

pub record Hasher : Type 0 where
  pub sha256_hex : String → String
  pub dumps_tx : Tx → String
  -- index, timestamp, transactions, previous_hash, nonce, merkle_root
  pub dumps_block : ℕ → ℕ → List Tx → String → ℕ → String → String
