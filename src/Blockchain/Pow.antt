-- ===== src/Blockchain/Pow.antt =====
-- `ProofOfWork` of blockchain.py.
use cloudmer_cloud_storage.Prelude.{
  ℕ, zero, suc, ◌+◌, String, ◌<>◌, Bool, true, false, ◌&&◌, Option, none, some, starts_with, str_eq,
}
use cloudmer_cloud_storage.Blockchain.Hasher.{Hasher}
use cloudmer_cloud_storage.Blockchain.Block.{Block, compute_hash}

-- `"0" * difficulty`
unfoldable pub zeros : ℕ → String
zeros zero = ""
zeros (suc n) = "0" <> zeros n

-- `block.hash = block.compute_hash()`
unfoldable pub sealed : Hasher → Block → Block
unfolding compute_hash
sealed h b = record b { hash = compute_hash h b }

module _ (h : Hasher) (difficulty : ℕ) where
  -- The test of the loop in `mine`, negated.
  unfoldable pub is_found : Block → Bool
  unfolding zeros
  is_found b = starts_with (compute_hash h b) (zeros difficulty)

  -- `while not …: block.nonce += 1`, for at most `fuel` rounds; `none` if it would go on.
  unfoldable pub search_nonce : ℕ → Block → Option Block
  unfolding is_found
  search_nonce zero b = none
  search_nonce (suc fuel) b = elim (is_found b) [
    | true ↦ some b
    | false ↦ search_nonce fuel (record b { nonce = b.nonce + 1 })
  ]

  -- `mine`, within `fuel` rounds: the block that it leaves behind.
  unfoldable pub mine : ℕ → Block → Option Block
  unfolding search_nonce sealed
  mine fuel b = elim (search_nonce fuel (record b { nonce = 0 })) [
    | none ↦ none
    | some found ↦ some (sealed h found)
  ]

  unfoldable pub is_valid_proof : Block → Bool
  unfolding zeros compute_hash
  is_valid_proof b = starts_with b.hash (zeros difficulty) && str_eq b.hash (compute_hash h b)
