-- ===== src/Blockchain/Block.antt =====
-- `Block` of blockchain.py.
use cloudmer_cloud_storage.Prelude.{
  ℕ, zero, suc, true, false, String, ◌<>◌, Option, none, some, List, [], ◌∷◌, map, length, Result,
  ok, err, key_error, ◌>>=◌, ltb,
}
use cloudmer_cloud_storage.Blockchain.Tx.{Tx}
use cloudmer_cloud_storage.Blockchain.Hasher.{Hasher}

pub record Block : Type 0 where
  pub index : ℕ
  pub timestamp : ℕ
  pub transactions : List Tx
  pub previous_hash : String
  pub nonce : ℕ
  pub merkle_root : String
  pub hash : String

-- A block as the dict that goes over the wire and into chain.json; a key may be missing.
pub record BlockDict : Type 0 where
  pub index : Option ℕ
  pub timestamp : Option ℕ
  pub transactions : Option (List Tx)
  pub previous_hash : Option String
  pub nonce : Option ℕ
  pub merkle_root : Option String
  pub hash : Option String

module _ (h : Hasher) where
  unfoldable pub compute_hash : Block → String
  compute_hash b =
      h.sha256_hex
        (h.dumps_block b.index b.timestamp b.transactions b.previous_hash b.nonce b.merkle_root)

  -- One round of the loop: the last hash is paired with itself if their number is odd.
  unfoldable pub pair_hashes : List String → List String
  pair_hashes [] = []
  pair_hashes (x ∷ []) = h.sha256_hex (x <> x) ∷ []
  pair_hashes (x ∷ y ∷ rest) = h.sha256_hex (x <> y) ∷ pair_hashes rest

  -- `while len(hashes) > 1`, for at most `fuel` rounds.
  unfoldable pub merkle_loop : ℕ → List String → List String
  unfolding pair_hashes
  merkle_loop zero hashes = hashes
  merkle_loop (suc fuel) hashes = elim (ltb 1 (length hashes)) [
    | true ↦ merkle_loop fuel (pair_hashes hashes)
    | false ↦ hashes
  ]

  unfoldable pub first : List String → String
  first [] = ""
  first (x ∷ _) = x

  unfoldable pub hash_tx : Tx → String
  hash_tx tx = h.sha256_hex (h.dumps_tx tx)

  unfoldable pub compute_merkle_root : List Tx → String
  unfolding merkle_loop first hash_tx
  compute_merkle_root [] = h.sha256_hex "empty"
  compute_merkle_root (tx ∷ txs) =
      let hashes = map hash_tx (tx ∷ txs) in first (merkle_loop (length hashes) hashes)

  -- `Block(index, transactions, previous_hash, nonce)` at time `now`
  unfoldable pub new_block : ℕ → ℕ → List Tx → String → ℕ → Block
  unfolding compute_hash compute_merkle_root
  new_block now index txs previous_hash nonce =
      let b : Block = record {
        index = index;
        timestamp = now;
        transactions = txs;
        previous_hash = previous_hash;
        nonce = nonce;
        merkle_root = compute_merkle_root txs;
        hash = "";
      } in
      record b { hash = compute_hash b }

unfoldable pub to_dict : Block → BlockDict
to_dict b = record {
  index = some b.index;
  timestamp = some b.timestamp;
  transactions = some b.transactions;
  previous_hash = some b.previous_hash;
  nonce = some b.nonce;
  merkle_root = some b.merkle_root;
  hash = some b.hash;
}

-- `data[key]`
abbrev pub item {ℓ} : {A : Type ℓ} → Option A → Result A
item none = err key_error
item (some value) = ok value

-- The hash, the root and the time that the constructor computes are overwritten.
unfoldable pub from_dict : BlockDict → Result Block
from_dict d = do
  index ← item d.index
  transactions ← item d.transactions
  previous_hash ← item d.previous_hash
  nonce ← item d.nonce
  timestamp ← item d.timestamp
  merkle_root ← item d.merkle_root
  hash ← item d.hash
  ok (record {
    index = index;
    timestamp = timestamp;
    transactions = transactions;
    previous_hash = previous_hash;
    nonce = nonce;
    merkle_root = merkle_root;
    hash = hash;
  })
