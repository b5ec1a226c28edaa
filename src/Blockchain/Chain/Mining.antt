-- ===== src/Blockchain/Chain/Mining.antt =====
-- `mine_pending_transactions` of blockchain.py.
use cloudmer_cloud_storage.Prelude.{
  ℕ, ◌<◌, ◌≡◌, ◌≢◌, refl, ap, ◌∙◌, true, arith, Option, none, some, String, eq_iff, List, [], ◌∷◌,
  ◌++◌, length, Result, ok, err,
}
use cloudmer_cloud_storage.Blockchain.Hasher.{Hasher}
use cloudmer_cloud_storage.Blockchain.Tx.{Tx}
use cloudmer_cloud_storage.Blockchain.Block.{Block, compute_hash, new_block}
use cloudmer_cloud_storage.Blockchain.Pow.{mine, sealed, is_found, is_valid_proof}
use cloudmer_cloud_storage.Blockchain.Nonce.{mine_sound, mine-least, at_nonce}
use cloudmer_cloud_storage.Blockchain.Chain.{
  CloudBlockchain, mined, append_mined, mine_on, mine_txs, mine_pending_transactions, reward_tx,
  last_of, last_block, links, is_valid,
}
use cloudmer_cloud_storage.Blockchain.Chain.Laws.{IsNext-links, is_valid_chain-append}

module _ (h : Hasher) (fuel now now' : ℕ) (miner_id : String) (bc : CloudBlockchain) where
  abbrev block_txs : List Tx
  block_txs = bc.pending_transactions ++ reward_tx now miner_id ∷ []

  abbrev candidate : Block → Block
  candidate last = new_block h now' (length bc.chain) block_txs last.hash 0

  mine_txs-mine_on :
      (txs : List Tx)
      → txs ≢ []
      → mine_txs h fuel now now' miner_id bc txs
        ≡ mine_on h fuel now now' miner_id bc (last_block bc)
  unfolding mine_txs
  mine_txs-mine_on [] n = absurd (n refl)
  mine_txs-mine_on (tx ∷ txs) n = refl

  mine_pending-candidate :
      (last : Block)
      → bc.pending_transactions ≢ []
      → last_of bc.chain ≡ ok last
      → mine_pending_transactions h fuel now now' miner_id bc
        ≡ append_mined bc (mine h bc.difficulty fuel (candidate last))
  unfolding mine_pending_transactions
  mine_pending-candidate last some_pending e =
      mine_txs-mine_on bc.pending_transactions some_pending
      ∙ ap (mine_on h fuel now now' miner_id bc) e

  mined-eq :
      {bc₁ bc₂ : CloudBlockchain} {b₁ b₂ : Block}
      → mined bc₁ b₁ ≡ mined bc₂ b₂
      → (bc₁ ≡ bc₂) × (b₁ ≡ b₂)
  mined-eq e = (cc, cc)

  -- The record of a block that was mined on top of a chain.
  pub record IsMined (bc' : CloudBlockchain) (b : Block) : Type 0 where
    pub chain_grown : bc'.chain ≡ bc.chain ++ b ∷ []
    pub queue_empty : bc'.pending_transactions ≡ []
    pub difficulty_kept : bc'.difficulty ≡ bc.difficulty
    pub txs_sealed : b.transactions ≡ block_txs
    pub index_next : b.index ≡ length bc.chain
    pub still_valid : is_valid h bc ≡ true → is_valid h bc' ≡ true

  proof_links :
      (last b : Block)
      → is_valid_proof h bc.difficulty b ≡ true
      → b.previous_hash ≡ last.hash
      → links h bc.difficulty last b ≡ true
  unfolding is_valid_proof
  proof_links last b v e = IsNext-links h bc.difficulty last b (record {
    own_hash = (eq_iff b.hash (compute_hash h b)).0 (ground arith);
    linked = e;
    worked = ground arith;
  })

  candidate_fields :
      (last : Block)
      → ((candidate last).transactions ≡ block_txs)
        × ((candidate last).index ≡ length bc.chain)
        × ((candidate last).previous_hash ≡ last.hash)
  unfolding new_block
  candidate_fields last = (refl, refl, refl)

  IsMined-found :
      (last b : Block)
      → last_of bc.chain ≡ ok last
      → mine h bc.difficulty fuel (candidate last) ≡ some b
      → IsMined (record bc { chain = bc.chain ++ b ∷ []; pending_transactions = [] }) b
  IsMined-found last b e found =
      let (v, shape) = mine_sound h bc.difficulty fuel (candidate last) b found in
      let (txs, index, prev) = candidate_fields last in
      record {
        chain_grown = refl;
        queue_empty = refl;
        difficulty_kept = refl;
        txs_sealed = ap (λ (t : Block). t.transactions) shape ∙ txs;
        index_next = ap (λ (t : Block). t.index) shape ∙ index;
        still_valid = λ ok_chain.
            is_valid_chain-append h bc.difficulty bc.chain last b e ok_chain
              (proof_links last b v (ap (λ (t : Block). t.previous_hash) shape ∙ prev));
      }

  IsMined-outcome :
      (last b : Block) (bc' : CloudBlockchain) (o : Option Block)
      → last_of bc.chain ≡ ok last
      → mine h bc.difficulty fuel (candidate last) ≡ o
      → append_mined bc o ≡ mined bc' b
      → IsMined bc' b
  IsMined-outcome last b bc' none e found m = cc
  IsMined-outcome last b bc' (some c) e found m =
      let (same, block) = mined-eq m in rw (← same, ← block) (IsMined-found last c e found)

  -- When mining succeeds, the chain has grown by one block, which holds the queued transactions in
  -- order and then the reward, with the next index; the queue is empty, and a chain that was valid
  -- is valid.
  pub mine_pending_transactions-IsMined :
      (bc' : CloudBlockchain) (b : Block)
      → mine_pending_transactions h fuel now now' miner_id bc ≡ mined bc' b
      → IsMined bc' b
  unfolding mine_pending_transactions
  mine_pending_transactions-IsMined bc' b m = on_queue bc.pending_transactions m
    where
      on_last :
          (r : Result Block)
          → last_of bc.chain ≡ r
          → mine_on h fuel now now' miner_id bc r ≡ mined bc' b
          → IsMined bc' b
      on_last (err x) e m = cc
      on_last (ok last) e m =
          IsMined-outcome last b bc' (mine h bc.difficulty fuel (candidate last)) e refl m

      on_queue :
          (txs : List Tx) → mine_txs h fuel now now' miner_id bc txs ≡ mined bc' b → IsMined bc' b
      on_queue [] m = cc
      on_queue (tx ∷ txs) m = on_last (last_of bc.chain) refl m

  -- With queued transactions, on a chain with a last block, mining succeeds as soon as some nonce
  -- `n` gives the new block a hash with enough zeros and the rounds exceed `n`.
  pub mine_pending_transactions-total :
      (last : Block) (n : ℕ)
      → bc.pending_transactions ≢ []
      → last_of bc.chain ≡ ok last
      → is_found h bc.difficulty (at_nonce (candidate last) n) ≡ true
      → n < fuel
      → (bc' : CloudBlockchain) × (b : Block) × (mine_pending_transactions h fuel now now' miner_id
            bc
          ≡ mined bc' b)
  mine_pending_transactions-total last n some_pending e found l =
      let (m, result, bound, least, valid) =
        mine-least h bc.difficulty (candidate last) n fuel found l in
      let b : Block = sealed h (at_nonce (candidate last) m) in
      (
        record bc { chain = bc.chain ++ b ∷ []; pending_transactions = [] },
        b,
        mine_pending-candidate last some_pending e ∙ ap (append_mined bc) result,
      )
