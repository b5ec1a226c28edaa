-- ===== src/P2p/Dispatch/Receive.antt =====
-- What an incoming block does to a node of p2p.py.
use cloudmer_cloud_storage.Prelude.{
  ℕ, ◌<◌, ◌≡◌, refl, String, true, false, ◌⊎◌, inl, inr, Bool-cases, arith, leb, str_eq, eq_iff,
  List, [], ◌∷◌, ◌++◌, Result, ok, err,
}
use cloudmer_cloud_storage.Blockchain.Hasher.{Hasher}
use cloudmer_cloud_storage.Blockchain.Tx.{contains, or_else}
use cloudmer_cloud_storage.Blockchain.Block.{Block, BlockDict, compute_hash, from_dict}
use cloudmer_cloud_storage.Blockchain.Pow.{is_valid_proof}
use cloudmer_cloud_storage.Blockchain.Chain.{last_of, last_block, is_valid}
use cloudmer_cloud_storage.Blockchain.Chain.Laws.{is_valid_chain-append, IsNext, IsNext-links}
use cloudmer_cloud_storage.Blockchain.Query.{add}
use cloudmer_cloud_storage.P2p.Node.{Node, Event, gossip_block, persist_chain}
use cloudmer_cloud_storage.P2p.Dispatch.{accept_block, judge_block, rebuilt_block, receive_block}
use cloudmer_cloud_storage.P2p.Dispatch.Purge.{Purged, unconfirmed-Purged}

module _ (h : Hasher) where
  is_valid_proof-IsNext :
      (difficulty : ℕ) (last b : Block)
      → is_valid_proof h difficulty b ≡ true
      → str_eq b.previous_hash last.hash ≡ true
      → IsNext h difficulty last b
  unfolding is_valid_proof
  is_valid_proof-IsNext difficulty last b worked linked = record {
    own_hash = (eq_iff b.hash (compute_hash h b)).0 (ground arith);
    linked = (eq_iff b.previous_hash last.hash).0 linked;
    worked = ground arith;
  }

  -- The node after a block was taken into the chain.
  pub record Accepted (block_dict : BlockDict) (sender : String) (n n' : Node) : Type 0 where
    pub block : Block
    pub last : Block
    pub rebuilt : from_dict block_dict ≡ ok block
    pub tip : last_of n.blockchain.chain ≡ ok last
    pub follows : IsNext h n.blockchain.difficulty last block
    pub newer : last.index < block.index
    pub chain : n'.blockchain.chain ≡ n.blockchain.chain ++ block ∷ []
    pub queue :
        Purged block.transactions n.blockchain.pending_transactions
          n'.blockchain.pending_transactions
    pub same_difficulty : n'.blockchain.difficulty ≡ n.blockchain.difficulty
    pub event : n'.fired ≡ n.fired ++ Event.block_accepted block ∷ []
    pub forwarded : n'.tasks ≡ n.tasks ++ gossip_block block_dict sender ∷ []

  -- The chain object and the file are as before, and nothing was announced.
  pub record Untouched (n n' : Node) : Type 0 where
    pub same_chain : n'.blockchain ≡ n.blockchain
    pub same_disk : n'.disk ≡ n.disk
    pub silent : n'.fired ≡ n.fired

  abbrev pub Outcome : BlockDict → String → Node → Node → Type 0
  Outcome block_dict sender n n' = Untouched n n' ⊎ Accepted block_dict sender n n'

  accept_block-Accepted :
      (d : BlockDict) (sender : String) (b last : Block) (n : Node)
      → from_dict d ≡ ok b
      → last_of n.blockchain.chain ≡ ok last
      → IsNext h n.blockchain.difficulty last b
      → last.index < b.index
      → Accepted d sender n (accept_block d sender b n)
  unfolding accept_block persist_chain
  accept_block-Accepted d sender b last n rebuilt tip follows newer =
      elim (Bool-cases n.chain_path) [
        | inl kept ↦ rw kept (record {
          block = b;
          last = last;
          rebuilt = rebuilt;
          tip = tip;
          follows = follows;
          newer = newer;
          chain = refl;
          queue = unconfirmed-Purged b.transactions n.blockchain.pending_transactions;
          same_difficulty = refl;
          event = refl;
          forwarded = refl;
        })
        | inr volatile ↦ rw volatile (record {
          block = b;
          last = last;
          rebuilt = rebuilt;
          tip = tip;
          follows = follows;
          newer = newer;
          chain = refl;
          queue = unconfirmed-Purged b.transactions n.blockchain.pending_transactions;
          same_difficulty = refl;
          event = refl;
          forwarded = refl;
        })
      ]

  judge_block-Outcome :
      (d : BlockDict) (sender : String) (b : Block) (last : Result Block) (n : Node)
      → from_dict d ≡ ok b
      → last_of n.blockchain.chain ≡ last
      → Outcome d sender n (judge_block h d sender b last n).0
  unfolding judge_block
  judge_block-Outcome d sender b (err e) n rebuilt tip =
      inl (record { same_chain = refl; same_disk = refl; silent = refl })
  judge_block-Outcome d sender b (ok last) n rebuilt tip =
      elim (Bool-cases (is_valid_proof h n.blockchain.difficulty b)) [
        | inr bad ↦ rw bad (inl (record { same_chain = refl; same_disk = refl; silent = refl }))
        | inl worked ↦ elim (Bool-cases (leb b.index last.index)) [
          | inl old ↦
              rw (worked, old) (inl (record { same_chain = refl; same_disk = refl; silent = refl }))
          | inr new ↦ elim (Bool-cases (str_eq b.previous_hash last.hash)) [
            | inr apart ↦
                rw (worked, new, apart)
                  (inl (record { same_chain = refl; same_disk = refl; silent = refl }))
            | inl linked ↦
                rw (worked, new, linked)
                  (inr (
                    accept_block-Accepted d sender b last n rebuilt tip (fits worked linked)
                      (ground arith)))
          ]
        ]
      ]
    where
      fits :
          is_valid_proof h n.blockchain.difficulty b ≡ true
          → str_eq b.previous_hash last.hash ≡ true
          → IsNext h n.blockchain.difficulty last b
      fits worked linked = is_valid_proof-IsNext n.blockchain.difficulty last b worked linked

  abbrev pub with_seen : List String → Node → Node
  with_seen seen n = record n { seen_block_hashes = seen }

  with_seen-Accepted :
      (d : BlockDict) (sender : String) (seen : List String) (n n' : Node)
      → Accepted d sender (with_seen seen n) n'
      → Accepted d sender n n'
  with_seen-Accepted d sender seen n n' a = record {
    block = a.block;
    last = a.last;
    rebuilt = a.rebuilt;
    tip = a.tip;
    follows = a.follows;
    newer = a.newer;
    chain = a.chain;
    queue = a.queue;
    same_difficulty = a.same_difficulty;
    event = a.event;
    forwarded = a.forwarded;
  }

  with_seen-Outcome :
      (d : BlockDict) (sender : String) (seen : List String) (n n' : Node)
      → Outcome d sender (with_seen seen n) n'
      → Outcome d sender n n'
  with_seen-Outcome d sender seen n n' (inl u) =
      inl (record { same_chain = u.same_chain; same_disk = u.same_disk; silent = u.silent })
  with_seen-Outcome d sender seen n n' (inr a) = inr (with_seen-Accepted d sender seen n n' a)

  rebuilt_block-Outcome :
      (d : BlockDict) (sender : String) (b : Result Block) (n : Node)
      → from_dict d ≡ b
      → Outcome d sender n (rebuilt_block h d sender b n).0
  unfolding rebuilt_block judge_block
  rebuilt_block-Outcome d sender (err e) n rebuilt =
      inl (record { same_chain = refl; same_disk = refl; silent = refl })
  rebuilt_block-Outcome d sender (ok b) n rebuilt =
      judge_block-Outcome d sender b (last_block n.blockchain) n rebuilt refl

  pub receive_block-seen :
      (d : BlockDict) (sender : String) (n : Node)
      → contains n.seen_block_hashes (or_else d.hash "") ≡ true
      → receive_block h d sender n ≡ (n, ok tt)
  unfolding receive_block
  receive_block-seen d sender n seen = rw seen

  pub receive_block-unseen :
      (d : BlockDict) (sender : String) (n : Node)
      → contains n.seen_block_hashes (or_else d.hash "") ≡ false
      → receive_block h d sender n
        ≡ rebuilt_block h d sender
            (from_dict d)
            (with_seen (add (or_else d.hash "") n.seen_block_hashes) n)
  unfolding receive_block
  receive_block-unseen d sender n unseen = rw unseen

  -- A block from a peer leaves the chain, the file and the events as they are, or it is appended
  -- to the chain: then it was rebuilt from the dict, it has its own hash with the zeros of the
  -- difficulty, it names the hash of the last block and has a larger index, the queue has lost
  -- exactly the transactions about a file that some transaction of the block is about, and its dict is to be forwarded to the other peers.
  pub receive_block-Outcome :
      (d : BlockDict) (sender : String) (n : Node)
      → Outcome d sender n (receive_block h d sender n).0
  receive_block-Outcome d sender n =
      elim (Bool-cases (contains n.seen_block_hashes (or_else d.hash ""))) [
        | inl seen ↦
            rw (receive_block-seen d sender n seen)
              (inl (record { same_chain = refl; same_disk = refl; silent = refl }))
        | inr unseen ↦
            let hashes : List String = add (or_else d.hash "") n.seen_block_hashes in
            rw (receive_block-unseen d sender n unseen) (
              with_seen-Outcome d sender hashes n
                (rebuilt_block h d sender (from_dict d) (with_seen hashes n)).0
                (rebuilt_block-Outcome d sender (from_dict d) (with_seen hashes n) refl))
      ]

  pub receive_block-is_valid :
      (d : BlockDict) (sender : String) (n : Node)
      → is_valid h n.blockchain ≡ true
      → is_valid h (receive_block h d sender n).0.blockchain ≡ true
  receive_block-is_valid d sender n v = elim (receive_block-Outcome d sender n) [
    | inl u ↦ rw u.same_chain v
    | inr a ↦
        rw (a.same_difficulty, a.chain)
          (is_valid_chain-append h n.blockchain.difficulty n.blockchain.chain a.last a.block a.tip v
            (IsNext-links h n.blockchain.difficulty a.last a.block a.follows))
  ]
