-- ===== src/P2p/Send/Sync.antt =====
-- `sync_chain` of p2p.py: the chain after a round over the peers.
use cloudmer_cloud_storage.Prelude.{
  ℕ, ◌≤◌, ◌≡◌, refl, ◌∙◌, String, Bool, true, false, ◌⊎◌, inl, inr, Bool-cases, arith, str_eq,
  eq_iff, Option, none, some, List, [], ◌∷◌, length, Result, ok, err,
}
use cloudmer_cloud_storage.Blockchain.Hasher.{Hasher}
use cloudmer_cloud_storage.Blockchain.Tx.{contains}
use cloudmer_cloud_storage.Blockchain.Block.{Block, BlockDict}
use cloudmer_cloud_storage.Blockchain.Chain.{
  CloudBlockchain, is_valid_chain, is_valid, from_dicts, replace_chain,
}
use cloudmer_cloud_storage.Blockchain.Chain.Consensus.{replace_chain-Outcome, replace_chain_best}
use cloudmer_cloud_storage.P2p.Message.{get_chain, chain}
use cloudmer_cloud_storage.P2p.Node.{Node, persist_chain}
use cloudmer_cloud_storage.P2p.Dispatch.{after_replace, receive_chain}
use cloudmer_cloud_storage.P2p.Send.{
  Delivery, unreachable, answered, Network, delivered, carried_chain, and_then, send_to_peer,
  take_chain, take_reply, sync_with, sync_chain,
}

module _ (h : Hasher) where
  -- The chain is not shorter, and as valid as it was.
  pub record Progress (n n' : Node) : Type 0 where
    pub not_shorter : length n.blockchain.chain ≤ length n'.blockchain.chain
    pub still_valid : is_valid h n.blockchain ≡ true → is_valid h n'.blockchain ≡ true
    pub same_difficulty : n'.blockchain.difficulty ≡ n.blockchain.difficulty

  pub same-Progress : (n n' : Node) → n'.blockchain ≡ n.blockchain → Progress n n'
  same-Progress n n' e = record {
    not_shorter = rw e (omega arith);
    still_valid = λ v. rw e v;
    same_difficulty = rw e refl;
  }

  pub Progress-trans : (n m k : Node) → Progress n m → Progress m k → Progress n k
  Progress-trans n m k p q = record {
    not_shorter = (let a = p.not_shorter in let b = q.not_shorter in omega arith);
    still_valid = λ v. q.still_valid (p.still_valid v);
    same_difficulty = q.same_difficulty ∙ p.same_difficulty;
  }

  after_replace-blockchain :
      (n : Node) (r : CloudBlockchain × Result Bool) → (after_replace h n r).0.blockchain ≡ r.0
  unfolding after_replace persist_chain
  after_replace-blockchain n (bc, err e) = refl
  after_replace-blockchain n (bc, ok false) = refl
  after_replace-blockchain n (bc, ok true) = elim (Bool-cases n.chain_path) [
    | inl kept ↦ rw kept refl
    | inr volatile ↦ rw volatile refl
  ]

  pub receive_chain-Progress :
      (ds : List BlockDict) (n : Node) → Progress n (receive_chain h ds n).0
  unfolding receive_chain
  receive_chain-Progress ds n =
      let e : (receive_chain h ds n).0.blockchain ≡ (replace_chain h n.blockchain ds).0 =
        after_replace-blockchain n (replace_chain h n.blockchain ds) in
      elim (replace_chain-Outcome h n.blockchain ds) [
        | inl (kept, _) ↦ same-Progress n (receive_chain h ds n).0 (e ∙ kept)
        | inr (_, a) ↦ record {
          not_shorter = (let l = a.longer in rw e (omega arith));
          still_valid = λ v. rw e a.valid;
          same_difficulty = rw e a.difficulty_kept;
        }
      ]

  receive_chain_best :
      (ds : List BlockDict) (bs : List Block) (n : Node)
      → from_dicts ds ≡ ok bs
      → is_valid_chain h n.blockchain.difficulty bs ≡ true
      → length bs ≤ length (receive_chain h ds n).0.blockchain.chain
  unfolding receive_chain
  receive_chain_best ds bs n found v =
      rw (after_replace-blockchain n (replace_chain h n.blockchain ds))
        (replace_chain_best h n.blockchain ds bs found v)

module _ (h : Hasher) (net : Network) where
  delivered-Progress :
      (p : String) (d : Delivery) (n : Node) → Progress h n (take_reply net h (delivered p d n)).0
  unfolding delivered take_reply take_chain
  delivered-Progress p unreachable n =
      same-Progress h n (take_reply net h (delivered p unreachable n)).0 refl
  delivered-Progress p (answered none) n = same-Progress h n n refl
  delivered-Progress p (answered (some msg)) n = on_chain (carried_chain msg)
    where
      on_chain : (o : Option (List BlockDict)) → Progress h n (take_chain net h o n).0
      on_chain none = same-Progress h n n refl
      on_chain (some ds) = receive_chain-Progress h ds n

  -- One peer of the round.
  abbrev asked : String → Node → Node × Result (Unit {0})
  unfolding take_reply send_to_peer
  asked p n = take_reply net h (send_to_peer net p get_chain n)

  asked-Progress : (p : String) (n : Node) → Progress h n (asked p n).0
  unfolding asked send_to_peer
  asked-Progress p n = delivered-Progress p (net p get_chain) n

  and_then-Progress :
      (n : Node) (k : Node × Result (Unit {0})) (next : Node → Node × Result (Unit {0}))
      → Progress h n k.0
      → ((m : Node) → Progress h m (next m).0)
      → Progress h n (and_then k next).0
  and_then-Progress n (m, err e) next p q = p
  and_then-Progress n (m, ok _) next p q = Progress-trans h n m (next m).0 p (q m)

  sync_with-Progress : (ps : List String) (n : Node) → Progress h n (sync_with net h ps n).0
  unfolding sync_with asked
  sync_with-Progress [] n = same-Progress h n n refl
  sync_with-Progress (p ∷ ps) n =
      and_then-Progress n (asked p n) (λ m. sync_with net h ps m) (asked-Progress p n)
        (λ m. sync_with-Progress ps m)

  -- A round of `sync_chain`, however the peers answer and also where it raises, leaves a chain that
  -- is not shorter than before, and that is valid if it was valid before.
  pub sync_chain-Progress : (n : Node) → Progress h n (sync_chain net h n).0
  unfolding sync_chain
  sync_chain-Progress n = sync_with-Progress n.peers n

  module _ (p : String) (ds : List BlockDict) (height : Option ℕ) (bs : List Block)
      (offer : net p get_chain ≡ answered (some (chain (some ds) height)))
      (found : from_dicts ds ≡ ok bs) where
    asked_best :
        (n : Node)
        → is_valid_chain h n.blockchain.difficulty bs ≡ true
        → length bs ≤ length (asked p n).0.blockchain.chain
    unfolding asked send_to_peer delivered take_reply take_chain
    asked_best n v = rw offer (receive_chain_best h ds bs n found v)

    and_then_best :
        (k : Node × Result (Unit {0})) (ps : List String)
        → (and_then k (λ m. sync_with net h ps m)).1 ≡ ok tt
        → (length bs ≤ length k.0.blockchain.chain)
          ⊎ ((sync_with net h ps k.0).1 ≡ ok tt
              → length bs ≤ length (sync_with net h ps k.0).0.blockchain.chain)
        → length bs ≤ length (and_then k (λ m. sync_with net h ps m)).0.blockchain.chain
    and_then_best (m, err e) ps done c = cc
    and_then_best (m, ok _) ps done (inl long) =
        let l = (sync_with-Progress ps m).not_shorter in omega arith
    and_then_best (m, ok _) ps done (inr later) = later done

    sync_with_best :
        (ps : List String) (n : Node)
        → contains ps p ≡ true
        → is_valid_chain h n.blockchain.difficulty bs ≡ true
        → (sync_with net h ps n).1 ≡ ok tt
        → length bs ≤ length (sync_with net h ps n).0.blockchain.chain
    unfolding sync_with asked
    sync_with_best [] n member v done = cc
    sync_with_best (q ∷ ps) n member v done =
        and_then_best (asked q n) ps done (elim (Bool-cases (str_eq q p)) [
          | inl here ↦ inl (rw ((eq_iff q p).0 here) (asked_best n v))
          | inr there ↦ inr (λ rest.
              sync_with_best ps (asked q n).0 (rw there at member)
                (rw (asked-Progress q n).same_difficulty v) rest)
        ])

    -- The longest valid chain wins: after a round of `sync_chain` that does not raise, the chain is
    -- at least as long as any chain that a known peer offers and that is valid.
    pub sync_chain_best :
        (n : Node)
        → contains n.peers p ≡ true
        → is_valid_chain h n.blockchain.difficulty bs ≡ true
        → (sync_chain net h n).1 ≡ ok tt
        → length bs ≤ length (sync_chain net h n).0.blockchain.chain
    unfolding sync_chain
    sync_chain_best n member v done = sync_with_best n.peers n member v done
