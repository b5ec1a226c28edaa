-- ===== src/P2p/Steps/Safety.antt =====
-- No sequence of steps of a node of p2p.py shortens its chain or spoils its validity.
use cloudmer_cloud_storage.Prelude.{
  ℕ, ◌≡◌, refl, ap, ◌∙◌, String, Bool-cases, inl, inr, arith, Option, none, some, [], ◌∷◌, length,
  leb, str_eq, Result, ok, err, length-append,
}
use cloudmer_cloud_storage.Blockchain.Hasher.{Hasher}
use cloudmer_cloud_storage.Blockchain.Tx.{Tx, or_else}
use cloudmer_cloud_storage.Blockchain.Block.{Block, BlockDict, to_dict}
use cloudmer_cloud_storage.Blockchain.Chain.{
  CloudBlockchain, add_transaction, MineResult, running, raised, mined, mine_pending_transactions,
}
use cloudmer_cloud_storage.Blockchain.Chain.Mining.{mine_pending_transactions-IsMined, IsMined}
use cloudmer_cloud_storage.Blockchain.Query.{add}
use cloudmer_cloud_storage.P2p.Message.{
  Message, hello, hello_ack, get_chain, chain, new_block, new_tx, get_chunk, chunk, chunk_not_found,
  get_peers, peers, other, Base64,
}
use cloudmer_cloud_storage.P2p.Node.{Node, Event, Task, persist_chain, fire}
use cloudmer_cloud_storage.P2p.Dispatch.{
  receive_block, receive_chain, receive_tx, after_add, no_reply, already, dispatch,
}
use cloudmer_cloud_storage.P2p.Dispatch.Receive.{receive_block-Outcome, receive_block-is_valid}
use cloudmer_cloud_storage.P2p.Send.{
  Network, send_to_peer, broadcast, gossip_block, after_submit, submit_transaction, request_from,
  request_chunk, greet, connect_to_peer, sync_chain, run_task, after_mining, mining_round, caught,
  reply_peers, add_peers,
}
use cloudmer_cloud_storage.P2p.Send.Sync.{
  Progress, same-Progress, Progress-trans, receive_chain-Progress, sync_chain-Progress,
}
use cloudmer_cloud_storage.P2p.Steps.{
  Step, on_message, on_task, on_submit, on_connect, on_request, on_mining, Reaches, here, go_on,
}
use cloudmer_cloud_storage.P2p.Steps.Unchanged.{
  send_to_peer-blockchain, broadcast-blockchain, gossip_block-blockchain, request_from-blockchain,
}

module _ (h : Hasher) where
  receive_block-Progress :
      (d : BlockDict) (sender : String) (n : Node) → Progress h n (receive_block h d sender n).0
  receive_block-Progress d sender n = record {
    not_shorter = elim (receive_block-Outcome h d sender n) [
      | inl u ↦ rw u.same_chain (omega arith)
      | inr a ↦ rw a.chain (omega (arith, length-append n.blockchain.chain (a.block ∷ [])))
    ];
    still_valid = receive_block-is_valid h d sender n;
    same_difficulty = elim (receive_block-Outcome h d sender n) [
      | inl u ↦ ap (λ (t : CloudBlockchain). t.difficulty) u.same_chain
      | inr a ↦ a.same_difficulty
    ];
  }

  -- The queue of transactions is all that the calls change.
  queued-Progress :
      (n n' : Node)
      → n'.blockchain.chain ≡ n.blockchain.chain
      → n'.blockchain.difficulty ≡ n.blockchain.difficulty
      → Progress h n n'
  queued-Progress n n' same level = record {
    not_shorter = rw same (omega arith);
    still_valid = λ v. rw (same, level) v;
    same_difficulty = level;
  }

  receive_tx-Progress : (tx : Tx) (n : Node) → Progress h n (receive_tx tx n).0
  unfolding receive_tx add_transaction
  receive_tx-Progress tx n = elim (Bool-cases (already tx n.blockchain.pending_transactions)) [
    | inl old ↦ rw old (same-Progress h n n refl)
    | inr new ↦ rw new (added (add_transaction n.blockchain tx) refl refl)
  ]
    where
      added :
          (r : CloudBlockchain × Result ℕ)
          → (r.0).chain ≡ n.blockchain.chain
          → (r.0).difficulty ≡ n.blockchain.difficulty
          → Progress h n (after_add tx n r).0
      added (bc, err e) same level = queued-Progress n (record n { blockchain = bc }) same level
      added (bc, ok _) same level =
          queued-Progress n (fire (Event.new_tx tx) (record n { blockchain = bc })) same level

  no_reply-node : (r : Node × Result (Unit {0})) → (no_reply r).0 ≡ r.0
  no_reply-node (n, err e) = refl
  no_reply-node (n, ok _) = refl

  dispatch-Progress :
      (c : Base64) (msg : Message) (sender : String) (n : Node)
      → Progress h n (dispatch h c msg sender n).0
  unfolding dispatch
  dispatch-Progress c (hello addr id) sender n =
      same-Progress h n (dispatch h c (hello addr id) sender n).0 refl
  dispatch-Progress c (hello_ack id known height) sender n = same-Progress h n n refl
  dispatch-Progress c get_chain sender n = same-Progress h n n refl
  dispatch-Progress c (chain blocks height) sender n =
      rw (no_reply-node (receive_chain h (or_else blocks []) n))
        (receive_chain-Progress h (or_else blocks []) n)
  dispatch-Progress c (new_block none) sender n = same-Progress h n n refl
  dispatch-Progress c (new_block (some d)) sender n =
      rw (no_reply-node (receive_block h d sender n)) (receive_block-Progress d sender n)
  dispatch-Progress c (new_tx none) sender n = same-Progress h n n refl
  dispatch-Progress c (new_tx (some tx)) sender n =
      rw (no_reply-node (receive_tx tx n)) (receive_tx-Progress tx n)
  dispatch-Progress c (get_chunk chunk_hash) sender n = same-Progress h n n refl
  dispatch-Progress c (chunk chunk_hash text) sender n = same-Progress h n n refl
  dispatch-Progress c (chunk_not_found chunk_hash) sender n = same-Progress h n n refl
  dispatch-Progress c get_peers sender n = same-Progress h n n refl
  dispatch-Progress c (peers known) sender n = same-Progress h n n refl
  dispatch-Progress c (other cmd) sender n = same-Progress h n n refl

module _ (h : Hasher) (net : Network) where
  submit_transaction-Progress : (tx : Tx) (n : Node) → Progress h n (submit_transaction net tx n).0
  unfolding submit_transaction add_transaction
  submit_transaction-Progress tx n = submitted (add_transaction n.blockchain tx) refl refl
    where
      submitted :
          (r : CloudBlockchain × Result ℕ)
          → (r.0).chain ≡ n.blockchain.chain
          → (r.0).difficulty ≡ n.blockchain.difficulty
          → Progress h n (after_submit net tx n r).0
      submitted (bc, err e) same level =
          queued-Progress h n (record n { blockchain = bc }) same level
      submitted (bc, ok _) same level =
          let e : (broadcast net (new_tx (some tx)) (record n { blockchain = bc })).blockchain
              ≡ bc =
            broadcast-blockchain net (new_tx (some tx)) (record n { blockchain = bc }) in
          queued-Progress h n (broadcast net (new_tx (some tx)) (record n { blockchain = bc }))
            (ap (λ (t : CloudBlockchain). t.chain) e ∙ same)
            (ap (λ (t : CloudBlockchain). t.difficulty) e ∙ level)

  greet-Progress :
      (peer : String) (r : Node × Option Message) → Progress h r.0 (greet net h peer r).0
  unfolding greet
  greet-Progress peer (n, none) = same-Progress h n n refl
  greet-Progress peer (n, some response) =
      let m : Node = record n {
        peers = add_peers n.node_id (reply_peers response) (add peer n.peers);
      } in
      Progress-trans h n m (sync_chain net h m).0 (same-Progress h n m refl)
        (sync_chain-Progress h net m)

  connect_to_peer-Progress :
      (peer : String) (n : Node) → Progress h n (connect_to_peer net h peer n).0
  unfolding connect_to_peer
  connect_to_peer-Progress peer n = elim (Bool-cases (str_eq peer n.node_id)) [
    | inl own ↦ rw own (same-Progress h n n refl)
    | inr foreign ↦ rw foreign (
        let r : Node × Option Message =
          send_to_peer net peer (hello (some n.node_id) n.node_id) n in
        Progress-trans h n r.0 (greet net h peer r).0
          (same-Progress h n r.0
            (send_to_peer-blockchain net peer (hello (some n.node_id) n.node_id) n))
          (greet-Progress peer r))
  ]

  run_task-Progress : (t : Task) (n : Node) → Progress h n (run_task net h t n).0
  unfolding run_task
  run_task-Progress (Task.gossip_block d origin) n =
      same-Progress h n (gossip_block net d origin n) (gossip_block-blockchain net d origin n)
  run_task-Progress Task.sync_chain n = sync_chain-Progress h net n

  request_chunk-Progress :
      (c : Base64) (chunk_hash : String) (n : Node)
      → Progress h n (request_chunk net c chunk_hash n).0
  unfolding request_chunk
  request_chunk-Progress c chunk_hash n =
      same-Progress h n (request_from net c n.peers chunk_hash n).0
        (request_from-blockchain net c n.peers chunk_hash n)

  IsMined-Progress :
      (fuel now now' : ℕ) (n n' : Node) (bc : CloudBlockchain) (b : Block)
      → n'.blockchain ≡ bc
      → IsMined h fuel now now' n.node_id n.blockchain bc b
      → Progress h n n'
  IsMined-Progress fuel now now' n n' bc b e m = record {
    not_shorter = rw (e, m.chain_grown) (omega (arith, length-append n.blockchain.chain (b ∷ [])));
    still_valid = λ v. rw e (m.still_valid v);
    same_difficulty = rw e m.difficulty_kept;
  }

  after_mining-Progress :
      (fuel now now' : ℕ) (n : Node) (m : MineResult) (r : Node × Result (Unit {0}))
      → mine_pending_transactions h fuel now now' n.node_id n.blockchain ≡ m
      → after_mining net h n m ≡ some r
      → Progress h n r.0
  unfolding after_mining persist_chain
  after_mining-Progress fuel now now' n running r mining done = cc
  after_mining-Progress fuel now now' n (raised e) r mining done =
      let same : (n, caught e) ≡ r = cc in rw (← same) (same-Progress h n n refl)
  after_mining-Progress fuel now now' n (mined bc b) r mining done =
      let kept : Node = persist_chain (record n { blockchain = bc }) in
      let seen : Node = record kept { seen_block_hashes = add b.hash kept.seen_block_hashes } in
      let end : Node =
        broadcast net (new_block (some (to_dict b))) (fire (Event.block_mined b) seen) in
      let done' : some (end, ok tt) ≡ some r = done in
      let same : (end, ok tt) ≡ r = cc in
      rw (← same) (
        IsMined-Progress fuel now now' n end bc b
          (broadcast-blockchain net (new_block (some (to_dict b))) (fire (Event.block_mined b) seen)
            ∙ persist_chain-blockchain (record n { blockchain = bc }))
          (mine_pending_transactions-IsMined h fuel now now' n.node_id n.blockchain bc b mining))
    where
      persist_chain-blockchain : (m : Node) → (persist_chain m).blockchain ≡ m.blockchain
      persist_chain-blockchain m = elim (Bool-cases m.chain_path) [
        | inl kept ↦ rw kept refl
        | inr volatile ↦ rw volatile refl
      ]

  mining_round-Progress :
      (fuel now now' : ℕ) (n : Node) (r : Node × Result (Unit {0}))
      → mining_round net h fuel now now' n ≡ some r
      → Progress h n r.0
  unfolding mining_round
  mining_round-Progress fuel now now' n r done =
      elim (Bool-cases (leb 1 (length n.blockchain.pending_transactions))) [
        | inl some_pending ↦
            after_mining-Progress fuel now now' n
              (mine_pending_transactions h fuel now now' n.node_id n.blockchain) r refl
              (rw some_pending at done)
        | inr idle ↦
            let done' : some (n, ok tt) ≡ some r = rw idle at done in
            let same : (n, ok tt) ≡ r = cc in rw (← same) (same-Progress h n n refl)
      ]

module _ (h : Hasher) (c : Base64) where
  Step-Progress : (n m : Node) → Step h c n m → Progress h n m
  Step-Progress _ _ (on_message msg sender n) = dispatch-Progress h c msg sender n
  Step-Progress _ _ (on_task net t n) = run_task-Progress h net t n
  Step-Progress _ _ (on_submit net tx n) = submit_transaction-Progress h net tx n
  Step-Progress _ _ (on_connect net peer n) = connect_to_peer-Progress h net peer n
  Step-Progress _ _ (on_request net chunk_hash n) = request_chunk-Progress h net c chunk_hash n
  Step-Progress _ _ (on_mining net fuel now now' n r e) =
      mining_round-Progress h net fuel now now' n r e

  -- Whatever messages, threads, mining rounds and calls a node goes through, in any order and with
  -- any answers of the network, its chain is not shorter than before and as valid as before,
  -- under the same difficulty.
  pub Reaches-Progress : (n k : Node) → Reaches h c n k → Progress h n k
  Reaches-Progress _ _ (here n) = same-Progress h n n refl
  Reaches-Progress _ _ (go_on n m k s rest) =
      Progress-trans h n m k (Step-Progress n m s) (Reaches-Progress m k rest)
