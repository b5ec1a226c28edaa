-- ===== src/P2p/Dispatch.antt =====
-- The handlers of `P2PNode` of p2p.py: `_dispatch`, `_receive_block` and the round of the mining
-- loop. The chain lock makes the changes of each one step.
pub mod Purge
pub mod Receive
pub mod Seen
use cloudmer_cloud_storage.Prelude.{
  ℕ, String, Bool, true, false, not, ◌&&◌, ◌||◌, Option, none, some, List, [], ◌∷◌, ◌++◌, length,
  leb, str_eq, ◌==◌, Error, Result, ok, err, value_error, if◌then◌else◌, lookup,
}
use cloudmer_cloud_storage.Blockchain.Hasher.{Hasher}
use cloudmer_cloud_storage.Blockchain.Tx.{Tx, contains, or_else}
use cloudmer_cloud_storage.Blockchain.Block.{Block, BlockDict, to_dict, from_dict}
use cloudmer_cloud_storage.Blockchain.Pow.{is_valid_proof}
use cloudmer_cloud_storage.Blockchain.Chain.{
  CloudBlockchain, last_block, last_of, add_transaction, replace_chain, save, MineResult, running,
  raised, mined, mine_pending_transactions,
}
use cloudmer_cloud_storage.Blockchain.Query.{add}
use cloudmer_cloud_storage.P2p.Message.{
  Message, hello, hello_ack, get_chain, chain, new_block, new_tx, get_chunk, chunk, chunk_not_found,
  get_peers, peers, Base64,
}
use cloudmer_cloud_storage.P2p.Node.{
  Node, Event, Task, gossip_block, sync_chain, persist_chain, fire, start_task,
}

-- `{tx.get("file_hash") for tx in transactions if tx.get("file_hash")}`
unfoldable pub confirmed_hashes : List Tx → List String
confirmed_hashes [] = []
confirmed_hashes (tx ∷ txs) =
    let rest = confirmed_hashes txs in
    let file_hash = or_else tx.file_hash "" in
    if str_eq file_hash "" then rest else file_hash ∷ rest

abbrev pub is_confirmed : List String → Option String → Bool
is_confirmed hashes none = false
is_confirmed hashes (some file_hash) = contains hashes file_hash

unfoldable pub unconfirmed : List String → List Tx → List Tx
unconfirmed hashes [] = []
unconfirmed hashes (tx ∷ txs) =
    let rest = unconfirmed hashes txs in
    if is_confirmed hashes tx.file_hash then rest else tx ∷ rest

-- Step 5 of `_receive_block`.
unfoldable pub accept_block : BlockDict → String → Block → Node → Node
unfolding confirmed_hashes unconfirmed persist_chain
accept_block block_dict sender candidate n =
    let bc = n.blockchain in
    let bc' : CloudBlockchain = record bc {
      chain = bc.chain ++ candidate ∷ [];
      pending_transactions =
          unconfirmed (confirmed_hashes candidate.transactions) bc.pending_transactions;
    } in
    start_task (gossip_block block_dict sender)
      (persist_chain (fire (Event.block_accepted candidate) (record n { blockchain = bc' })))

module _ (h : Hasher) where
  -- Steps 3 to 6, under the lock; an index in an empty chain raises.
  unfoldable pub judge_block :
      BlockDict → String → Block → Result Block → Node → Node × Result (Unit {0})
  unfolding accept_block is_valid_proof
  judge_block block_dict sender candidate (err e) n = (n, err e)
  judge_block block_dict sender candidate (ok last) n =
      if not (is_valid_proof h n.blockchain.difficulty candidate)
      then (n, ok tt)
      else if leb candidate.index last.index
      then (n, ok tt)
      else if not (str_eq candidate.previous_hash last.hash)
      then (start_task sync_chain n, ok tt)
      else (accept_block block_dict sender candidate n, ok tt)

  abbrev pub rebuilt_block : BlockDict → String → Result Block → Node → Node × Result (Unit {0})
  unfolding judge_block last_of
  rebuilt_block block_dict sender (err e) n = (n, ok tt)
  rebuilt_block block_dict sender (ok candidate) n =
      judge_block block_dict sender candidate (last_block n.blockchain) n

  unfoldable pub receive_block : BlockDict → String → Node → Node × Result (Unit {0})
  unfolding judge_block from_dict add
  receive_block block_dict sender n =
      let block_hash = or_else block_dict.hash "" in
      if contains n.seen_block_hashes block_hash
      then (n, ok tt)
      else rebuilt_block block_dict sender (from_dict block_dict)
          (record n { seen_block_hashes = add block_hash n.seen_block_hashes })

  -- What the handler of CHAIN and `sync_chain` do with the result of `replace_chain`.
  unfoldable pub after_replace : Node → CloudBlockchain × Result Bool → Node × Result (Unit {0})
  unfolding persist_chain
  after_replace n (bc, err e) = (record n { blockchain = bc }, err e)
  after_replace n (bc, ok false) = (record n { blockchain = bc }, ok tt)
  after_replace n (bc, ok true) =
      (fire Event.chain_replaced (persist_chain (record n { blockchain = bc })), ok tt)

  unfoldable pub receive_chain : List BlockDict → Node → Node × Result (Unit {0})
  unfolding replace_chain after_replace
  receive_chain incoming n = after_replace n (replace_chain h n.blockchain incoming)

-- `p.get(key) == tx.get(key)`
abbrev pub same_text : Option String → Option String → Bool
same_text none none = true
same_text (some a) (some b) = str_eq a b
same_text _ _ = false

abbrev pub same_time : Option ℕ → Option ℕ → Bool
same_time none none = true
same_time (some a) (some b) = a == b
same_time _ _ = false

unfoldable pub already : Tx → List Tx → Bool
already tx [] = false
already tx (p ∷ ps) =
    (same_text p.file_hash tx.file_hash && same_time p.timestamp tx.timestamp) || already tx ps

abbrev pub after_add : Tx → Node → CloudBlockchain × Result ℕ → Node × Result (Unit {0})
after_add tx n (bc, err e) = (record n { blockchain = bc }, err e)
after_add tx n (bc, ok _) = (fire (Event.new_tx tx) (record n { blockchain = bc }), ok tt)

unfoldable pub receive_tx : Tx → Node → Node × Result (Unit {0})
unfolding already add_transaction
receive_tx tx n =
    if already tx n.blockchain.pending_transactions
    then (n, ok tt)
    else after_add tx n (add_transaction n.blockchain tx)

-- The reply of the handlers that end in `return None`.
abbrev pub no_reply : Node × Result (Unit {0}) → Node × Result (Option Message)
no_reply (n, err e) = (n, err e)
no_reply (n, ok _) = (n, ok none)

abbrev pub chunk_reply : Base64 → Option String → Option (List ℕ) → Message
chunk_reply c (some chunk_hash) (some bytes) = chunk chunk_hash (c.b64encode bytes)
chunk_reply c chunk_hash _ = chunk_not_found chunk_hash

abbrev pub stored : Node → Option String → Option (List ℕ)
stored n none = none
stored n (some chunk_hash) = lookup chunk_hash n.chunk_store

unfoldable pub dispatch : Hasher → Base64 → Message → String → Node → Node × Result (Option Message)
unfolding receive_block receive_chain receive_tx add save
dispatch h c (hello addr _) sender n =
    let n' = record n { peers = add (or_else addr sender) n.peers } in
    (n', ok (some (hello_ack n.node_id n'.peers (length n.blockchain.chain))))
dispatch h c get_chain sender n =
    (n, ok (some (chain (some (save n.blockchain)) (some (length n.blockchain.chain)))))
dispatch h c (chain blocks _) sender n = no_reply (receive_chain h (or_else blocks []) n)
dispatch h c (new_block none) sender n = (n, ok none)
dispatch h c (new_block (some block_dict)) sender n = no_reply (receive_block h block_dict sender n)
dispatch h c (new_tx none) sender n = (n, ok none)
dispatch h c (new_tx (some tx)) sender n = no_reply (receive_tx tx n)
dispatch h c (get_chunk chunk_hash) sender n =
    (n, ok (some (chunk_reply c chunk_hash (stored n chunk_hash))))
dispatch h c get_peers sender n = (n, ok (some (peers n.peers)))
dispatch h c _ sender n = (n, ok none)
