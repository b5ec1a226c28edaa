-- ===== src/Blockchain/Query/Files.antt =====
-- `get_file_metadata`, `get_file_history` and `get_stats` of blockchain.py.
use cloudmer_cloud_storage.Prelude.{
  ℕ, ◌+◌, ◌≡◌, refl, ap, ◌∙◌, sym, true, arith, String, none, some, List, [], ◌∷◌, ◌++◌, map,
  append-nil, if◌then◌else◌, length, length-append,
}
use cloudmer_cloud_storage.Blockchain.Hasher.{Hasher}
use cloudmer_cloud_storage.Blockchain.Tx.{Tx, holds, upload}
use cloudmer_cloud_storage.Blockchain.Block.{Block}
use cloudmer_cloud_storage.Blockchain.Chain.{
  CloudBlockchain, mined, reward_tx, mine_pending_transactions,
}
use cloudmer_cloud_storage.Blockchain.Chain.Mining.{mine_pending_transactions-IsMined}
use cloudmer_cloud_storage.Blockchain.Query.{
  all_txs, find_tx, find_newest, get_file_metadata, HistoryEntry, block_history, history_of,
  get_file_history, get_stats, count_uploads,
}
use cloudmer_cloud_storage.Blockchain.Query.Access.{
  all_txs-append, any_tx, is_some, find_newest-any_tx,
}

-- What the answer of a query for metadata must be.
pub record IsAnswer (file_hash type : String) (tx : Tx) : Type 0 where
  pub same_hash : holds tx.file_hash file_hash ≡ true
  pub same_type : holds tx.type type ≡ true

find_tx-IsAnswer :
    (fh type : String) (txs : List Tx) (tx : Tx)
    → find_tx fh type txs ≡ some tx
    → IsAnswer fh type tx
unfolding find_tx
find_tx-IsAnswer fh type [] tx e = cc
find_tx-IsAnswer fh type (x ∷ txs) tx e = ground (arith, find_tx-IsAnswer fh type txs tx)

find_newest-IsAnswer :
    (fh type : String) (bs : List Block) (tx : Tx)
    → find_newest fh type bs ≡ some tx
    → IsAnswer fh type tx
unfolding find_newest
find_newest-IsAnswer fh type [] tx e = cc
find_newest-IsAnswer fh type (b ∷ bs) tx e =
    ground (arith, find_newest-IsAnswer fh type bs tx, find_tx-IsAnswer fh type b.transactions tx)

-- Metadata is found exactly when an upload of the file is in the chain, and what is found is an
-- upload of that file.
pub get_file_metadata_found :
    (bc : CloudBlockchain) (fh : String)
    → (is_some (get_file_metadata bc fh) ≡ any_tx fh upload (all_txs bc.chain))
      × ((tx : Tx) → get_file_metadata bc fh ≡ some tx → IsAnswer fh upload tx)
get_file_metadata_found bc fh =
    (find_newest-any_tx fh upload bc.chain, λ tx e. find_newest-IsAnswer fh upload bc.chain tx e)

pub find_newest-append :
    (fh type : String) (bs : List Block) (b : Block)
    → find_newest fh type (bs ++ b ∷ [])
      ≡ elim (find_tx fh type b.transactions) [ some tx ↦ some tx | none ↦ find_newest fh type bs ]
unfolding find_newest
find_newest-append fh type [] b = ground arith
find_newest-append fh type (c ∷ bs) b = ground (arith, find_newest-append fh type bs b)

-- The newest block that uploads the file answers, but within that block the oldest upload does: of
-- two uploads of one file that are mined into the same block, the earlier one is returned.
pub get_file_metadata_first :
    (bc : CloudBlockchain) (b : Block) (fh : String) (tx : Tx) (later : List Tx)
    → b.transactions ≡ tx ∷ later
    → IsAnswer fh upload tx
    → get_file_metadata (record bc { chain = bc.chain ++ b ∷ [] }) fh ≡ some tx
unfolding find_tx
get_file_metadata_first bc b fh tx later e a =
    find_newest-append fh upload bc.chain b ∙ rw e (rw (a.same_hash, a.same_type))

-- The transactions of one file, in order.
abbrev pub events_of : String → List Tx → List Tx
events_of fh [] = []
events_of fh (tx ∷ txs) =
    let rest = events_of fh txs in if holds tx.file_hash fh then tx ∷ rest else rest

abbrev pub entry_tx : HistoryEntry → Tx
entry_tx e = e.tx

events_of-append :
    (fh : String) (xs ys : List Tx) → events_of fh (xs ++ ys) ≡ events_of fh xs ++ events_of fh ys
events_of-append fh [] ys = refl
events_of-append fh (x ∷ xs) ys = ground (arith, events_of-append fh xs ys)

block_history-events_of :
    (fh : String) (b : Block) (txs : List Tx) (more : List HistoryEntry)
    → map entry_tx (block_history fh b txs ++ more) ≡ events_of fh txs ++ map entry_tx more
unfolding block_history
block_history-events_of fh b [] more = refl
block_history-events_of fh b (tx ∷ txs) more = ground (arith, block_history-events_of fh b txs more)

history_of-events_of :
    (fh : String) (bs : List Block) → map entry_tx (history_of fh bs) ≡ events_of fh (all_txs bs)
unfolding history_of all_txs
history_of-events_of fh [] = refl
history_of-events_of fh (b ∷ bs) =
    block_history-events_of fh b b.transactions (history_of fh bs)
    ∙ ap (λ t. events_of fh b.transactions ++ t) (history_of-events_of fh bs)
    ∙ sym (events_of-append fh b.transactions (all_txs bs))

-- The history of a file is complete and in order: its entries are exactly the transactions of the
-- chain that have the file's hash.
pub get_file_history-events_of :
    (bc : CloudBlockchain) (fh : String)
    → map entry_tx (get_file_history bc fh) ≡ events_of fh (all_txs bc.chain)
get_file_history-events_of bc fh = history_of-events_of fh bc.chain

count_uploads-append :
    (xs ys : List Tx)
    → ((count_uploads (xs ++ ys)).0 ≡ (count_uploads xs).0 + (count_uploads ys).0)
      × ((count_uploads (xs ++ ys)).1 ≡ (count_uploads xs).1 + (count_uploads ys).1)
unfolding count_uploads
count_uploads-append [] ys = omega arith
count_uploads-append (x ∷ xs) ys = ground (arith, count_uploads-append xs ys)

all_txs_one : (b : Block) → all_txs (b ∷ []) ≡ b.transactions
unfolding all_txs
all_txs_one b = append-nil b.transactions

-- The reward in a block is no upload.
count_uploads_reward :
    (now : ℕ) (miner_id : String)
    → ((count_uploads (reward_tx now miner_id ∷ [])).0 ≡ 0)
      × ((count_uploads (reward_tx now miner_id ∷ [])).1 ≡ 0)
unfolding count_uploads
count_uploads_reward now miner_id = (refl, refl)

-- After mining, the statistics count one more block, the queued transactions and the reward, and
-- the files and bytes of the queued uploads.
pub get_stats-mined :
    (h : Hasher) (fuel now now' : ℕ) (miner_id : String) (bc bc' : CloudBlockchain) (b : Block)
    → mine_pending_transactions h fuel now now' miner_id bc ≡ mined bc' b
    → ((get_stats bc').chain_height ≡ (get_stats bc).chain_height + 1)
      × ((get_stats bc').total_transactions
          ≡ (get_stats bc).total_transactions + length bc.pending_transactions + 1)
      × ((get_stats bc').pending_transactions ≡ 0)
      × ((get_stats bc').total_files_registered
          ≡ (get_stats bc).total_files_registered + (count_uploads bc.pending_transactions).0)
      × ((get_stats bc').total_data_indexed_bytes
          ≡ (get_stats bc).total_data_indexed_bytes + (count_uploads bc.pending_transactions).1)
unfolding get_stats
get_stats-mined h fuel now now' miner_id bc bc' b e =
    let m = mine_pending_transactions-IsMined h fuel now now' miner_id bc bc' b e in
    let queued : List Tx = bc.pending_transactions in
    let reward : List Tx = reward_tx now miner_id ∷ [] in
    let txs : all_txs bc'.chain ≡ all_txs bc.chain ++ (queued ++ reward) =
      ap all_txs m.chain_grown
      ∙ all_txs-append bc.chain (b ∷ [])
      ∙ ap (λ t. all_txs bc.chain ++ t) (all_txs_one b ∙ m.txs_sealed) in
    let outer = count_uploads-append (all_txs bc.chain) (queued ++ reward) in
    let inner = count_uploads-append queued reward in
    let none_more = count_uploads_reward now miner_id in
    (
      ap length m.chain_grown ∙ length-append bc.chain (b ∷ []),
      ap length txs
          ∙ omega (
            arith,
            length-append (all_txs bc.chain) (queued ++ reward),
            length-append queued reward,
          ),
      ap length m.queue_empty,
      ap (λ t. (count_uploads t).0) txs ∙ omega arith,
      ap (λ t. (count_uploads t).1) txs ∙ omega arith,
    )
