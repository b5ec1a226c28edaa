-- ===== src/Blockchain/Query.antt =====
-- The query engine of blockchain.py. The loops `for block in chain: for tx in block.transactions`
-- run over the transactions of the chain in order; `clock i` is the i-th reading of the clock
-- within one call.
pub mod Access
pub mod Files
pub mod Disagree
use cloudmer_cloud_storage.Prelude.{
  ℕ, zero, suc, ◌+◌, String, Bool, true, false, not, ◌&&◌, ◌||◌, Option, none, some, List, [], ◌∷◌,
  ◌++◌, length, ltb, str_eq, if◌then◌else◌,
}
use cloudmer_cloud_storage.Blockchain.Tx.{
  Tx, holds, contains, or_else, upload, delete, grant_access, revoke_access,
}
use cloudmer_cloud_storage.Blockchain.Block.{Block}
use cloudmer_cloud_storage.Blockchain.Chain.{CloudBlockchain}

-- The transactions of the blocks, oldest first.
unfoldable pub all_txs : List Block → List Tx
all_txs [] = []
all_txs (b ∷ bs) = b.transactions ++ all_txs bs

-- The first transaction of a block that has the hash and the type.
unfoldable pub find_tx : String → String → List Tx → Option Tx
find_tx file_hash type [] = none
find_tx file_hash type (tx ∷ txs) =
    let rest = find_tx file_hash type txs in
    if holds tx.file_hash file_hash && holds tx.type type then some tx else rest

-- `for block in reversed(self.chain)`: a block is asked only if no later one has an answer.
unfoldable pub find_newest : String → String → List Block → Option Tx
unfolding find_tx
find_newest file_hash type [] = none
find_newest file_hash type (b ∷ bs) = elim (find_newest file_hash type bs) [
  | some tx ↦ some tx
  | none ↦ find_tx file_hash type b.transactions
]

abbrev pub get_file_metadata : CloudBlockchain → String → Option Tx
get_file_metadata bc file_hash = find_newest file_hash upload bc.chain

abbrev pub not_expired : Option ℕ → ℕ → Bool
not_expired none now = true
not_expired (some expires) now = ltb now expires

-- The body of the replay for a transaction of the file.
unfoldable pub access_step : String → ℕ → Tx → Bool → Bool
access_step user_key now tx has_access =
    if holds tx.type upload
    then (if contains (or_else tx.access_list []) user_key
        then true
        else if holds tx.owner user_key
        then true
        else has_access)
    else if holds tx.type grant_access
    then (if holds tx.target_user user_key then not_expired tx.expires_at now else has_access)
    else if holds tx.type revoke_access
    then (if holds tx.target_user user_key then false else has_access)
    else has_access

-- The loop that replays the chain; `i` readings of the clock have been made.
unfoldable pub replay : String → String → (ℕ → ℕ) → ℕ → List Tx → Bool → Bool
unfolding access_step
replay user_key file_hash clock i [] has_access = has_access
replay user_key file_hash clock i (tx ∷ txs) has_access = elim (holds tx.file_hash file_hash) [
  | true ↦
      replay user_key file_hash clock (i + 1) txs (access_step user_key (clock i) tx has_access)
  | false ↦ replay user_key file_hash clock i txs has_access
]

unfoldable pub check_access : CloudBlockchain → (ℕ → ℕ) → String → String → Bool
unfolding find_newest replay all_txs
check_access bc clock user_key file_hash = elim (find_newest file_hash delete bc.chain) [
  | some _ ↦ false
  | none ↦ replay user_key file_hash clock 0 (all_txs bc.chain) false
]

-- `owned[fh] = tx` on a dict in insertion order.
unfoldable pub put : String → Tx → List (String × Tx) → List (String × Tx)
put k v [] = (k, v) ∷ []
put k v ((j, w) ∷ d) = if str_eq j k then (k, v) ∷ d else (j, w) ∷ put k v d

pub record Owned : Type 0 where
  pub owned : List (String × Tx)
  pub deleted : List String

-- The body of the loop in `get_user_files`; an empty hash is skipped, as a missing one is.
unfoldable pub files_step : String → Tx → Owned → Owned
unfolding put
files_step user_key tx o = elim tx.file_hash [
  | none ↦ o
  | some fh ↦
      if str_eq fh ""
      then o
      else if holds tx.type upload && holds tx.owner user_key
      then record o { owned = put fh tx o.owned }
      else if holds tx.type delete && holds tx.owner user_key
      then record o { deleted = fh ∷ o.deleted }
      else o
]

unfoldable pub scan_files : String → List Tx → Owned → Owned
unfolding files_step
scan_files user_key [] o = o
scan_files user_key (tx ∷ txs) o = scan_files user_key txs (files_step user_key tx o)

unfoldable pub not_deleted : List String → List (String × Tx) → List Tx
not_deleted deleted [] = []
not_deleted deleted ((fh, meta) ∷ d) =
    let rest = not_deleted deleted d in if contains deleted fh then rest else meta ∷ rest

unfoldable pub get_user_files : CloudBlockchain → String → List Tx
unfolding scan_files not_deleted all_txs
get_user_files bc user_key =
    let o = scan_files user_key (all_txs bc.chain) (record { owned = []; deleted = [] }) in
    not_deleted o.deleted o.owned

-- An event of a file, with `_block_index` and `_block_time`.
pub record HistoryEntry : Type 0 where
  pub tx : Tx
  pub block_index : ℕ
  pub block_time : ℕ

unfoldable pub block_history : String → Block → List Tx → List HistoryEntry
block_history file_hash b [] = []
block_history file_hash b (tx ∷ txs) =
    let rest = block_history file_hash b txs in
    if holds tx.file_hash file_hash
    then record { tx = tx; block_index = b.index; block_time = b.timestamp } ∷ rest
    else rest

unfoldable pub history_of : String → List Block → List HistoryEntry
unfolding block_history
history_of file_hash [] = []
history_of file_hash (b ∷ bs) = block_history file_hash b b.transactions ++ history_of file_hash bs

abbrev pub get_file_history : CloudBlockchain → String → List HistoryEntry
get_file_history bc file_hash = history_of file_hash bc.chain

-- `access.add`; the order of a set is not modelled.
unfoldable pub add : String → List String → List String
add x xs = if contains xs x then xs else x ∷ xs

unfoldable pub discard : String → List String → List String
discard x [] = []
discard x (y ∷ ys) = let rest = discard x ys in if str_eq y x then rest else y ∷ rest

unfoldable pub add_all : List String → List String → List String
unfolding add
add_all [] xs = xs
add_all (y ∷ ys) xs = add_all ys (add y xs)

-- The body of the second loop in `get_access_list`.
unfoldable pub list_step : String → Tx → List String → List String
unfolding add discard
list_step file_hash tx access =
    if not (holds tx.file_hash file_hash)
    then access
    else if holds tx.type grant_access
    then add (or_else tx.target_user "") access
    else if holds tx.type revoke_access
    then discard (or_else tx.target_user "") access
    else access

unfoldable pub scan_access : String → List Tx → List String → List String
unfolding list_step
scan_access file_hash [] access = access
scan_access file_hash (tx ∷ txs) access = scan_access file_hash txs (list_step file_hash tx access)

unfoldable pub get_access_list : CloudBlockchain → String → List String
unfolding find_newest scan_access add_all all_txs
get_access_list bc file_hash = elim (get_file_metadata bc file_hash) [
  | none ↦ []
  | some meta ↦
      scan_access file_hash (all_txs bc.chain)
        (add (or_else meta.owner "") (add_all (or_else meta.access_list []) []))
]

pub record Stats : Type 0 where
  pub chain_height : ℕ
  pub total_transactions : ℕ
  pub pending_transactions : ℕ
  pub total_files_registered : ℕ
  pub total_data_indexed_bytes : ℕ
  pub pow_difficulty : ℕ

unfoldable pub count_uploads : List Tx → ℕ × ℕ
count_uploads [] = (0, 0)
count_uploads (tx ∷ txs) =
    let (files, size) = count_uploads txs in
    if holds tx.type upload then (files + 1, size + or_else tx.file_size 0) else (files, size)

unfoldable pub get_stats : CloudBlockchain → Stats
unfolding count_uploads all_txs
get_stats bc = record {
  chain_height = length bc.chain;
  total_transactions = length (all_txs bc.chain);
  pending_transactions = length bc.pending_transactions;
  total_files_registered = (count_uploads (all_txs bc.chain)).0;
  total_data_indexed_bytes = (count_uploads (all_txs bc.chain)).1;
  pow_difficulty = bc.difficulty;
}
