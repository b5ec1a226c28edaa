-- ===== src/Blockchain/Query/Access.antt =====
-- `check_access` and `get_access_list` of blockchain.py.
use cloudmer_cloud_storage.Prelude.{
  ℕ, ◌+◌, ◌≡◌, refl, ap, ◌∙◌, sym, Bool, true, false, ◌&&◌, ◌||◌, arith, Bool-cases, inl, inr,
  String, Option, none, some, List, [], ◌∷◌, ◌++◌, append_assoc, if◌then◌else◌,
}
use cloudmer_cloud_storage.Blockchain.Tx.{
  Tx, holds, contains, or_else, upload, delete, grant_access, revoke_access,
}
use cloudmer_cloud_storage.Blockchain.Block.{Block}
use cloudmer_cloud_storage.Blockchain.Chain.{CloudBlockchain}
use cloudmer_cloud_storage.Blockchain.Query.{
  all_txs, find_tx, find_newest, not_expired, access_step, replay, check_access,
}

-- Whether some transaction has the hash and the type.
abbrev pub any_tx : String → String → List Tx → Bool
any_tx file_hash type [] = false
any_tx file_hash type (tx ∷ txs) =
    (holds tx.file_hash file_hash && holds tx.type type) || any_tx file_hash type txs

pub any_tx-append :
    (fh type : String) (xs ys : List Tx)
    → any_tx fh type (xs ++ ys) ≡ (any_tx fh type xs || any_tx fh type ys)
any_tx-append fh type [] ys = refl
any_tx-append fh type (x ∷ xs) ys = ground (arith, any_tx-append fh type xs ys)

abbrev pub is_some {ℓ} : {A : Type ℓ} → Option A → Bool
is_some none = false
is_some (some _) = true

find_tx-any_tx :
    (fh type : String) (txs : List Tx) → is_some (find_tx fh type txs) ≡ any_tx fh type txs
unfolding find_tx
find_tx-any_tx fh type [] = refl
find_tx-any_tx fh type (tx ∷ txs) = ground (arith, find_tx-any_tx fh type txs)

pub find_newest-any_tx :
    (fh type : String) (bs : List Block)
    → is_some (find_newest fh type bs) ≡ any_tx fh type (all_txs bs)
unfolding find_newest all_txs
find_newest-any_tx fh type [] = refl
find_newest-any_tx fh type (b ∷ bs) = ground (
  arith,
  any_tx-append fh type b.transactions (all_txs bs),
  find_newest-any_tx fh type bs,
  find_tx-any_tx fh type b.transactions,
)

pub all_txs-append : (xs ys : List Block) → all_txs (xs ++ ys) ≡ all_txs xs ++ all_txs ys
unfolding all_txs
all_txs-append [] ys = refl
all_txs-append (b ∷ xs) ys =
    ap (λ t. b.transactions ++ t) (all_txs-append xs ys)
    ∙ sym (append_assoc b.transactions (all_txs xs) (all_txs ys))

-- What one transaction of the file says about the user, if it says anything.
abbrev pub decides : String → ℕ → Tx → Option Bool
decides user now tx =
    if holds tx.type upload
    then (if contains (or_else tx.access_list []) user || holds tx.owner user
        then some true
        else none)
    else if holds tx.type grant_access
    then (if holds tx.target_user user then some (not_expired tx.expires_at now) else none)
    else if holds tx.type revoke_access && holds tx.target_user user
    then some false
    else none

-- The last word about the user among the transactions of the file.
abbrev pub last_word : String → String → (ℕ → ℕ) → ℕ → List Tx → Option Bool
last_word user fh clock i [] = none
last_word user fh clock i (tx ∷ txs) = elim (holds tx.file_hash fh) [
  | true ↦ elim (last_word user fh clock (i + 1) txs) [
    | some v ↦ some v
    | none ↦ decides user (clock i) tx
  ]
  | false ↦ last_word user fh clock i txs
]

access_step-decides :
    (user : String) (now : ℕ) (tx : Tx) (has : Bool)
    → access_step user now tx has ≡ or_else (decides user now tx) has
unfolding access_step
access_step-decides user now tx has = ground arith

replay-last_word :
    (user fh : String) (clock : ℕ → ℕ) (i : ℕ) (txs : List Tx) (has : Bool)
    → replay user fh clock i txs has ≡ or_else (last_word user fh clock i txs) has
unfolding replay
replay-last_word user fh clock i [] has = refl
replay-last_word user fh clock i (tx ∷ txs) has = elim (Bool-cases (holds tx.file_hash fh)) [
  | inl ours ↦
      rw (ours, replay)
        (rw (ours, last_word)
          (replay-last_word user fh clock (i + 1) txs (access_step user (clock i) tx has)
            ∙ ap (or_else (last_word user fh clock (i + 1) txs))
                (access_step-decides user (clock i) tx has)
            ∙ or_else-or_else (last_word user fh clock (i + 1) txs) (decides user (clock i) tx)
                has))
  | inr other ↦
      rw (other, replay) (rw (other, last_word) (replay-last_word user fh clock i txs has))
]
  where
    or_else-or_else :
        (x y : Option Bool) (v : Bool)
        → or_else x (or_else y v) ≡ or_else (elim x [ some w ↦ some w | none ↦ y ]) v
    or_else-or_else none y v = refl
    or_else-or_else (some w) y v = refl

-- A user has access exactly when no transaction deletes the file and the last word about the user,
-- in the order of the chain, is a permission: an upload that names the user, or a grant that has
-- not expired when it is replayed, with no later revocation.
pub check_access-last_word :
    (bc : CloudBlockchain) (clock : ℕ → ℕ) (user fh : String)
    → check_access bc clock user fh ≡ (
        if any_tx fh delete (all_txs bc.chain)
        then false
        else or_else (last_word user fh clock 0 (all_txs bc.chain)) false)
unfolding check_access
check_access-last_word bc clock user fh = ground (
  arith,
  find_newest-any_tx fh delete bc.chain,
  replay-last_word user fh clock 0 (all_txs bc.chain) false,
)

-- A deletion is final, whoever issued it: once a DELETE of the file is in the chain, no user has
-- access, whatever blocks are added later, a new upload of the file included.
pub check_access_deleted :
    (bc : CloudBlockchain) (later : List Block) (clock : ℕ → ℕ) (user fh : String)
    → any_tx fh delete (all_txs bc.chain) ≡ true
    → check_access (record bc { chain = bc.chain ++ later }) clock user fh ≡ false
check_access_deleted bc later clock user fh gone =
    let still : any_tx fh delete (all_txs (bc.chain ++ later)) ≡ true =
      ap (any_tx fh delete) (all_txs-append bc.chain later)
      ∙ any_tx-append fh delete (all_txs bc.chain) (all_txs later)
      ∙ ap (λ b. b || any_tx fh delete (all_txs later)) gone in
    check_access-last_word (record bc { chain = bc.chain ++ later }) clock user fh ∙ rw still
