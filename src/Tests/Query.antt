-- ===== src/Tests/Query.antt =====
-- The properties of the queries of blockchain.py on small chains.
use cloudmer_cloud_storage.Prelude.{
  ℕ, ◌+◌, ◌≡◌, refl, arith, true, false, none, some, [], ◌∷◌, ◌++◌, apart-str_eq, if◌then◌else◌,
}
use cloudmer_cloud_storage.Blockchain.Tx.{
  Tx, contains, or_else, delete, make_upload_tx, make_grant_tx, make_delete_tx,
}
use cloudmer_cloud_storage.Blockchain.Block.{Block}
use cloudmer_cloud_storage.Blockchain.Chain.{CloudBlockchain}
use cloudmer_cloud_storage.Blockchain.Query.{
  all_txs, find_newest, get_file_metadata, check_access, get_user_files, get_access_list,
}
use cloudmer_cloud_storage.Blockchain.Query.Access.{
  any_tx, last_word, check_access-last_word, check_access_deleted,
}
use cloudmer_cloud_storage.Blockchain.Query.Disagree.{
  one_block, expired_grant_listed, foreign_delete,
}
use cloudmer_cloud_storage.Tests.Chain.{genesis, an_upload, queued, next_block, grown}

abbrev clock : ℕ → ℕ
clock i = 100 + i

check_access_example : check_access grown clock "alice" "f1" ≡ (
    if any_tx "f1" delete (all_txs grown.chain)
    then false
    else or_else (last_word "alice" "f1" clock 0 (all_txs grown.chain)) false)
check_access_example = check_access-last_word grown clock "alice" "f1"

abbrev gone : Tx
gone = make_delete_tx 9 "mallory" "f1" none

abbrev deleting : Block
deleting = record genesis { index = 2; transactions = gone ∷ [] }

abbrev deleted : CloudBlockchain
deleted = record queued { chain = genesis ∷ deleting ∷ [] }

deleted_any : any_tx "f1" delete (all_txs deleted.chain) ≡ true
unfolding all_txs
deleted_any = refl

check_access_deleted_example :
    check_access (record deleted { chain = deleted.chain ++ next_block ∷ [] }) clock "alice" "f1"
    ≡ false
check_access_deleted_example =
    check_access_deleted deleted (next_block ∷ []) clock "alice" "f1" deleted_any

abbrev second_upload : Tx
second_upload = make_upload_tx 6 "alice" "f1" "b.txt" 3 1 [] none none

abbrev twice : Block
twice = record genesis { index = 1; transactions = an_upload ∷ second_upload ∷ [] }

abbrev granting : Block
granting = record genesis {
  index = 2;
  transactions = make_grant_tx 9 "alice" "f1" "bob" "k" (some 50) none ∷ [];
}

grown_metadata : get_file_metadata grown "f1" ≡ some an_upload
unfolding find_newest grown next_block
grown_metadata = refl

expired_grant_example :
    (check_access (one_block grown granting) clock "bob" "f1" ≡ false)
    × (contains (get_access_list (one_block grown granting) "f1") "bob" ≡ true)
expired_grant_example =
    expired_grant_listed grown granting "f1" "bob" "alice" "k" 9 50 none an_upload clock refl
      grown_metadata (λ j. omega arith)

foreign_delete_example :
    (check_access (one_block grown deleting) clock "alice" "f1" ≡ false)
    × (get_user_files (one_block grown deleting) "alice" ≡ get_user_files grown "alice")
foreign_delete_example =
    foreign_delete grown deleting "f1" "mallory" "alice" "alice" 9 none clock refl
      (apart-str_eq "mallory" "alice" refl)
