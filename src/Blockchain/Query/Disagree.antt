-- ===== src/Blockchain/Query/Disagree.antt =====
-- Chains on which the queries of blockchain.py answer differently about one user and one file.
use text.Mathlib.TextPositions.{eq_refl}
use cloudmer_cloud_storage.Prelude.{
  ℕ, ◌+◌, ◌≤◌, ◌≡◌, ◌≢◌, refl, ap, ◌∙◌, Bool, true, false, arith, Bool-cases, inl, inr, String,
  str_eq, str_eq-apart, Option, none, some, List, [], ◌∷◌, ◌++◌, append-nil, ltb,
}
use cloudmer_cloud_storage.Blockchain.Tx.{
  Tx, holds, contains, or_else, upload, delete, make_delete_tx, make_grant_tx,
}
use cloudmer_cloud_storage.Blockchain.Block.{Block}
use cloudmer_cloud_storage.Blockchain.Chain.{CloudBlockchain}
use cloudmer_cloud_storage.Blockchain.Query.{
  all_txs, find_tx, get_file_metadata, check_access, add, add_all, list_step, scan_access,
  get_access_list, Owned, not_deleted, files_step, scan_files, get_user_files,
}
use cloudmer_cloud_storage.Blockchain.Query.Access.{
  any_tx, any_tx-append, all_txs-append, last_word, decides, check_access-last_word,
}
use cloudmer_cloud_storage.Blockchain.Query.Files.{find_newest-append}

last_word-last :
    (user fh : String) (clock : ℕ → ℕ) (v : Bool) (xs : List Tx) (tx : Tx)
    → holds tx.file_hash fh ≡ true
    → ((j : ℕ) → decides user (clock j) tx ≡ some v)
    → (i : ℕ) → last_word user fh clock i (xs ++ tx ∷ []) ≡ some v
last_word-last user fh clock v [] tx ours d i = rw (ours, last_word) (d i)
last_word-last user fh clock v (x ∷ xs) tx ours d i = elim (Bool-cases (holds x.file_hash fh)) [
  | inl same ↦ rw (same, last_word) (rw (last_word-last user fh clock v xs tx ours d (i + 1)))
  | inr other ↦ rw (other, last_word) (last_word-last user fh clock v xs tx ours d i)
]

pub contains-add : (x : String) (xs : List String) → contains (add x xs) x ≡ true
unfolding add
contains-add x xs = elim (Bool-cases (contains xs x)) [
  | inl old ↦ rw old old
  | inr new ↦ rw new (rw (eq_refl x))
]

scan_access-append :
    (fh : String) (xs ys : List Tx) (access : List String)
    → scan_access fh (xs ++ ys) access ≡ scan_access fh ys (scan_access fh xs access)
unfolding scan_access
scan_access-append fh [] ys access = refl
scan_access-append fh (x ∷ xs) ys access = scan_access-append fh xs ys (list_step fh x access)

abbrev pub one_block : CloudBlockchain → Block → CloudBlockchain
one_block bc b = record bc { chain = bc.chain ++ b ∷ [] }

all_txs-snoc :
    (bs : List Block) (b : Block) (tx : Tx)
    → b.transactions ≡ tx ∷ []
    → all_txs (bs ++ b ∷ []) ≡ all_txs bs ++ tx ∷ []
unfolding all_txs
all_txs-snoc bs b tx e =
    all_txs-append bs (b ∷ []) ∙ ap (λ t. all_txs bs ++ t) (append-nil b.transactions ∙ e)

module _ (bc : CloudBlockchain) (b : Block) (fh target owner key : String) (now expires : ℕ)
    (sig : Option String) where
  abbrev pub grant : Tx
  grant = make_grant_tx now owner fh target key (some expires) sig

  grant-decides :
      (clock : ℕ → ℕ) (j : ℕ) → expires ≤ clock j → decides target (clock j) grant ≡ some false
  grant-decides clock j l =
      let late : ltb (clock j) expires ≡ false = ground arith in rw (eq_refl target) (rw late)

  list_step-grant : (access : List String) → list_step fh grant access ≡ add target access
  unfolding list_step
  list_step-grant access = rw (eq_refl fh)

  find_tx-grant : find_tx fh upload (grant ∷ []) ≡ none
  unfolding find_tx
  find_tx-grant = rw (eq_refl fh)

  get_access_list-grant :
      (meta : Tx)
      → b.transactions ≡ grant ∷ []
      → get_file_metadata bc fh ≡ some meta
      → (rest : List String) × (get_access_list (one_block bc b) fh ≡ add target rest)
  unfolding get_access_list
  get_access_list-grant meta e known =
      let start : List String =
        add (or_else meta.owner "") (add_all (or_else meta.access_list []) []) in
      let found : get_file_metadata (one_block bc b) fh ≡ some meta =
        find_newest-append fh upload bc.chain b ∙ rw e (rw find_tx-grant known) in
      (
        scan_access fh (all_txs bc.chain) start,
        rw (found, get_access_list)
            (ap (λ t. scan_access fh t start) (all_txs-snoc bc.chain b grant e)
              ∙ scan_access-append fh (all_txs bc.chain) (grant ∷ []) start
              ∙ scan_access_one (scan_access fh (all_txs bc.chain) start)),
      )
    where
      scan_access_one :
          (access : List String) → scan_access fh (grant ∷ []) access ≡ add target access
      scan_access_one access = list_step-grant access

  -- A grant that has expired at every reading of the clock, in a new block on a chain that has the
  -- file: `check_access` refuses the user, and `get_access_list` still lists the user.
  pub expired_grant_listed :
      (meta : Tx) (clock : ℕ → ℕ)
      → b.transactions ≡ grant ∷ []
      → get_file_metadata bc fh ≡ some meta
      → ((j : ℕ) → expires ≤ clock j)
      → (check_access (one_block bc b) clock target fh ≡ false)
        × (contains (get_access_list (one_block bc b) fh) target ≡ true)
  expired_grant_listed meta clock e known late =
      let (rest, listed) = get_access_list-grant meta e known in
      let word : last_word target fh clock 0 (all_txs (one_block bc b).chain) ≡ some false =
        ap (last_word target fh clock 0) (all_txs-snoc bc.chain b grant e)
        ∙ last_word-last target fh clock false (all_txs bc.chain) grant (eq_refl fh)
            (λ j. grant-decides clock j (late j)) 0 in
      (
        check_access-last_word (one_block bc b) clock target fh ∙ rw word (ground arith),
        ap (λ t. contains t target) listed ∙ contains-add target rest,
      )

scan_files-append :
    (user : String) (xs ys : List Tx) (o : Owned)
    → scan_files user (xs ++ ys) o ≡ scan_files user ys (scan_files user xs o)
unfolding scan_files
scan_files-append user [] ys o = refl
scan_files-append user (x ∷ xs) ys o = scan_files-append user xs ys (files_step user x o)

files_step-apart :
    (user issuer fh : String) (now : ℕ) (sig : Option String) (o : Owned)
    → issuer ≢ user
    → files_step user (make_delete_tx now issuer fh sig) o ≡ o
unfolding files_step
files_step-apart user issuer fh now sig o apart =
    let no : str_eq issuer user ≡ false = str_eq-apart issuer user apart in
    elim (Bool-cases (str_eq fh "")) [ inl empty ↦ rw empty | inr named ↦ rw (named, no) ]

scan_files_one :
    (user : String) (tx : Tx) (o : Owned) → scan_files user (tx ∷ []) o ≡ files_step user tx o
unfolding scan_files
scan_files_one user tx o = refl

-- A DELETE that somebody else issues, in a new block: every user loses access to the file, and
-- the list of the files of any user but the issuer is as before.
pub foreign_delete :
    (bc : CloudBlockchain) (b : Block) (fh issuer owner user : String) (now : ℕ)
    (sig : Option String) (clock : ℕ → ℕ)
    → b.transactions ≡ make_delete_tx now issuer fh sig ∷ []
    → issuer ≢ owner
    → (check_access (one_block bc b) clock user fh ≡ false)
      × (get_user_files (one_block bc b) owner ≡ get_user_files bc owner)
unfolding get_user_files
foreign_delete bc b fh issuer owner user now sig clock e apart =
    let gone : Tx = make_delete_tx now issuer fh sig in
    let none_yet : Owned = record { owned = []; deleted = [] } in
    let txs : all_txs (one_block bc b).chain ≡ all_txs bc.chain ++ gone ∷ [] =
      all_txs-snoc bc.chain b gone e in
    let last : any_tx fh delete (gone ∷ []) ≡ true = rw (eq_refl fh) in
    let deleted : any_tx fh delete (all_txs (one_block bc b).chain) ≡ true =
      ap (any_tx fh delete) txs
      ∙ any_tx-append fh delete (all_txs bc.chain) (gone ∷ [])
      ∙ ground (arith, last) in
    let same : scan_files owner (all_txs (one_block bc b).chain) none_yet
        ≡ scan_files owner (all_txs bc.chain) none_yet =
      ap (λ t. scan_files owner t none_yet) txs
      ∙ scan_files-append owner (all_txs bc.chain) (gone ∷ []) none_yet
      ∙ scan_files_one owner gone (scan_files owner (all_txs bc.chain) none_yet)
      ∙ files_step-apart owner issuer fh now sig (scan_files owner (all_txs bc.chain) none_yet)
          apart in
    (
      check_access-last_word (one_block bc b) clock user fh ∙ rw deleted,
      ap (λ o. not_deleted o.deleted o.owned) same,
    )
