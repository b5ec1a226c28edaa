-- ===== src/Tests/Chain.antt =====
-- The properties of blockchain.py on a chain with one upload, under a hash that marks each text.
use mathlib.Core.Logic.Or
use mathlib.Core.HLevel.{⊥_prop}
use mathlib.Core.List.{Mem, mem-cons, not-mem-nil}
use cloudmer_cloud_storage.Prelude.{
  ℕ, ◌≡◌, ◌↔◌, ◌<◌, ◌≤◌, ◌≢◌, ◌⊎◌, refl, sym, ap, ◌∙◌, apart-str_eq, String, arith, true, false,
  ◌<>◌, none, some, List, [], ◌∷◌, ◌++◌,
}
use cloudmer_cloud_storage.Blockchain.Hasher.{Hasher}
use cloudmer_cloud_storage.Blockchain.Tx.{Tx, or_else, make_upload_tx}
use cloudmer_cloud_storage.Blockchain.Block.{Block, new_block, compute_merkle_root}
use cloudmer_cloud_storage.Blockchain.Pow.{mine, sealed, is_found, is_valid_proof}
use cloudmer_cloud_storage.Blockchain.Nonce.{at_nonce, mine-least}
use cloudmer_cloud_storage.Blockchain.Merkle.{compute_merkle_root_twice}
use cloudmer_cloud_storage.Blockchain.Chain.{
  CloudBlockchain, mined, reward_tx, mine_pending_transactions, is_valid_chain, is_valid,
  replace_chain, save, last_of,
}
use cloudmer_cloud_storage.Blockchain.Chain.Laws.{AllNext, is_valid_chain_iff}
use cloudmer_cloud_storage.Blockchain.Chain.Mining.{
  IsMined, mine_pending_transactions-IsMined, mine_pending_transactions-total,
}
use cloudmer_cloud_storage.Blockchain.Chain.Consensus.{Outcome, replace_chain-Outcome}
use cloudmer_cloud_storage.Blockchain.Chain.Commits.{
  contents, block_text, Collides, is_valid_chain-commits,
}

abbrev pub marked : Hasher
marked = record {
  sha256_hex = λ s. "0" <> s;
  dumps_tx = λ tx. or_else tx.file_hash "";
  dumps_block = λ i t txs p n m. p <> m;
}

abbrev pub genesis : Block
genesis = record {
  index = 0;
  timestamp = 1;
  transactions = [];
  previous_hash = "";
  nonce = 0;
  merkle_root = "";
  hash = "g";
}

abbrev pub an_upload : Tx
an_upload = make_upload_tx 5 "alice" "f1" "a.txt" 3 1 [] none none

abbrev pub queued : CloudBlockchain
queued = record { chain = genesis ∷ []; pending_transactions = an_upload ∷ []; difficulty = 1 }

abbrev pub block_txs : List Tx
block_txs = an_upload ∷ reward_tx 7 "server" ∷ []

unfoldable pub next_block : Block
unfolding new_block
next_block = new_block marked 8 1 block_txs "g" 0

unfoldable pub grown : CloudBlockchain
unfolding next_block
grown = record { chain = genesis ∷ next_block ∷ []; pending_transactions = []; difficulty = 1 }

pub grown_mined : mine_pending_transactions marked 2 7 8 "server" queued ≡ mined grown next_block
unfolding mine_pending_transactions new_block grown
grown_mined = refl

grown_valid : is_valid marked grown ≡ true
unfolding is_valid_chain new_block grown
grown_valid = refl

mine_IsMined_example : IsMined marked 2 7 8 "server" queued grown next_block
mine_IsMined_example =
    mine_pending_transactions-IsMined marked 2 7 8 "server" queued grown next_block grown_mined

candidate_found : is_found marked 1 (at_nonce next_block 0) ≡ true
unfolding is_found next_block
candidate_found = refl

mine_total_example :
    (bc' : CloudBlockchain) × (b : Block) × (mine_pending_transactions marked 2 7 8 "server" queued
      ≡ mined bc' b)
unfolding next_block last_of
mine_total_example =
    mine_pending_transactions-total marked 2 7 8 "server" queued genesis 0 (λ e. cc) refl
      candidate_found (omega arith)

is_valid_chain_example :
    (is_valid_chain marked 1 (genesis ∷ next_block ∷ []) ≡ true)
    ↔ AllNext marked 1 genesis (next_block ∷ [])
is_valid_chain_example = is_valid_chain_iff marked 1 genesis (next_block ∷ [])

abbrev forged : Block
forged = record genesis { transactions = an_upload ∷ [] }

replace_chain_example :
    Outcome marked queued (save grown) (replace_chain marked queued (save grown))
replace_chain_example = replace_chain-Outcome marked queued (save grown)

mine_least_example :
    (m : ℕ) × (mine marked 1 2 next_block ≡ some (sealed marked (at_nonce next_block m)))
    × (m ≤ 0)
    × ((j : ℕ) → j < m → is_found marked 1 (at_nonce next_block j) ≡ false)
    × (is_valid_proof marked 1 (sealed marked (at_nonce next_block m)) ≡ true)
mine_least_example = mine-least marked 1 next_block 0 2 candidate_found (omega arith)

abbrev reward : Tx
reward = reward_tx 7 "server"

merkle_twice_example :
    compute_merkle_root marked ((an_upload ∷ an_upload ∷ []) ++ reward ∷ reward ∷ [])
    ≡ compute_merkle_root marked ((an_upload ∷ an_upload ∷ []) ++ reward ∷ [])
merkle_twice_example = compute_merkle_root_twice marked an_upload (an_upload ∷ []) reward refl

-- A hash of one text only: two chains with different uploads.
abbrev first_file : List Tx → String
first_file [] = ""
first_file (tx ∷ txs) = or_else tx.file_hash ""

abbrev constant : Hasher
constant = record marked {
  sha256_hex = λ s. "00";
  dumps_block = λ i t txs p n m. p <> first_file txs;
}

unfoldable honest : Block
unfolding new_block
honest = new_block constant 8 1 (an_upload ∷ []) "g" 0

unfoldable tampered : Block
unfolding new_block
tampered =
    new_block constant 8 1 (make_upload_tx 5 "alice" "f2" "a.txt" 3 1 [] none none ∷ []) "g" 0

texts_apart : block_text constant honest ≢ block_text constant tampered
unfolding honest tampered new_block
texts_apart = apart-str_eq (block_text constant honest) (block_text constant tampered) refl

legible :
    (b c : Block)
    → Mem b (honest ∷ [])
    → Mem c (tampered ∷ [])
    → block_text constant b ≡ block_text constant c
    → contents b ≡ contents c
legible b c m n e =
    let text = block_text constant in
    absurd (
      Or.elim ⊥_prop (mem-cons.0 m)
        (λ p.
          Or.elim ⊥_prop (mem-cons.0 n) (λ q. texts_apart (sym (ap text p) ∙ e ∙ ap text q))
            (λ z. not-mem-nil z))
        (λ z. not-mem-nil z))

honest_valid : is_valid_chain constant 1 (genesis ∷ honest ∷ []) ≡ true
unfolding is_valid_chain new_block honest
honest_valid = refl

tampered_valid : is_valid_chain constant 1 (forged ∷ tampered ∷ []) ≡ true
unfolding is_valid_chain new_block tampered
tampered_valid = refl

commits_example :
    ((honest ∷ [] ≡ tampered ∷ []) × (genesis.hash ≡ forged.hash))
    ⊎ Collides constant (honest ∷ []) (tampered ∷ [])
unfolding honest tampered new_block
commits_example =
    is_valid_chain-commits constant 1 genesis forged (honest ∷ []) (tampered ∷ []) honest_valid
      tampered_valid refl refl legible
