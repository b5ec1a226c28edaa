-- ===== src/Blockchain/Chain/Commits.antt =====
-- The hash of the last block commits to the chain, up to a collision of SHA-256.
use mathlib.Core.List.{Mem, mem-cons_self, mem-cons_of_mem}
use cloudmer_cloud_storage.Prelude.{
  ℕ, ◌≡◌, ◌≢◌, refl, ap, ◌∙◌, sym, true, arith, List, [], ◌∷◌, length, String, ◌⊎◌, inl, inr,
  str_eq, eq_iff, apart-str_eq, Bool-cases,
}
use cloudmer_cloud_storage.Blockchain.Hasher.{Hasher}
use cloudmer_cloud_storage.Blockchain.Block.{Block, compute_hash}
use cloudmer_cloud_storage.Blockchain.Chain.{is_valid_chain}
use cloudmer_cloud_storage.Blockchain.Chain.Laws.{AllNext, is_valid_chain_iff}

-- All fields but the hash.
abbrev pub contents : Block → Block
contents b = record b { hash = "" }

-- The hash field of the last block, or of `p` if there is none.
abbrev pub tip_hash : Block → List Block → String
tip_hash p [] = p.hash
tip_hash p (c ∷ bs) = tip_hash c bs

module _ (h : Hasher) where
  -- The six fields of a block as json.dumps writes them.
  abbrev pub block_text : Block → String
  block_text b =
      h.dumps_block b.index b.timestamp b.transactions b.previous_hash b.nonce b.merkle_root

  -- Two blocks in the same place of the two chains have different texts with one SHA-256.
  abbrev pub Collides : List Block → List Block → Type 0
  Collides [] cs = ⊥
  Collides (b ∷ bs) [] = ⊥
  Collides (b ∷ bs) (c ∷ cs) =
      ((block_text b ≢ block_text c) × (h.sha256_hex (block_text b) ≡ h.sha256_hex (block_text c)))
      ⊎ Collides bs cs

  same_block : (b c : Block) → contents b ≡ contents c → b.hash ≡ c.hash → b ≡ c
  same_block b c e k = λ i. record (e i) { hash = k i }

  AllNext-commits :
      (d : ℕ) (p q : Block) (bs cs : List Block)
      → AllNext h d p bs
      → AllNext h d q cs
      → length bs ≡ length cs
      → tip_hash p bs ≡ tip_hash q cs
      → ((b c : Block)
          → Mem b bs
          → Mem c cs
          → block_text b ≡ block_text c
          → contents b ≡ contents c)
      → ((bs ≡ cs) × (p.hash ≡ q.hash)) ⊎ Collides bs cs
  unfolding compute_hash
  AllNext-commits d p q [] [] a a' l t legible = inl (refl, t)
  AllNext-commits d p q [] (c ∷ cs) a a' l t legible = absurd (omega arith)
  AllNext-commits d p q (b ∷ bs) [] a a' l t legible = absurd (omega arith)
  AllNext-commits d p q (b ∷ bs) (c ∷ cs) (a, more) (a', more') l t legible =
      elim (AllNext-commits d b c bs cs more more' (omega arith) t
        (λ x y m n. legible x y (mem-cons_of_mem b m) (mem-cons_of_mem c n))) [
          | inr collision ↦ inr (inr collision)
          | inl (rest, hashes) ↦
              let shas : h.sha256_hex (block_text b) ≡ h.sha256_hex (block_text c) =
                sym a.own_hash ∙ hashes ∙ a'.own_hash in
              elim (Bool-cases (str_eq (block_text b) (block_text c))) [
                | inr other ↦ inr (inl (apart-str_eq (block_text b) (block_text c) other, shas))
                | inl same ↦
                    let texts = (eq_iff (block_text b) (block_text c)).0 same in
                    let blocks : b ≡ c =
                      same_block b c (legible b c mem-cons_self mem-cons_self texts) hashes in
                    inl (
                      cc (blocks, rest),
                      sym a.linked ∙ ap (λ (x : Block). x.previous_hash) blocks ∙ a'.linked,
                    )
              ]
        ]

  -- Two valid chains of one length whose last blocks have the same hash are equal block by block
  -- after the genesis block, and their genesis blocks have the same hash, or two blocks in the same
  -- place have different texts with one SHA-256, where json writes no two different blocks of the
  -- chains as the same text.
  pub is_valid_chain-commits :
      (d : ℕ) (g g' : Block) (bs cs : List Block)
      → is_valid_chain h d (g ∷ bs) ≡ true
      → is_valid_chain h d (g' ∷ cs) ≡ true
      → length bs ≡ length cs
      → tip_hash g bs ≡ tip_hash g' cs
      → ((b c : Block)
          → Mem b bs
          → Mem c cs
          → block_text b ≡ block_text c
          → contents b ≡ contents c)
      → ((bs ≡ cs) × (g.hash ≡ g'.hash)) ⊎ Collides bs cs
  is_valid_chain-commits d g g' bs cs v v' l t legible =
      AllNext-commits d g g' bs cs ((is_valid_chain_iff h d g bs).0 v)
        ((is_valid_chain_iff h d g' cs).0 v') l t legible
