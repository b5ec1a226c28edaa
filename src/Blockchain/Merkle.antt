-- ===== src/Blockchain/Merkle.antt =====
-- `_compute_merkle_root` of blockchain.py.
use mathlib.Core.List.{map-append}
use cloudmer_cloud_storage.Prelude.{
  ℕ, zero, suc, ◌+◌, ◌/◌, ◌%◌, ◌≤◌, ◌<◌, ◌≡◌, refl, ap, ◌∙◌, sym, arith, Bool-cases, inl, inr,
  String, List, [], ◌∷◌, ◌++◌, map, length, length-append, lt→ltb, ltb, ◌<>◌,
}
use cloudmer_cloud_storage.Blockchain.Hasher.{Hasher}
use cloudmer_cloud_storage.Blockchain.Tx.{Tx}
use cloudmer_cloud_storage.Blockchain.Block.{
  pair_hashes, merkle_loop, first, hash_tx, compute_merkle_root,
}

module _ (h : Hasher) where
  length-pair_hashes : (xs : List String) → length (pair_hashes h xs) ≡ (length xs + 1) / 2
  unfolding pair_hashes
  length-pair_hashes [] = refl
  length-pair_hashes (x ∷ []) = refl
  length-pair_hashes (x ∷ y ∷ rest) = omega (arith, length-pair_hashes rest)

  -- The loop ends with one hash: as many rounds as there are hashes are enough.
  pub merkle_loop-one :
      (fuel : ℕ) (xs : List String)
      → 0 < length xs
      → length xs ≤ fuel
      → length (merkle_loop h fuel xs) ≡ 1
  unfolding merkle_loop
  merkle_loop-one zero xs p q = absurd (omega arith)
  merkle_loop-one (suc fuel) xs p q = elim (Bool-cases (ltb 1 (length xs))) [
    | inl more ↦
        rw (more, merkle_loop)
          (merkle_loop-one fuel (pair_hashes h xs) (ground (arith, length-pair_hashes xs))
            (ground (arith, length-pair_hashes xs)))
    | inr one ↦ rw (one, merkle_loop) (ground arith)
  ]

  -- More rounds change nothing once one hash is left.
  pub merkle_loop-fuel :
      (fuel more : ℕ) (xs : List String)
      → length xs ≤ fuel
      → length xs ≤ more
      → merkle_loop h fuel xs ≡ merkle_loop h more xs
  unfolding merkle_loop
  merkle_loop-fuel zero zero xs p q = refl
  merkle_loop-fuel zero (suc more) [] p q = refl
  merkle_loop-fuel zero (suc more) (x ∷ xs) p q = absurd (omega arith)
  merkle_loop-fuel (suc fuel) zero [] p q = refl
  merkle_loop-fuel (suc fuel) zero (x ∷ xs) p q = absurd (omega arith)
  merkle_loop-fuel (suc fuel) (suc more) xs p q = elim (Bool-cases (ltb 1 (length xs))) [
    | inl again ↦
        rw (again, merkle_loop)
          (merkle_loop-fuel fuel more (pair_hashes h xs) (ground (arith, length-pair_hashes xs))
            (ground (arith, length-pair_hashes xs)))
    | inr one ↦ rw (one, merkle_loop)
  ]

  pair_hashes-twice :
      (xs : List String) (x : String)
      → length xs % 2 ≡ 0
      → pair_hashes h (xs ++ x ∷ x ∷ []) ≡ pair_hashes h (xs ++ x ∷ [])
  unfolding pair_hashes
  pair_hashes-twice [] x e = refl
  pair_hashes-twice (y ∷ []) x e = absurd (omega arith)
  pair_hashes-twice (y ∷ z ∷ rest) x e =
      ap (λ t. h.sha256_hex (y <> z) ∷ t) (pair_hashes-twice rest x (omega arith))

  root_of : List String → String
  unfolding first
  root_of xs = first h (merkle_loop h (length xs) xs)

  root_of-step :
      (xs : List String)
      → 1 < length xs
      → (merkle_loop h (length xs) xs) ≡ merkle_loop h (length xs) (pair_hashes h xs)
  unfolding merkle_loop
  root_of-step [] p = elim p [ ]
  root_of-step (x ∷ []) p = absurd (omega arith)
  root_of-step (x ∷ y ∷ rest) p =
      rw (lt→ltb 1 (length (x ∷ y ∷ rest)) p, merkle_loop)
        (merkle_loop-fuel (suc (length rest)) (suc (suc (length rest)))
          (pair_hashes h (x ∷ y ∷ rest)) (omega (arith, length-pair_hashes (x ∷ y ∷ rest)))
          (omega (arith, length-pair_hashes (x ∷ y ∷ rest))))

  -- The last hash of an even number of earlier ones, once and twice.
  root_of-twice :
      (xs : List String) (x : String)
      → length xs % 2 ≡ 0
      → 0 < length xs
      → root_of (xs ++ x ∷ x ∷ []) ≡ root_of (xs ++ x ∷ [])
  unfolding root_of first
  root_of-twice xs x e p =
      let two = length-append xs (x ∷ x ∷ []) in
      let one = length-append xs (x ∷ []) in
      let same = pair_hashes-twice xs x e in
      ap (first h) (
        root_of-step (xs ++ x ∷ x ∷ []) (omega arith)
        ∙ merkle_loop-fuel (length (xs ++ x ∷ x ∷ [])) (length (xs ++ x ∷ []))
            (pair_hashes h (xs ++ x ∷ x ∷ []))
            (omega (arith, length-pair_hashes (xs ++ x ∷ x ∷ [])))
            (omega (arith, length-pair_hashes (xs ++ x ∷ x ∷ [])))
        ∙ ap (merkle_loop h (length (xs ++ x ∷ []))) same
        ∙ sym (root_of-step (xs ++ x ∷ []) (omega arith)))

  compute_merkle_root-root_of :
      (tx : Tx) (txs : List Tx)
      → compute_merkle_root h (tx ∷ txs) ≡ root_of (map (hash_tx h) (tx ∷ txs))
  unfolding compute_merkle_root root_of
  compute_merkle_root-root_of tx txs = refl

  length-hashes : (txs : List Tx) → length (map (hash_tx h) txs) ≡ length txs
  length-hashes [] = refl
  length-hashes (tx ∷ txs) = ap suc (length-hashes txs)

  -- The Merkle root does not tell whether the last of an odd number of transactions, at least
  -- three, stands once or twice at the end of a block.
  pub compute_merkle_root_twice :
      (first_tx : Tx) (txs : List Tx) (last_tx : Tx)
      → length (first_tx ∷ txs) % 2 ≡ 0
      → compute_merkle_root h ((first_tx ∷ txs) ++ last_tx ∷ last_tx ∷ [])
        ≡ compute_merkle_root h ((first_tx ∷ txs) ++ last_tx ∷ [])
  compute_merkle_root_twice t txs l e =
      let hs : List String = map (hash_tx h) (t ∷ txs) in
      compute_merkle_root-root_of t (txs ++ l ∷ l ∷ [])
      ∙ ap root_of (map-append (hash_tx h) (t ∷ txs) (l ∷ l ∷ []))
      ∙ root_of-twice hs (hash_tx h l) (omega (arith, length-hashes (t ∷ txs)))
          (omega (arith, length-hashes (t ∷ txs)))
      ∙ ap root_of (sym (map-append (hash_tx h) (t ∷ txs) (l ∷ [])))
      ∙ sym (compute_merkle_root-root_of t (txs ++ l ∷ []))
