-- ===== src/Blockchain/Nonce.antt =====
-- The loop of `mine` in blockchain.py, and what it leaves behind.
use mathlib.Core.Option.{some-injective}
use text.Mathlib.TextPositions.{eq_refl}
use cloudmer_cloud_storage.Prelude.{
  ℕ, zero, suc, ◌+◌, ◌≤◌, ◌<◌, ◌≡◌, refl, ap, ◌∙◌, sym, true, false, some, arith, Bool-cases, inl,
  inr, Option-cases, ◌==◌, ==_iff,
}
use cloudmer_cloud_storage.Blockchain.Hasher.{Hasher}
use cloudmer_cloud_storage.Blockchain.Block.{Block, compute_hash}
use cloudmer_cloud_storage.Blockchain.Pow.{is_found, search_nonce, sealed, mine, is_valid_proof}

abbrev pub at_nonce : Block → ℕ → Block
at_nonce b n = record b { nonce = n }

module _ (h : Hasher) (d : ℕ) where
  search_nonce-found :
      (fuel : ℕ) (b : Block) → is_found h d b ≡ true → search_nonce h d (suc fuel) b ≡ some b
  unfolding search_nonce
  search_nonce-found fuel b e = rw (e, search_nonce)

  search_nonce-missed :
      (fuel : ℕ) (b : Block)
      → is_found h d b ≡ false
      → search_nonce h d (suc fuel) b ≡ search_nonce h d fuel (at_nonce b (b.nonce + 1))
  unfolding search_nonce
  search_nonce-missed fuel b e = rw (e, search_nonce)

  -- The nonces from `start` to `start + k - 1` fail.
  abbrev pub Fails : Block → ℕ → ℕ → Type 0
  Fails b start n = (j : ℕ) → start ≤ j → j < n → is_found h d (at_nonce b j) ≡ false

  -- The result of the search from nonce `start`, with a valid nonce `n` in reach.
  pub record Least (b : Block) (start n fuel : ℕ) (m : ℕ) : Type 0 where
    pub result : search_nonce h d fuel (at_nonce b start) ≡ some (at_nonce b m)
    pub found : is_found h d (at_nonce b m) ≡ true
    pub bound : m ≤ n
    pub from_start : start ≤ m
    pub least : Fails b start m

  past_start :
      (b : Block) (start n : ℕ)
      → is_found h d (at_nonce b n) ≡ true
      → start ≤ n
      → is_found h d (at_nonce b start) ≡ false
      → start + 1 ≤ n
  past_start b start n e p l = elim (Bool-cases (start == n)) [
    | inl same ↦ let at : start ≡ n = (==_iff start n).0 same in cc (e, l, at)
    | inr apart ↦ ground arith
  ]

  Fails-from :
      (b : Block) (start m : ℕ)
      → is_found h d (at_nonce b start) ≡ false
      → Fails b (start + 1) m
      → Fails b start m
  Fails-from b start m l f j x y = elim (Bool-cases (start == j)) [
    | inl same ↦ let at : start ≡ j = (==_iff start j).0 same in cc (l, at)
    | inr apart ↦ f j (ground arith) y
  ]

  pub search_nonce-Least :
      (fuel : ℕ) (b : Block) (start n : ℕ)
      → is_found h d (at_nonce b n) ≡ true
      → start ≤ n
      → n < start + fuel
      → (m : ℕ) × Least b start n fuel m
  search_nonce-Least zero b start n e p q = absurd (omega arith)
  search_nonce-Least (suc fuel) b start n e p q =
      elim (Bool-cases (is_found h d (at_nonce b start))) [
        | inl now ↦ (
          start,
          record {
            result = search_nonce-found fuel (at_nonce b start) now;
            found = now;
            bound = p;
            from_start = omega arith;
            least = λ j x y. absurd (omega arith);
          },
        )
        | inr later ↦
            let (m, l) =
              search_nonce-Least fuel b (start + 1) n e (past_start b start n e p later)
                (omega arith) in
            (
              m,
              record {
                result = search_nonce-missed fuel (at_nonce b start) later ∙ l.result;
                found = l.found;
                bound = l.bound;
                from_start = omega (arith, l.from_start);
                least = Fails-from b start m later l.least;
              },
            )
      ]

  mine-search :
      (fuel : ℕ) (b c : Block)
      → search_nonce h d fuel (at_nonce b 0) ≡ some c
      → mine h d fuel b ≡ some (sealed h c)
  unfolding mine
  mine-search fuel b c e = rw (e, mine)

  hash-sealed : (c : Block) → (sealed h c).hash ≡ compute_hash h (sealed h c)
  unfolding sealed compute_hash
  hash-sealed c = refl

  sealed-is_valid_proof :
      (c : Block) → is_found h d c ≡ true → is_valid_proof h d (sealed h c) ≡ true
  unfolding is_found is_valid_proof sealed
  sealed-is_valid_proof c e = rw e (eq_refl (compute_hash h c))

  -- The proof of work ends as soon as there is a valid nonce: with more rounds than some valid
  -- nonce `n`, `mine` returns the block with the least valid nonce and the hash of its contents,
  -- all else unchanged, and the block passes `is_valid_proof`.
  pub mine-least :
      (b : Block) (n fuel : ℕ)
      → is_found h d (at_nonce b n) ≡ true
      → n < fuel
      → (m : ℕ) × (mine h d fuel b ≡ some (sealed h (at_nonce b m)))
        × (m ≤ n)
        × ((j : ℕ) → j < m → is_found h d (at_nonce b j) ≡ false)
        × (is_valid_proof h d (sealed h (at_nonce b m)) ≡ true)
  mine-least b n fuel e q =
      let (m, l) = search_nonce-Least fuel b 0 n e (omega arith) (omega arith) in
      (
        m,
        mine-search fuel b (at_nonce b m) l.result,
        l.bound,
        λ j y. l.least j (omega arith) y,
        sealed-is_valid_proof (at_nonce b m) l.found,
      )

  -- Whatever the search returns has been found, and differs from its start in the nonce alone.
  search_nonce_sound :
      (fuel : ℕ) (b c : Block)
      → search_nonce h d fuel b ≡ some c
      → (is_found h d c ≡ true) × (c ≡ at_nonce b c.nonce)
  unfolding search_nonce
  search_nonce_sound zero b c e = cc
  search_nonce_sound (suc fuel) b c e = elim (Bool-cases (is_found h d b)) [
    | inl now ↦
        let same : b ≡ c = some-injective b c (sym (search_nonce-found fuel b now) ∙ e) in
        (rw (← same) now, rw (← same))
    | inr later ↦
        let ih =
          search_nonce_sound fuel (at_nonce b (b.nonce + 1)) c
            (sym (search_nonce-missed fuel b later) ∙ e) in
        (ih.0, ih.1)
  ]

  sealed_shape :
      (b x : Block)
      → x ≡ at_nonce (at_nonce b 0) x.nonce
      → sealed h x ≡ record b { nonce = (sealed h x).nonce; hash = (sealed h x).hash }
  unfolding sealed
  sealed_shape b x e = ap (λ (t : Block). record t { nonce = x.nonce; hash = compute_hash h x }) e

  -- What `mine` returns has a valid proof, and the index, time, transactions, previous hash and
  -- Merkle root of the block that it was given.
  pub mine_sound :
      (fuel : ℕ) (b c : Block)
      → mine h d fuel b ≡ some c
      → (is_valid_proof h d c ≡ true) × (c ≡ record b { nonce = c.nonce; hash = c.hash })
  unfolding mine
  mine_sound fuel b c e = elim (Option-cases (search_nonce h d fuel (at_nonce b 0))) [
    | inl never ↦ cc (never, e)
    | inr (x, found) ↦
        let (ok_x, shape) = search_nonce_sound fuel (at_nonce b 0) x found in
        let same : sealed h x ≡ c =
          some-injective (sealed h x) c (sym (mine-search fuel b x found) ∙ e) in
        rw (← same) (sealed-is_valid_proof x ok_x, sealed_shape b x shape)
  ]
