-- ===== src/Crypto/Files/Sorting.antt =====
-- The sorting of chunks by their index.
use cloudmer_cloud_storage.Prelude.{
  ℕ, zero, suc, ◌+◌, ◌≡◌, ◌≢◌, ◌≤◌, refl, ap, ◌∙◌, sym, List, [], ◌∷◌, ◌==◌, Bool-cases, inl, inr,
  arith,
}
use cloudmer_cloud_storage.Crypto.Files.{FileChunk, insert_chunk, sort_chunks}

-- The second list is the first in another order.
pub data Reordered : List FileChunk → List FileChunk → Type 0 where
  done : Reordered [] []
  keep : (c : FileChunk) (xs ys : List FileChunk) → Reordered xs ys → Reordered (c ∷ xs) (c ∷ ys)
  swap : (c d : FileChunk) (xs : List FileChunk) → Reordered (c ∷ d ∷ xs) (d ∷ c ∷ xs)
  via : (xs ys zs : List FileChunk) → Reordered xs ys → Reordered ys zs → Reordered xs zs

insert_chunk_comm :
    (a b : FileChunk) (cs : List FileChunk)
    → a.chunk_index ≢ b.chunk_index
    → insert_chunk a (insert_chunk b cs) ≡ insert_chunk b (insert_chunk a cs)
unfolding insert_chunk
insert_chunk_comm a b [] apart = ground arith
insert_chunk_comm a b (c ∷ cs) apart = ground (arith, insert_chunk_comm a b cs apart)

-- The first of the chunks stays the first where no index is smaller.
pub insert_chunk_first :
    (c d : FileChunk) (ds : List FileChunk)
    → c.chunk_index ≤ d.chunk_index
    → insert_chunk c (d ∷ ds) ≡ c ∷ d ∷ ds
unfolding insert_chunk
insert_chunk_first c d ds h = ground arith

-- The chunks are the values of a function of their index.
module _ (g : ℕ → FileChunk) where
  abbrev pub AllMade : List FileChunk → Type 0
  AllMade [] = Unit
  AllMade (c ∷ cs) = (c ≡ g c.chunk_index) × AllMade cs

  Reordered-AllMade : (xs ys : List FileChunk) → Reordered xs ys → AllMade xs → AllMade ys
  Reordered-AllMade xs ys done all = all
  Reordered-AllMade xs ys (keep c xs' ys' r) (made, rest) = (made, Reordered-AllMade xs' ys' r rest)
  Reordered-AllMade xs ys (swap c d xs') (first, (second, rest)) = (second, (first, rest))
  Reordered-AllMade xs ys (via xs' ys' zs' r q) all =
      Reordered-AllMade ys' zs' q (Reordered-AllMade xs' ys' r all)

  insert_chunk_made :
      (c d : FileChunk) (cs : List FileChunk)
      → c ≡ g c.chunk_index
      → d ≡ g d.chunk_index
      → insert_chunk c (insert_chunk d cs) ≡ insert_chunk d (insert_chunk c cs)
  insert_chunk_made c d cs made made' = elim (Bool-cases (c.chunk_index == d.chunk_index)) [
    | inl same ↦
        let e : c.chunk_index ≡ d.chunk_index = ground arith in
        let equal : c ≡ d = made ∙ ap g e ∙ sym made' in
        ap (λ x. insert_chunk x (insert_chunk d cs)) equal
        ∙ ap (λ x. insert_chunk d (insert_chunk x cs)) (sym equal)
    | inr other ↦ insert_chunk_comm c d cs (λ e. ground arith)
  ]

  pub sort_chunks-Reordered :
      (xs ys : List FileChunk) → Reordered xs ys → AllMade xs → sort_chunks xs ≡ sort_chunks ys
  unfolding sort_chunks
  sort_chunks-Reordered xs ys done all = refl
  sort_chunks-Reordered xs ys (keep c xs' ys' r) (made, rest) =
      ap (insert_chunk c) (sort_chunks-Reordered xs' ys' r rest)
  sort_chunks-Reordered xs ys (swap c d xs') (first, (second, rest)) =
      insert_chunk_made c d (sort_chunks xs') first second
  sort_chunks-Reordered xs ys (via xs' ys' zs' r q) all =
      sort_chunks-Reordered xs' ys' r all
      ∙ sort_chunks-Reordered ys' zs' q (Reordered-AllMade xs' ys' r all)

  -- The chunks from the i-th on.
  abbrev pub made_from : ℕ → ℕ → List FileChunk
  made_from i zero = []
  made_from i (suc n) = g i ∷ made_from (i + 1) n

  module _ (index : (i : ℕ) → (g i).chunk_index ≡ i) where
    pub made_from-AllMade : (i n : ℕ) → AllMade (made_from i n)
    made_from-AllMade i zero = tt
    made_from-AllMade i (suc n) = (sym (ap g (index i)), made_from-AllMade (i + 1) n)

    pub sort_chunks-made_from : (i n : ℕ) → sort_chunks (made_from i n) ≡ made_from i n
    unfolding sort_chunks insert_chunk
    sort_chunks-made_from i zero = refl
    sort_chunks-made_from i (suc zero) = refl
    sort_chunks-made_from i (suc (suc n)) =
        ap (insert_chunk (g i)) (sort_chunks-made_from (i + 1) (suc n))
        ∙ insert_chunk_first (g i) (g (i + 1)) (made_from (i + 1 + 1) n)
            (omega (arith, index i, index (i + 1)))
