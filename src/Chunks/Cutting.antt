-- ===== src/Chunks/Cutting.antt =====
-- The pieces of a file make up the file.
use cloudmer_cloud_storage.Prelude.{
  ℕ, zero, suc, ◌+◌, ◌-◌, ◌*◌, ◌/◌, ◌%◌, ◌≤◌, ◌<◌, ◌≡◌, refl, ap, ◌∙◌, sym, max, length, ltb,
  Bool-cases, inl, inr, Bytes, ok, arith, take-all, drop, ◌++◌, length-take, length-drop,
}
use native.Mathlib.Omega.{div_fact, mod_fact}
use native.Mathlib.Nat.{mul-le-mul_right}
use cloudmer_cloud_storage.Raid5.{slice, joined}
use cloudmer_cloud_storage.Raid5.Slices.{slice-append, slice_empty}
use cloudmer_cloud_storage.Chunks.{Codecs, count_chunks, piece, packed, unpacked}
use cloudmer_cloud_storage.Chunks.Reassembly.{pieces_of}

joined-pieces_of :
    (size : ℕ) (bytes : Bytes) (i n : ℕ)
    → joined (pieces_of (piece size bytes) i n) ≡ slice bytes (i * size) ((i + n) * size)
unfolding piece
joined-pieces_of size bytes i zero =
    sym (slice_empty bytes (i * size) ((i + 0) * size) (omega arith))
joined-pieces_of size bytes i (suc n) =
    let e : (i + 1 + n) * size ≡ (i + suc n) * size = omega arith in
    ap (λ t. piece size bytes i ++ t)
      (joined-pieces_of size bytes (i + 1) n ∙ ap (slice bytes ((i + 1) * size)) e)
    ∙ slice-append bytes (i * size) ((i + 1) * size) ((i + suc n) * size) (omega arith)
        (omega arith)

covers : (q s len r : ℕ) → suc s * q + r ≡ len + s → r < suc s → len ≤ max 1 q * suc s
covers zero s len r e h = omega (arith, e, h)
covers (suc q) s len r e h =
    let top : max 1 (suc q) ≡ suc q = omega arith in rw top (grind (arith, e, h))

count_chunks-covers : (size len : ℕ) → 0 < size → len ≤ count_chunks size len * size
count_chunks-covers zero len pos = absurd (omega arith)
count_chunks-covers (suc s) len pos =
    let step : suc s - 1 ≡ s = omega arith in
    rw step (
      covers ((len + s) / suc s) s len ((len + s) % suc s) (div_fact (len + s) s)
        (mod_fact (len + s) s))

below : (q s len r i : ℕ) → suc s * q + r ≡ len + s → 0 < len → i < max 1 q → i * suc s < len
below zero s len r i e pos h = let z : i ≡ 0 = omega arith in rw z (omega arith)
below (suc q) s len r i e pos h =
    let le : i ≤ q = omega arith in
    let mono : i * suc s ≤ q * suc s = mul-le-mul_right (suc s) le in grind arith

count_chunks-below :
    (size len i : ℕ) → 0 < size → 0 < len → i < count_chunks size len → i * size < len
count_chunks-below zero len i pos filled h = absurd (omega arith)
count_chunks-below (suc s) len i pos filled h =
    let step : suc s - 1 ≡ s = omega arith in
    below ((len + s) / suc s) s len ((len + s) % suc s) i (div_fact (len + s) s) filled
      (rw step at h)

-- The pieces of a file, joined, are the file.
pub joined-pieces :
    (size : ℕ) (bytes : Bytes)
    → 0 < size
    → joined (pieces_of (piece size bytes) 0 (count_chunks size (length bytes))) ≡ bytes
unfolding piece slice
joined-pieces size bytes pos =
    let n = count_chunks size (length bytes) in
    joined-pieces_of size bytes 0 n
    ∙ take-all ((0 + n) * size - 0 * size) (drop (0 * size) bytes)
        (omega (arith, length-drop (0 * size) bytes, count_chunks-covers size (length bytes) pos))
    ∙ (let none_ : 0 * size ≡ 0 = omega arith in ap (λ m. drop m bytes) none_)

-- No piece of a file with contents is empty.
pub piece_filled :
    (size : ℕ) (bytes : Bytes) (i : ℕ)
    → 0 < size
    → 0 < length bytes
    → i < count_chunks size (length bytes)
    → 0 < length (piece size bytes i)
unfolding piece slice
piece_filled size bytes i pos filled h =
    let inside : i * size < length bytes = count_chunks-below size (length bytes) i pos filled h in
    let width : (i + 1) * size - i * size ≡ size = omega arith in
    rw width (omega (arith, length-take size (drop (i * size) bytes), length-drop (i * size) bytes))

module _ (k : Codecs)
    (decompress-compress : (bytes : Bytes) → k.decompress (k.compress bytes) ≡ ok bytes) where
  -- What the receiver makes of the payload is the piece.
  pub unpacked-packed :
      (chunk : Bytes) → unpacked k (packed k chunk).1 (packed k chunk).0 ≡ ok chunk
  unpacked-packed chunk =
      elim (Bool-cases (ltb (10 * length (k.compress chunk)) (9 * length chunk))) [
        | inl smaller ↦ rw smaller (decompress-compress chunk)
        | inr larger ↦ rw larger refl
      ]

pub packed_filled :
    (k : Codecs) (chunk : Bytes)
    → ((bytes : Bytes) → 0 < length (k.compress bytes))
    → 0 < length chunk
    → 0 < length (packed k chunk).0
packed_filled k chunk filled h =
    elim (Bool-cases (ltb (10 * length (k.compress chunk)) (9 * length chunk))) [
      | inl smaller ↦ rw smaller (filled chunk)
      | inr larger ↦ rw larger h
    ]

-- The same for as many pieces as there are steps of the size below the length.
pub joined-pieces_steps :
    (s : ℕ) (bytes : Bytes)
    → joined (pieces_of (piece (suc s) bytes) 0 ((length bytes + s) / suc s)) ≡ bytes
unfolding piece slice
joined-pieces_steps s bytes =
    let n = (length bytes + s) / suc s in
    let whole = div_fact (length bytes + s) s in
    let part = mod_fact (length bytes + s) s in
    let enough : length bytes ≤ n * suc s =
      steps_cover n s (length bytes) ((length bytes + s) % suc s) whole part in
    joined-pieces_of (suc s) bytes 0 n
    ∙ take-all ((0 + n) * suc s - 0 * suc s) (drop (0 * suc s) bytes)
        (omega (arith, length-drop (0 * suc s) bytes, enough))
    ∙ (let none_ : 0 * suc s ≡ 0 = omega arith in ap (λ m. drop m bytes) none_)
  where
    steps_cover : (q s len r : ℕ) → suc s * q + r ≡ len + s → r < suc s → len ≤ q * suc s
    steps_cover q s len r e h = grind (arith, e, h)
