-- ===== src/Raid5/Slices.antt =====
-- The slices of `write` in raid5.py, and the data blocks that they cut.
use cloudmer_cloud_storage.Prelude.{
  ℕ, zero, suc, ◌+◌, ◌-◌, ◌*◌, ◌≤◌, ◌≡◌, refl, ap, ◌∙◌, sym, List, [], ◌∷◌, ◌++◌, arith, take, drop,
  length, length-take, length-drop, take-all, Bytes,
}
use cloudmer_cloud_storage.Raid5.{slice, data_blocks, joined}
use cloudmer_cloud_storage.Raid5.Parity.{AllLength}

module _ {ℓ} {A : Type ℓ} where
  pub take_nil : (n : ℕ) → take {A = A} n [] ≡ []
  take_nil zero = refl
  take_nil (suc n) = refl

  pub drop_nil : (n : ℕ) → drop {A = A} n [] ≡ []
  drop_nil zero = refl
  drop_nil (suc n) = refl

  drop-drop : (m n : ℕ) (xs : List A) → drop n (drop m xs) ≡ drop (m + n) xs
  drop-drop zero n xs = ap (λ k. drop k xs) (omega arith)
  drop-drop (suc m) n [] = drop_nil n ∙ sym (drop_nil (suc m + n))
  drop-drop (suc m) n (x ∷ xs) =
      let e : suc m + n ≡ suc (m + n) = omega arith in rw e (drop-drop m n xs)

  take-add : (m n : ℕ) (xs : List A) → take m xs ++ take n (drop m xs) ≡ take (m + n) xs
  take-add zero n xs = ap (λ k. take k xs) (omega arith)
  take-add (suc m) n [] = take_nil n ∙ sym (take_nil (suc m + n))
  take-add (suc m) n (x ∷ xs) =
      let e : suc m + n ≡ suc (m + n) = omega arith in rw e (ap (λ t. x ∷ t) (take-add m n xs))

pub length-slice :
    (bytes : Bytes) (lo hi : ℕ) → lo ≤ hi → hi ≤ length bytes → length (slice bytes lo hi) ≡ hi - lo
unfolding slice
length-slice bytes lo hi p q =
    omega (arith, length-take (hi - lo) (drop lo bytes), length-drop lo bytes)

-- Adjacent slices join.
pub slice-append :
    (bytes : Bytes) (lo mid hi : ℕ)
    → lo ≤ mid
    → mid ≤ hi
    → slice bytes lo mid ++ slice bytes mid hi ≡ slice bytes lo hi
unfolding slice
slice-append bytes lo mid hi p q =
    let at : lo + (mid - lo) ≡ mid = omega arith in
    let len : (mid - lo) + (hi - mid) ≡ hi - lo = omega arith in
    ap (λ t. take (mid - lo) (drop lo bytes) ++ take (hi - mid) t)
      (sym (drop-drop lo (mid - lo) bytes ∙ ap (λ k. drop k bytes) at))
    ∙ take-add (mid - lo) (hi - mid) (drop lo bytes)
    ∙ ap (λ k. take k (drop lo bytes)) len

pub slice-all : (bytes : Bytes) (hi : ℕ) → hi ≡ length bytes → slice bytes 0 hi ≡ bytes
unfolding slice
slice-all bytes hi e = take-all (hi - 0) bytes (omega arith)

pub slice_empty : (bytes : Bytes) (lo hi : ℕ) → lo ≡ hi → slice bytes lo hi ≡ []
unfolding slice
slice_empty bytes lo hi e = let z : hi - lo ≡ 0 = omega arith in rw z

pub length-data_blocks :
    (bytes : Bytes) (off size n d : ℕ) → length (data_blocks bytes off size n d) ≡ n
unfolding data_blocks
length-data_blocks bytes off size zero d = refl
length-data_blocks bytes off size (suc n) d = ap suc (length-data_blocks bytes off size n (d + 1))

pub data_blocks-AllLength :
    (bytes : Bytes) (off size n d : ℕ)
    → off + (d + n) * size ≤ length bytes
    → AllLength size (data_blocks bytes off size n d)
unfolding data_blocks
data_blocks-AllLength bytes off size zero d h = tt
data_blocks-AllLength bytes off size (suc n) d h = (
  length-slice bytes (off + d * size) (off + (d + 1) * size) (omega arith) (grind arith)
      ∙ omega arith,
  data_blocks-AllLength bytes off size n (d + 1) (omega arith),
)

pub joined-data_blocks :
    (bytes : Bytes) (off size n d : ℕ)
    → joined (data_blocks bytes off size n d) ≡ slice bytes (off + d * size) (off + (d + n) * size)
unfolding data_blocks
joined-data_blocks bytes off size zero d =
    sym (slice_empty bytes (off + d * size) (off + (d + 0) * size) (omega arith))
joined-data_blocks bytes off size (suc n) d =
    let e : off + (d + 1 + n) * size ≡ off + (d + suc n) * size = omega arith in
    ap (λ t. slice bytes (off + d * size) (off + (d + 1) * size) ++ t)
      (joined-data_blocks bytes off size n (d + 1)
        ∙ ap (λ k. slice bytes (off + (d + 1) * size) k) e)
    ∙ slice-append bytes (off + d * size) (off + (d + 1) * size) (off + (d + suc n) * size)
        (omega arith) (omega arith)
