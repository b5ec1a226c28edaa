-- ===== src/Raid5/Parity.antt =====
-- `_xor_bytes` of raid5.py on blocks of one length: an algebra in which each block is its own
-- inverse, and the recovery of one block from the others.
use cloudmer_cloud_storage.Prelude.{
  ℕ, zero, suc, bit_xor, ◌≡◌, refl, ap, ◌∙◌, sym, List, [], ◌∷◌, arith, length, replicate,
  get_elem?, some, Bytes, ok,
}
use cloudmer_cloud_storage.Prelude.Xor.{
  bit_xor-zero, bit_xor_self, bit_xor_comm, bit_xor_assoc, bit_xor-cancel,
}
use cloudmer_cloud_storage.Raid5.{xor_into, xor_rest, xor_bytes}

abbrev pub zip_xor : Bytes → Bytes → Bytes
zip_xor [] ys = []
zip_xor (x ∷ xs) [] = []
zip_xor (x ∷ xs) (y ∷ ys) = bit_xor x y ∷ zip_xor xs ys

abbrev pub AllLength {ℓ} : {A : Type ℓ} → ℕ → List (List A) → Type 0
AllLength n [] = Unit
AllLength n (b ∷ bs) = (length b ≡ n) × AllLength n bs

pub length-zip_xor : (xs ys : Bytes) → length xs ≡ length ys → length (zip_xor xs ys) ≡ length xs
length-zip_xor [] ys h = refl
length-zip_xor (x ∷ xs) [] h = absurd (omega arith)
length-zip_xor (x ∷ xs) (y ∷ ys) h = omega (arith, length-zip_xor xs ys (omega arith))

pub zip_xor_comm : (xs ys : Bytes) → zip_xor xs ys ≡ zip_xor ys xs
zip_xor_comm [] [] = refl
zip_xor_comm [] (y ∷ ys) = refl
zip_xor_comm (x ∷ xs) [] = refl
zip_xor_comm (x ∷ xs) (y ∷ ys) = cc (bit_xor_comm x y, zip_xor_comm xs ys)

pub zip_xor_assoc : (xs ys zs : Bytes) → zip_xor (zip_xor xs ys) zs ≡ zip_xor xs (zip_xor ys zs)
zip_xor_assoc [] ys zs = refl
zip_xor_assoc (x ∷ xs) [] zs = refl
zip_xor_assoc (x ∷ xs) (y ∷ ys) [] = refl
zip_xor_assoc (x ∷ xs) (y ∷ ys) (z ∷ zs) = cc (bit_xor_assoc x y z, zip_xor_assoc xs ys zs)

zip_xor-zeros : (n : ℕ) (xs : Bytes) → length xs ≡ n → zip_xor xs (replicate n 0) ≡ xs
zip_xor-zeros zero [] h = refl
zip_xor-zeros zero (x ∷ xs) h = absurd (omega arith)
zip_xor-zeros (suc n) [] h = refl
zip_xor-zeros (suc n) (x ∷ xs) h = cc (bit_xor-zero x, zip_xor-zeros n xs (omega arith))

zip_xor_self : (n : ℕ) (xs : Bytes) → length xs ≡ n → zip_xor xs xs ≡ replicate n 0
zip_xor_self zero [] h = refl
zip_xor_self zero (x ∷ xs) h = absurd (omega arith)
zip_xor_self (suc n) [] h = absurd (omega arith)
zip_xor_self (suc n) (x ∷ xs) h = cc (bit_xor_self x, zip_xor_self n xs (omega arith))

zip_xor-cancel : (xs ys : Bytes) → length xs ≡ length ys → zip_xor (zip_xor xs ys) ys ≡ xs
zip_xor-cancel [] ys h = refl
zip_xor-cancel (x ∷ xs) [] h = absurd (omega arith)
zip_xor-cancel (x ∷ xs) (y ∷ ys) h = cc (bit_xor-cancel x y, zip_xor-cancel xs ys (omega arith))

-- The xor of blocks of length `n`, without the error.
abbrev pub xor_all : ℕ → List Bytes → Bytes
xor_all n [] = replicate n 0
xor_all n (b ∷ bs) = zip_xor b (xor_all n bs)

pub length-xor_all : (n : ℕ) (bs : List Bytes) → AllLength n bs → length (xor_all n bs) ≡ n
length-xor_all zero [] h = refl
length-xor_all (suc n) [] h = ap suc (length-xor_all n [] tt)
length-xor_all n (b ∷ bs) h =
    length-zip_xor b (xor_all n bs) (h.0 ∙ sym (length-xor_all n bs h.1)) ∙ h.0

xor_into-zip_xor : (xs ys : Bytes) → length xs ≡ length ys → xor_into xs ys ≡ ok (zip_xor xs ys)
unfolding xor_into
xor_into-zip_xor [] ys h = refl
xor_into-zip_xor (x ∷ xs) [] h = absurd (omega arith)
xor_into-zip_xor (x ∷ xs) (y ∷ ys) h = rw (xor_into-zip_xor xs ys (omega arith))

xor_rest-xor_all :
    (n : ℕ) (a : Bytes) (bs : List Bytes)
    → length a ≡ n
    → AllLength n bs
    → xor_rest a bs ≡ ok (zip_xor a (xor_all n bs))
unfolding xor_rest
xor_rest-xor_all n a [] p h = ap ok (sym (zip_xor-zeros n a p))
xor_rest-xor_all n a (b ∷ bs) p h = rw (xor_into-zip_xor a b (p ∙ sym h.0)) (
    rw (xor_rest-xor_all n (zip_xor a b) bs (length-zip_xor a b (p ∙ sym h.0) ∙ p) h.1)
      (ap ok (zip_xor_assoc a b (xor_all n bs))))

-- On at least one block of one length `_xor_bytes` does not raise.
pub xor_bytes-xor_all :
    (n : ℕ) (a : Bytes) (bs : List Bytes)
    → AllLength n (a ∷ bs)
    → xor_bytes (a ∷ bs) ≡ ok (xor_all n (a ∷ bs))
unfolding xor_bytes
xor_bytes-xor_all n a bs h = xor_rest-xor_all n a bs h.0 h.1

-- The list with `b` put in before index `k`.
abbrev pub insert_at {ℓ} : {A : Type ℓ} → ℕ → A → List A → List A
insert_at zero b bs = b ∷ bs
insert_at (suc k) b [] = b ∷ []
insert_at (suc k) b (c ∷ bs) = c ∷ insert_at k b bs

abbrev pub remove_at {ℓ} : {A : Type ℓ} → ℕ → List A → List A
remove_at k [] = []
remove_at zero (b ∷ bs) = bs
remove_at (suc k) (b ∷ bs) = b ∷ remove_at k bs

xor_all-swap : (xs ys zs : Bytes) → zip_xor xs (zip_xor ys zs) ≡ zip_xor ys (zip_xor xs zs)
xor_all-swap xs ys zs =
    sym (zip_xor_assoc xs ys zs)
    ∙ ap (λ t. zip_xor t zs) (zip_xor_comm xs ys)
    ∙ zip_xor_assoc ys xs zs

pub xor_all-insert_at :
    (n k : ℕ) (b : Bytes) (bs : List Bytes)
    → xor_all n (insert_at k b bs) ≡ zip_xor b (xor_all n bs)
xor_all-insert_at n zero b bs = refl
xor_all-insert_at n (suc k) b [] = refl
xor_all-insert_at n (suc k) b (c ∷ bs) =
    rw (xor_all-insert_at n k b bs) (xor_all-swap c b (xor_all n bs))

pub AllLength-insert_at :
    (n k : ℕ) (b : Bytes) (bs : List Bytes)
    → length b ≡ n
    → AllLength n bs
    → AllLength n (insert_at k b bs)
AllLength-insert_at n zero b bs p h = (p, h)
AllLength-insert_at n (suc k) b [] p h = (p, tt)
AllLength-insert_at n (suc k) b (c ∷ bs) p h = (h.0, AllLength-insert_at n k b bs p h.1)

pub AllLength-remove_at :
    (n k : ℕ) (bs : List Bytes) → AllLength n bs → AllLength n (remove_at k bs)
AllLength-remove_at n zero [] h = tt
AllLength-remove_at n (suc k) [] h = tt
AllLength-remove_at n zero (b ∷ bs) h = h.1
AllLength-remove_at n (suc k) (b ∷ bs) h = (h.0, AllLength-remove_at n k bs h.1)

pub xor_all-remove_at :
    (n k : ℕ) (b : Bytes) (bs : List Bytes)
    → get_elem? bs k ≡ some b
    → xor_all n bs ≡ zip_xor b (xor_all n (remove_at k bs))
xor_all-remove_at n zero b [] h = cc
xor_all-remove_at n (suc k) b [] h = cc
xor_all-remove_at n zero b (c ∷ bs) h = ground arith
xor_all-remove_at n (suc k) b (c ∷ bs) h =
    rw (xor_all-remove_at n k b bs h) (xor_all-swap c b (xor_all n (remove_at k bs)))

-- Where all blocks xor to zeros, each block is the xor of the others.
pub xor_others :
    (n k : ℕ) (b : Bytes) (bs : List Bytes)
    → AllLength n bs
    → length b ≡ n
    → get_elem? bs k ≡ some b
    → xor_all n bs ≡ replicate n 0
    → xor_all n (remove_at k bs) ≡ b
xor_others n k b bs h p at z =
    let rest : Bytes = xor_all n (remove_at k bs) in
    let same : length b ≡ length rest =
      p ∙ sym (length-xor_all n (remove_at k bs) (AllLength-remove_at n k bs h)) in
    let whole : zip_xor rest b ≡ replicate n 0 =
      zip_xor_comm rest b ∙ sym (xor_all-remove_at n k b bs at) ∙ z in
    sym (zip_xor-cancel rest b (sym same))
    ∙ ap (λ t. zip_xor t b) whole
    ∙ zip_xor_comm (replicate n 0) b
    ∙ zip_xor-zeros n b p

-- The parity block makes all blocks of its row xor to zeros.
pub xor_all-parity :
    (n k : ℕ) (bs : List Bytes)
    → AllLength n bs
    → xor_all n (insert_at k (xor_all n bs) bs) ≡ replicate n 0
xor_all-parity n k bs h =
    xor_all-insert_at n k (xor_all n bs) bs ∙ zip_xor_self n (xor_all n bs) (length-xor_all n bs h)
