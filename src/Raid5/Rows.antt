-- ===== src/Raid5/Rows.antt =====
-- What the stripe rows of the array hold: the loops of raid5.py over disks and rows, seen one row
-- of blocks at a time.
use cloudmer_cloud_storage.Prelude.{
  ℕ, zero, suc, ◌+◌, ◌≤◌, ◌<◌, ◌≡◌, ◌≢◌, refl, ap, ◌∙◌, List, [], ◌∷◌, ◌++◌, some, arith, length,
  set, get_elem?, Bytes, ok,
}
use cloudmer_cloud_storage.Raid5.{place, column, others, index}
use cloudmer_cloud_storage.Raid5.Parity.{AllLength, insert_at, remove_at}

module _ {ℓ} {A : Type ℓ} where
  others-past : (i f : ℕ) (xs : List A) → f < i → others i f xs ≡ xs
  unfolding others
  others-past i f [] h = refl
  others-past i f (x ∷ xs) h = ground (arith, others-past (i + 1) f xs (omega arith))

  others-remove_at_from : (i f k : ℕ) (xs : List A) → f ≡ i + k → others i f xs ≡ remove_at k xs
  unfolding others
  others-remove_at_from i f zero [] h = refl
  others-remove_at_from i f (suc k) [] h = refl
  others-remove_at_from i f zero (x ∷ xs) h = ground (arith, others-past (i + 1) f xs (omega arith))
  others-remove_at_from i f (suc k) (x ∷ xs) h =
      ground (arith, others-remove_at_from (i + 1) f k xs (omega arith))

  pub others-remove_at : (f : ℕ) (xs : List A) → others 0 f xs ≡ remove_at f xs
  others-remove_at f xs = others-remove_at_from 0 f f xs (omega arith)

  pub remove_at-insert_at :
      (k : ℕ) (x : A) (xs : List A) → k ≤ length xs → remove_at k (insert_at k x xs) ≡ xs
  remove_at-insert_at zero x xs h = refl
  remove_at-insert_at (suc k) x [] h = absurd (omega arith)
  remove_at-insert_at (suc k) x (y ∷ xs) h =
      ap (λ t. y ∷ t) (remove_at-insert_at k x xs (omega arith))

  pub length-insert_at : (k : ℕ) (x : A) (xs : List A) → length (insert_at k x xs) ≡ suc (length xs)
  length-insert_at zero x xs = refl
  length-insert_at (suc k) x [] = refl
  length-insert_at (suc k) x (y ∷ xs) = ap suc (length-insert_at k x xs)

  pub length-remove_at :
      (k : ℕ) (xs : List A) → k < length xs → length xs ≡ suc (length (remove_at k xs))
  length-remove_at k [] h = absurd (omega arith)
  length-remove_at zero (x ∷ xs) h = refl
  length-remove_at (suc k) (x ∷ xs) h = ap suc (length-remove_at k xs (omega arith))

  pub remove_at-set : (k : ℕ) (v : A) (xs : List A) → remove_at k (set xs k v) ≡ remove_at k xs
  remove_at-set zero v [] = refl
  remove_at-set (suc k) v [] = refl
  remove_at-set zero v (x ∷ xs) = refl
  remove_at-set (suc k) v (x ∷ xs) = ap (λ t. x ∷ t) (remove_at-set k v xs)

  pub set-set : (k : ℕ) (v w : A) (xs : List A) → set (set xs k v) k w ≡ set xs k w
  set-set zero v w [] = refl
  set-set (suc k) v w [] = refl
  set-set zero v w (x ∷ xs) = refl
  set-set (suc k) v w (x ∷ xs) = ap (λ t. x ∷ t) (set-set k v w xs)

  pub set-get_elem? : (k : ℕ) (v : A) (xs : List A) → get_elem? xs k ≡ some v → set xs k v ≡ xs
  set-get_elem? zero v [] h = refl
  set-get_elem? (suc k) v [] h = refl
  set-get_elem? zero v (x ∷ xs) h = cc
  set-get_elem? (suc k) v (x ∷ xs) h = ap (λ t. x ∷ t) (set-get_elem? k v xs h)

  pub get_elem?-lt : (k : ℕ) (xs : List A) → k < length xs → (v : A) × (get_elem? xs k ≡ some v)
  get_elem?-lt k [] h = absurd (omega arith)
  get_elem?-lt zero (x ∷ xs) h = (x, refl)
  get_elem?-lt (suc k) (x ∷ xs) h = get_elem?-lt k xs (omega arith)

  pub lt-get_elem? : (k : ℕ) (v : A) (xs : List A) → get_elem? xs k ≡ some v → k < length xs
  lt-get_elem? k v [] h = cc
  lt-get_elem? zero v (x ∷ xs) h = omega arith
  lt-get_elem? (suc k) v (x ∷ xs) h = omega (arith, lt-get_elem? k v xs h)

  get_elem?-append_self :
      (xs : List A) (x : A) (k : ℕ) → length xs ≡ k → get_elem? (xs ++ x ∷ []) k ≡ some x
  get_elem?-append_self [] x zero h = refl
  get_elem?-append_self [] x (suc k) h = absurd (omega arith)
  get_elem?-append_self (y ∷ xs) x zero h = absurd (omega arith)
  get_elem?-append_self (y ∷ xs) x (suc k) h = get_elem?-append_self xs x k (omega arith)

  get_elem?-append_lt :
      (xs : List A) (x : A) (k : ℕ) → k < length xs → get_elem? (xs ++ x ∷ []) k ≡ get_elem? xs k
  get_elem?-append_lt [] x k h = absurd (omega arith)
  get_elem?-append_lt (y ∷ xs) x zero h = refl
  get_elem?-append_lt (y ∷ xs) x (suc k) h = get_elem?-append_lt xs x k (omega arith)

  pub get_elem?-set_self :
      (xs : List A) (i : ℕ) (v : A) → i < length xs → get_elem? (set xs i v) i ≡ some v
  get_elem?-set_self [] i v h = absurd (omega arith)
  get_elem?-set_self (x ∷ xs) zero v h = refl
  get_elem?-set_self (x ∷ xs) (suc i) v h = get_elem?-set_self xs i v (omega arith)

  pub get_elem?-set_ne :
      (xs : List A) (i j : ℕ) (v : A) → i ≢ j → get_elem? (set xs i v) j ≡ get_elem? xs j
  get_elem?-set_ne [] i j v h = refl
  get_elem?-set_ne (x ∷ xs) zero zero v h = absurd (h refl)
  get_elem?-set_ne (x ∷ xs) zero (suc j) v h = refl
  get_elem?-set_ne (x ∷ xs) (suc i) zero v h = refl
  get_elem?-set_ne (x ∷ xs) (suc i) (suc j) v h = get_elem?-set_ne xs i j v (λ e. h (ap suc e))

  length-snoc : (xs : List A) (x : A) → length (xs ++ x ∷ []) ≡ suc (length xs)
  length-snoc [] x = refl
  length-snoc (y ∷ xs) x = ap suc (length-snoc xs x)

-- One more block on each disk.
abbrev pub append_row : List Bytes → List (List Bytes) → List (List Bytes)
append_row bs [] = []
append_row [] (d ∷ ds) = d ∷ ds
append_row (b ∷ bs) (d ∷ ds) = (d ++ b ∷ []) ∷ append_row bs ds

place_past :
    (i p : ℕ) (block : Bytes) (iter : List Bytes) (disks : List (List Bytes))
    → p < i
    → length iter ≡ length disks
    → place i p block iter disks ≡ (append_row iter disks, ok tt)
unfolding place
place_past i p block iter [] h e = refl
place_past i p block [] (d ∷ ds) h e = absurd (omega arith)
place_past i p block (b ∷ iter) (d ∷ ds) h e =
    ground (arith, place_past (i + 1) p block iter ds (omega arith) (omega arith))

place_from :
    (i p k : ℕ) (block : Bytes) (iter : List Bytes) (disks : List (List Bytes))
    → p ≡ i + k
    → k < length disks
    → length disks ≡ suc (length iter)
    → place i p block iter disks ≡ (append_row (insert_at k block iter) disks, ok tt)
unfolding place
place_from i p k block iter [] h l e = absurd (omega arith)
place_from i p zero block iter (d ∷ ds) h l e =
    ground (arith, place_past (i + 1) p block iter ds (omega arith) (omega arith))
place_from i p (suc k) block [] (d ∷ ds) h l e = absurd (omega arith)
place_from i p (suc k) block (b ∷ iter) (d ∷ ds) h l e =
    ground (arith, place_from (i + 1) p k block iter ds (omega arith) (omega arith) (omega arith))

-- The loop over the disks never runs out of data blocks, and appends one row.
pub place-append_row :
    (p : ℕ) (block : Bytes) (iter : List Bytes) (disks : List (List Bytes))
    → p < length disks
    → length disks ≡ suc (length iter)
    → place 0 p block iter disks ≡ (append_row (insert_at p block iter) disks, ok tt)
place-append_row p block iter disks l e = place_from 0 p p block iter disks (omega arith) l e

pub length-append_row :
    (bs : List Bytes) (ds : List (List Bytes)) → length (append_row bs ds) ≡ length ds
length-append_row bs [] = refl
length-append_row [] (d ∷ ds) = refl
length-append_row (b ∷ bs) (d ∷ ds) = ap suc (length-append_row bs ds)

pub AllLength-append_row :
    (n : ℕ) (bs : List Bytes) (ds : List (List Bytes))
    → length bs ≡ length ds
    → AllLength n ds
    → AllLength (suc n) (append_row bs ds)
AllLength-append_row n bs [] e h = tt
AllLength-append_row n [] (d ∷ ds) e h = absurd (omega arith)
AllLength-append_row n (b ∷ bs) (d ∷ ds) e h =
    (length-snoc d b ∙ ap suc h.0, AllLength-append_row n bs ds (omega arith) h.1)

pub column-append_row_self :
    (n : ℕ) (bs : List Bytes) (ds : List (List Bytes))
    → length bs ≡ length ds
    → AllLength n ds
    → column n (append_row bs ds) ≡ ok bs
unfolding column
column-append_row_self n [] [] e h = refl
column-append_row_self n (b ∷ bs) [] e h = absurd (omega arith)
column-append_row_self n [] (d ∷ ds) e h = absurd (omega arith)
column-append_row_self n (b ∷ bs) (d ∷ ds) e h =
    rw (get_elem?-append_self d b n h.0, index)
      (rw (column-append_row_self n bs ds (omega arith) h.1))

pub column-append_row_lt :
    (n k : ℕ) (bs : List Bytes) (ds : List (List Bytes))
    → k < n
    → length bs ≡ length ds
    → AllLength n ds
    → column k (append_row bs ds) ≡ column k ds
unfolding column
column-append_row_lt n k bs [] l e h = refl
column-append_row_lt n k [] (d ∷ ds) l e h = absurd (omega arith)
column-append_row_lt n k (b ∷ bs) (d ∷ ds) l e h =
    rw (get_elem?-append_lt d b k (omega (arith, h.0)), index)
      (rw (column-append_row_lt n k bs ds l (omega arith) h.1))
