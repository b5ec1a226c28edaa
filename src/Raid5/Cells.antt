-- ===== src/Raid5/Cells.antt =====
-- Writing single cells of the array: the loops of `simulate_disk_failure` and `recover_disk`.
use cloudmer_cloud_storage.Prelude.{
  ℕ, zero, suc, ◌<◌, ◌≡◌, ◌≢◌, refl, ap, List, [], ◌∷◌, Option, index_error, some, none, arith,
  length, set, length-set, get_elem?, Bytes, Result, ok, err, ◌>>=◌, lt→ltb,
}
use cloudmer_cloud_storage.Raid5.{column, others, set_cell, index}
use cloudmer_cloud_storage.Raid5.Parity.{remove_at}
use cloudmer_cloud_storage.Raid5.Rows.{
  others-remove_at, lt-get_elem?, get_elem?-lt, get_elem?-set_self, get_elem?-set_ne,
}

-- One more block in front of those of the other disks.
abbrev cons_block : Result Bytes → Result (List Bytes) → Result (List Bytes)
cons_block b bs = do x ← b; xs ← bs; ok (x ∷ xs)

index-some :
    (disk : List Bytes) (row : ℕ) (b : Bytes) → index disk row ≡ ok b → get_elem? disk row ≡ some b
unfolding index
index-some disk row b h = ground arith

pub column-cons :
    (row : ℕ) (disk : List Bytes) (disks : List (List Bytes)) (bs : List Bytes)
    → column row (disk ∷ disks) ≡ ok bs
    → (b : Bytes) × (rest : List Bytes) × (index disk row ≡ ok b)
      × (column row disks ≡ ok rest)
      × (bs ≡ b ∷ rest)
unfolding column
column-cons row disk disks bs h = go (index disk row) (column row disks) refl refl h
  where
    go :
        (x : Result Bytes) (xs : Result (List Bytes))
        → index disk row ≡ x
        → column row disks ≡ xs
        → cons_block x xs ≡ ok bs
        → (b : Bytes) × (rest : List Bytes) × (index disk row ≡ ok b)
          × (column row disks ≡ ok rest)
          × (bs ≡ b ∷ rest)
    go (ok b) (ok rest) p q e = (b, rest, p, q, cc)
    go (ok b) (err x) p q e = cc
    go (err x) xs p q e = cc

pub length-column :
    (row : ℕ) (disks : List (List Bytes)) (bs : List Bytes)
    → column row disks ≡ ok bs
    → length bs ≡ length disks
unfolding column
length-column row [] [] h = refl
length-column row [] (b ∷ bs) h = cc
length-column row (d ∷ ds) bs h =
    let (b, rest, p, q, e) = column-cons row d ds bs h in
    rw e (ap suc (length-column row ds rest q))

-- Leaving one disk out of the array leaves its block out of each row.
pub column-remove_at :
    (row f : ℕ) (disks : List (List Bytes)) (bs : List Bytes)
    → column row disks ≡ ok bs
    → column row (remove_at f disks) ≡ ok (remove_at f bs)
unfolding column
column-remove_at row f [] [] h = ground arith
column-remove_at row f [] (b ∷ bs) h = cc
column-remove_at row zero (d ∷ ds) bs h =
    let (b, rest, p, q, e) = column-cons row d ds bs h in rw e q
column-remove_at row (suc f) (d ∷ ds) bs h =
    let (b, rest, p, q, e) = column-cons row d ds bs h in
    rw (e, p) (rw (column-remove_at row f ds rest q))

pub column-others :
    (row f : ℕ) (disks : List (List Bytes)) (bs : List Bytes)
    → column row disks ≡ ok bs
    → column row (others 0 f disks) ≡ ok (others 0 f bs)
column-others row f disks bs h =
    rw (others-remove_at f disks, others-remove_at f bs) (column-remove_at row f disks bs h)

index-set_self :
    (disk : List Bytes) (row : ℕ) (b : Bytes)
    → row < length disk
    → index (set disk row b) row ≡ ok b
unfolding index
index-set_self disk row b h = rw (get_elem?-set_self disk row b h, index)

index-set_ne :
    (disk : List Bytes) (row k : ℕ) (b : Bytes) → row ≢ k → index (set disk row b) k ≡ index disk k
unfolding index
index-set_ne disk row k b h =
    ap (λ (o : Option Bytes). elim o [ none ↦ err index_error | some x ↦ ok x ])
      (get_elem?-set_ne disk row k b h)

column-set_self :
    (disks : List (List Bytes)) (d row : ℕ) (disk : List Bytes) (bs : List Bytes) (block : Bytes)
    → get_elem? disks d ≡ some disk
    → row < length disk
    → column row disks ≡ ok bs
    → column row (set disks d (set disk row block)) ≡ ok (set bs d block)
unfolding column
column-set_self [] d row disk bs block g l h = cc
column-set_self (x ∷ disks) zero row disk bs block g l h =
    let (b, rest, p, q, e) = column-cons row x disks bs h in
    rw (e, index-set_self disk row block l) (rw q)
column-set_self (x ∷ disks) (suc d) row disk bs block g l h =
    let (b, rest, p, q, e) = column-cons row x disks bs h in
    rw (e, p) (rw (column-set_self disks d row disk rest block g l q))

column-set_ne :
    (disks : List (List Bytes)) (d row k : ℕ) (disk : List Bytes) (block : Bytes)
    → get_elem? disks d ≡ some disk
    → row ≢ k
    → column k (set disks d (set disk row block)) ≡ column k disks
unfolding column
column-set_ne [] d row k disk block g h = refl
column-set_ne (x ∷ disks) zero row k disk block g h =
    let same : x ≡ disk = cc in rw (index-set_ne disk row k block h) (rw same)
column-set_ne (x ∷ disks) (suc d) row k disk block g h =
    rw (column-set_ne disks d row k disk block g h)

cell_lt :
    (disks : List (List Bytes)) (d row : ℕ) (disk : List Bytes) (bs : List Bytes)
    → get_elem? disks d ≡ some disk
    → column row disks ≡ ok bs
    → row < length disk
unfolding column
cell_lt [] d row disk bs g h = cc
cell_lt (x ∷ disks) zero row disk bs g h =
    let (b, rest, p, q, e) = column-cons row x disks bs h in
    let same : x ≡ disk = cc in lt-get_elem? row b disk (rw same at (index-some x row b p))
cell_lt (x ∷ disks) (suc d) row disk bs g h =
    let (b, rest, p, q, e) = column-cons row x disks bs h in cell_lt disks d row disk rest g q

-- A write to a cell that exists changes that block of that row, and no other row.
pub record Rewritten (disks : List (List Bytes)) (d row : ℕ) (bs : List Bytes) (block : Bytes)
    (disks' : List (List Bytes)) : Type 0 where
  pub row_set : column row disks' ≡ ok (set bs d block)
  pub others_kept : (k : ℕ) → row ≢ k → column k disks' ≡ column k disks
  pub same_width : length disks' ≡ length disks

set_cell_at :
    (disks : List (List Bytes)) (d row : ℕ) (disk : List Bytes) (block : Bytes)
    → get_elem? disks d ≡ some disk
    → row < length disk
    → set_cell disks d row block ≡ (set disks d (set disk row block), ok tt)
unfolding set_cell
set_cell_at disks d row disk block g room = rw (g, set_cell) (rw (lt→ltb row (length disk) room))

pub set_cell-column :
    (disks : List (List Bytes)) (d row : ℕ) (bs : List Bytes) (block : Bytes)
    → column row disks ≡ ok bs
    → d < length disks
    → (disks' : List (List Bytes)) × (set_cell disks d row block ≡ (disks', ok tt))
      × Rewritten disks d row bs block disks'
set_cell-column disks d row bs block h l =
    let (disk, g) = get_elem?-lt d disks l in
    let room : row < length disk = cell_lt disks d row disk bs g h in
    (
      set disks d (set disk row block),
      set_cell_at disks d row disk block g room,
      record {
        row_set = column-set_self disks d row disk bs block g room h;
        others_kept = λ k n. column-set_ne disks d row k disk block g n;
        same_width = length-set disks d (set disk row block);
      },
    )
