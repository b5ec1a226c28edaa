-- ===== src/Raid5/Array.antt =====
-- The array as a sequence of stripe rows: an invariant under which one disk may be lost, and the
-- methods of raid5.py that keep it.
use cloudmer_cloud_storage.Prelude.{
  ℕ, zero, suc, ◌+◌, ◌-◌, ◌≤◌, ◌<◌, ◌≡◌, refl, ap, ◌∙◌, sym, List, [], ◌∷◌, ◌++◌, Option, some,
  none, arith, ◌==◌, take, length, length-set, get_elem?, set, replicate, Bytes, Result, ok, err,
  ◌>>=◌, if◌then◌else◌, lt→ltb,
}
use cloudmer_cloud_storage.Raid5.{
  Storage, column, others, rebuild, joined, parity_disk, read_rows, read, xor_bytes,
}
use cloudmer_cloud_storage.Raid5.Parity.{
  AllLength, xor_all, xor_bytes-xor_all, remove_at, xor_others, AllLength-remove_at,
}
use cloudmer_cloud_storage.Raid5.Rows.{
  others-remove_at, length-remove_at, remove_at-set, set-set, set-get_elem?, get_elem?-lt,
}

-- What a read of row `row` gives: the row itself, but for the block of a failed disk.
abbrev pub Lost : Option ℕ → List Bytes → Result (List Bytes) → Type 0
Lost none row stored = stored ≡ ok row
Lost (some f) row stored = (v : Bytes) × (stored ≡ ok (set row f v))

-- A stripe row of blocks of one length that xor to zeros, the parity block among them.
pub record IsStripe (total size : ℕ) (row : List Bytes) : Type 0 where
  pub width : length row ≡ total
  pub sized : AllLength size row
  pub parity : xor_all size row ≡ replicate size 0

pub record Holds (s : Storage) (rows : ℕ → List Bytes) : Type 0 where
  pub wide : 2 ≤ s.total_disks
  pub all_disks : length s.disks ≡ s.total_disks
  pub in_range : (f : ℕ) → s.failed_disk ≡ some f → f < s.total_disks
  pub stripes : (k : ℕ) → k < s.num_stripe_rows → IsStripe s.total_disks s.stripe_size (rows k)
  pub cells : (k : ℕ) → k < s.num_stripe_rows → Lost s.failed_disk (rows k) (column k s.disks)

AllLength-get_elem? :
    (n k : ℕ) (b : Bytes) (bs : List Bytes)
    → AllLength n bs
    → get_elem? bs k ≡ some b
    → length b ≡ n
AllLength-get_elem? n k b [] h g = cc
AllLength-get_elem? n zero b (c ∷ bs) h g = let e : c ≡ b = cc in rw e at h.0
AllLength-get_elem? n (suc k) b (c ∷ bs) h g = AllLength-get_elem? n k b bs h.1 g

xor_bytes_some :
    (n : ℕ) (bs : List Bytes) → 0 < length bs → AllLength n bs → xor_bytes bs ≡ ok (xor_all n bs)
xor_bytes_some n [] l h = absurd (omega arith)
xor_bytes_some n (b ∷ bs) l h = xor_bytes-xor_all n b bs h

abbrev pub block_at : ℕ → List Bytes → Bytes
block_at f row = elim (get_elem? row f) [ none ↦ [] | some b ↦ b ]

-- The other blocks of a stripe, whatever stands in place of the lost one, give the lost block.
pub xor_bytes-others :
    (total size f : ℕ) (row : List Bytes) (v : Bytes)
    → IsStripe total size row
    → 2 ≤ total
    → f < total
    → (xor_bytes (others 0 f (set row f v)) ≡ ok (block_at f row))
      × (get_elem? row f ≡ some (block_at f row))
xor_bytes-others total size f row v st wide l =
    let (b, at) = get_elem?-lt f row (omega (arith, st.width)) in
    let found : block_at f row ≡ b =
      ap (λ (o : Option Bytes). elim o [ none ↦ [] | some x ↦ x ]) at in
    (
      rw (others-remove_at f (set row f v), remove_at-set f v row, found)
          (xor_bytes_some size (remove_at f row)
              (omega (arith, st.width, length-remove_at f row (omega (arith, st.width))))
              (AllLength-remove_at size f row st.sized)
            ∙ ap ok (
                xor_others size f b row st.sized (AllLength-get_elem? size f b row st.sized at) at
                  st.parity)),
      at ∙ ap some (sym found),
    )

rebuild-set :
    (total size f : ℕ) (row : List Bytes) (v : Bytes)
    → IsStripe total size row
    → 2 ≤ total
    → f < total
    → rebuild (some f) (set row f v) ≡ ok row
unfolding rebuild
rebuild-set total size f row v st wide l =
    let (x, at) = xor_bytes-others total size f row v st wide l in
    rw (x, lt→ltb f (length (set row f v)) (omega (arith, st.width, length-set row f v)))
      (ap ok (set-set f v (block_at f row) row ∙ set-get_elem? f (block_at f row) row at))

-- Rebuilding the failed disk gives the row back.
rebuild-Lost :
    (total size : ℕ) (o : Option ℕ) (row : List Bytes) (c : Result (List Bytes))
    → IsStripe total size row
    → 2 ≤ total
    → ((f : ℕ) → o ≡ some f → f < total)
    → Lost o row c
    → (c >>= rebuild o) ≡ ok row
unfolding rebuild
rebuild-Lost total size none row c st wide r h = rw h
rebuild-Lost total size (some f) row c st wide r (v, e) =
    rw e (rebuild-set total size f row v st wide (r f refl))

-- The data blocks of `n` rows from `row` on.
abbrev pub contents : ℕ → (ℕ → List Bytes) → ℕ → ℕ → Bytes
contents total rows zero row = []
contents total rows (suc n) row =
    joined (others 0 (parity_disk total row) (rows row)) ++ contents total rows n (row + 1)

read_rows-contents :
    (s : Storage) (rows : ℕ → List Bytes) (n row : ℕ)
    → Holds s rows
    → row + n ≤ s.num_stripe_rows
    → read_rows s n row ≡ ok (contents s.total_disks rows n row)
unfolding read_rows
read_rows-contents s rows zero row h l = refl
read_rows-contents s rows (suc n) row h l =
    read_row (column row s.disks)
      (rebuild-Lost s.total_disks s.stripe_size s.failed_disk (rows row) (column row s.disks)
        (h.stripes row (omega arith)) h.wide h.in_range (h.cells row (omega arith)))
      (read_rows-contents s rows n (row + 1) h (omega arith))
  where
    read_row :
        (c : Result (List Bytes))
        → (c >>= rebuild s.failed_disk) ≡ ok (rows row)
        → read_rows s n (row + 1) ≡ ok (contents s.total_disks rows n (row + 1))
        → (do
          stored ← c
          row_blocks ← rebuild s.failed_disk stored
          rest ← read_rows s n (row + 1)
          ok (joined (others 0 (parity_disk s.total_disks row) row_blocks) ++ rest))
          ≡ ok (contents s.total_disks rows (suc n) row)
    read_row (ok stored) e ih = rw e (rw ih)
    read_row (err x) e ih = cc

abbrev pub unpadded : ℕ → Bytes → Bytes
unpadded padding bytes = if padding == 0 then bytes else take (length bytes - padding) bytes

-- Whichever disk has failed, `read` returns the data of the stripes without the padding.
pub read-Holds :
    (s : Storage) (rows : ℕ → List Bytes)
    → Holds s rows
    → read s ≡ ok (unpadded s.padding (contents s.total_disks rows s.num_stripe_rows 0))
unfolding read
read-Holds s rows h = rw (read_rows-contents s rows s.num_stripe_rows 0 h (omega arith))
