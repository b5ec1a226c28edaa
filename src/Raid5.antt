-- ===== src/Raid5.antt =====
-- raid5.py: the RAID-5 array. Each method has the loops, tests and errors of the source; printing
-- and the demo are left out. The proofs are in the modules below.
pub mod Parity
pub mod Rows
pub mod Cells
pub mod Overwrite
pub mod Array
pub mod Failure
pub mod Slices
pub mod Striping
pub mod Writing
pub mod RoundTrip
pub mod Layout
use cloudmer_cloud_storage.Prelude.{
  ℕ, zero, suc, ◌+◌, ◌-◌, ◌*◌, ◌/◌, ◌%◌, bit_xor, true, false, Option, none, some, List, [], ◌∷◌,
  ◌++◌, ltb, leb, ◌==◌, if◌then◌else◌, length, get_elem?, set, take, drop, replicate, Bytes, Error,
  Result, ok, err, value_error, index_error, zero_division, stop_iteration, ◌>>=◌,
}

-- `for i in range(len(result)): result[i] ^= arr[i]`
pub xor_into : Bytes → Bytes → Result Bytes
xor_into [] arr = ok []
xor_into (x ∷ result) [] = err index_error
xor_into (x ∷ result) (y ∷ arr) = do rest ← xor_into result arr; ok (bit_xor x y ∷ rest)

pub xor_rest : Bytes → List Bytes → Result Bytes
xor_rest result [] = ok result
xor_rest result (arr ∷ arrays) = do r ← xor_into result arr; xor_rest r arrays

unfoldable pub xor_bytes : List Bytes → Result Bytes
unfolding xor_into xor_rest
xor_bytes [] = err index_error
xor_bytes (a ∷ arrays) = xor_rest a arrays

pub record Storage : Type 0 where
  pub num_data_disks : ℕ
  pub total_disks : ℕ
  pub stripe_size : ℕ
  pub disks : List (List Bytes)
  pub failed_disk : Option ℕ
  pub num_stripe_rows : ℕ
  pub padding : ℕ

-- `Raid5Storage(num_data_disks, stripe_size)`
unfoldable pub init : ℕ → ℕ → Result Storage
init num_data_disks stripe_size =
    if ltb num_data_disks 2
    then err value_error
    else ok (record {
      num_data_disks = num_data_disks;
      total_disks = num_data_disks + 1;
      stripe_size = stripe_size;
      disks = replicate (num_data_disks + 1) [];
      failed_disk = none;
      num_stripe_rows = 0;
      padding = 0;
    })

-- `data[lo:hi]` for `lo <= hi`
unfoldable pub slice : Bytes → ℕ → ℕ → Bytes
slice bytes lo hi = take (hi - lo) (drop lo bytes)

-- The data blocks of a row: `n` blocks are left, and `d` is the next.
unfoldable pub data_blocks : Bytes → ℕ → ℕ → ℕ → ℕ → List Bytes
unfolding slice
data_blocks bytes row_offset stripe_size zero d = []
data_blocks bytes row_offset stripe_size (suc n) d =
    slice bytes (row_offset + d * stripe_size) (row_offset + (d + 1) * stripe_size)
    ∷ data_blocks bytes row_offset stripe_size n (d + 1)

abbrev pub parity_disk : ℕ → ℕ → ℕ
parity_disk total_disks row = total_disks - 1 - row % total_disks

-- The loop over the disks of one row, from disk `disk_idx` on. What was appended before
-- `next(data_iter)` raises stays appended.
pub place : ℕ → ℕ → Bytes → List Bytes → List (List Bytes) → List (List Bytes) × Result (Unit {0})
place disk_idx parity block iter [] = ([], ok tt)
place disk_idx parity block iter (disk ∷ disks) = elim (disk_idx == parity) [
  | true ↦
      let (rest, r) = place (disk_idx + 1) parity block iter disks in
      ((disk ++ block ∷ []) ∷ rest, r)
  | false ↦ elim iter [
    | [] ↦ (disk ∷ disks, err stop_iteration)
    | b ∷ more ↦
        let (rest, r) = place (disk_idx + 1) parity block more disks in ((disk ++ b ∷ []) ∷ rest, r)
  ]
]

-- Goes on with the loop unless the body raised.
abbrev pub continue :
    List (List Bytes) × Result (Unit {0})
    → (List (List Bytes) → List (List Bytes) × Result (Unit {0}))
    → List (List Bytes) × Result (Unit {0})
continue (disks, ok _) k = k disks
continue (disks, err e) k = (disks, err e)

-- The loop over the stripe rows: `n` rows are left, and `row` is the next.
pub write_rows : Storage → Bytes → ℕ → ℕ → List (List Bytes) → List (List Bytes) × Result (Unit {0})
unfolding data_blocks place xor_bytes
write_rows s bytes zero row disks = (disks, ok tt)
write_rows s bytes (suc n) row disks =
    let blocks =
      data_blocks bytes (row * (s.num_data_disks * s.stripe_size)) s.stripe_size s.num_data_disks
        0 in
    elim (xor_bytes blocks) [
      | err e ↦ (disks, err e)
      | ok block ↦
          continue (place 0 (parity_disk s.total_disks row) block blocks disks)
            λ disks'. write_rows s bytes n (row + 1) disks'
    ]

-- The bytes added so that the data fills whole rows.
abbrev pub padding_of : ℕ → ℕ → ℕ
padding_of total_data_bytes size =
    let remainder = size % total_data_bytes in
    if remainder == 0 then 0 else total_data_bytes - remainder

-- `write`. The failed disk is not touched, and a stripe size of 0 raises after the reset.
unfoldable pub write : Storage → Bytes → Storage × Result (Unit {0})
unfolding write_rows
write s bytes =
    let cleared : Storage = record s {
      disks = replicate s.total_disks [];
      num_stripe_rows = 0;
      padding = 0;
    } in
    let total_data_bytes = s.num_data_disks * s.stripe_size in
    let padding = padding_of total_data_bytes (length bytes) in
    let padded = bytes ++ replicate padding 0 in
    let num_rows = length padded / total_data_bytes in
    if total_data_bytes == 0
    then (cleared, err zero_division)
    else (let (disks, r) = write_rows s padded num_rows 0 cleared.disks in
        (record s { disks = disks; num_stripe_rows = num_rows; padding = padding }, r))

-- `self.disks[d][row]`
pub index : List Bytes → ℕ → Result Bytes
index disk row = elim (get_elem? disk row) [ none ↦ err index_error | some b ↦ ok b ]

-- `[self.disks[d][row] for d in range(self.total_disks)]`
pub column : ℕ → List (List Bytes) → Result (List Bytes)
unfolding index
column row [] = ok []
column row (disk ∷ disks) = do b ← index disk row; bs ← column row disks; ok (b ∷ bs)

-- The elements whose index is not `f`; `i` is the index of the first.
pub others {ℓ} : {A : Type ℓ} → ℕ → ℕ → List A → List A
others i f [] = []
others i f (b ∷ bs) = let rest = others (i + 1) f bs in if i == f then rest else b ∷ rest

-- Rebuilds the block of the failed disk, if there is one. A write past the end raises.
pub rebuild : Option ℕ → List Bytes → Result (List Bytes)
unfolding others xor_bytes
rebuild none row_blocks = ok row_blocks
rebuild (some f) row_blocks = do
  rebuilt ← xor_bytes (others 0 f row_blocks)
  if ltb f (length row_blocks) then ok (set row_blocks f rebuilt) else err index_error

abbrev pub joined : List Bytes → Bytes
joined [] = []
joined (b ∷ bs) = b ++ joined bs

-- The loop over the stripe rows in `read`.
pub read_rows : Storage → ℕ → ℕ → Result Bytes
unfolding column rebuild
read_rows s zero row = ok []
read_rows s (suc n) row = do
  stored ← column row s.disks
  row_blocks ← rebuild s.failed_disk stored
  rest ← read_rows s n (row + 1)
  ok (joined (others 0 (parity_disk s.total_disks row) row_blocks) ++ rest)

unfoldable pub read : Storage → Result Bytes
unfolding read_rows
read s = do
  result ← read_rows s s.num_stripe_rows 0
  ok (if s.padding == 0 then result else take (length result - s.padding) result)

-- `self.disks[d][row] = block`
pub set_cell : List (List Bytes) → ℕ → ℕ → Bytes → List (List Bytes) × Result (Unit {0})
set_cell disks d row block = elim (get_elem? disks d) [
  | none ↦ (disks, err index_error)
  | some disk ↦
      if ltb row (length disk)
      then (set disks d (set disk row block), ok tt)
      else (disks, err index_error)
]

pub zero_rows : ℕ → Bytes → ℕ → ℕ → List (List Bytes) → List (List Bytes) × Result (Unit {0})
unfolding set_cell
zero_rows f blank zero row disks = (disks, ok tt)
zero_rows f blank (suc n) row disks =
    continue (set_cell disks f row blank) λ disks'. zero_rows f blank n (row + 1) disks'

unfoldable pub simulate_disk_failure : Storage → ℕ → Storage × Result (Unit {0})
unfolding zero_rows
simulate_disk_failure s disk_index =
    if leb s.total_disks disk_index
    then (s, err index_error)
    else (let (disks, r) =
          zero_rows disk_index (replicate s.stripe_size 0) s.num_stripe_rows 0 s.disks in
        (record s { disks = disks; failed_disk = some disk_index }, r))

pub recover_rows : ℕ → ℕ → ℕ → List (List Bytes) → List (List Bytes) × Result (Unit {0})
unfolding set_cell column others xor_bytes
recover_rows f zero row disks = (disks, ok tt)
recover_rows f (suc n) row disks =
    elim (do surviving ← column row (others 0 f disks); xor_bytes surviving) [
      | err e ↦ (disks, err e)
      | ok block ↦ continue (set_cell disks f row block) λ disks'. recover_rows f n (row + 1) disks'
    ]

-- The end of `recover_disk`. An exception leaves the disk marked as failed.
abbrev pub recovered : Storage → List (List Bytes) × Result (Unit {0}) → Storage × Result (Unit {0})
recovered s (disks, err e) = (record s { disks = disks }, err e)
recovered s (disks, ok _) = (record s { disks = disks; failed_disk = none }, ok tt)

pub recover_failed : Storage → ℕ → Storage × Result (Unit {0})
unfolding recover_rows
recover_failed s f = recovered s (recover_rows f s.num_stripe_rows 0 s.disks)

unfoldable pub recover_disk : Storage → Storage × Result (Unit {0})
unfolding recover_failed
recover_disk s = elim s.failed_disk [ none ↦ (s, ok tt) | some f ↦ recover_failed s f ]
