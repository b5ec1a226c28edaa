-- ===== src/Raid5/Writing.antt =====
-- `write` of raid5.py: the padding, and what the array stores afterwards.
use native.Mathlib.Nat.{mod-lt, div-add-mod', div-eq_of_eq-mul_left}
use cloudmer_cloud_storage.Prelude.{
  ℕ, zero, suc, ◌+◌, ◌-◌, ◌*◌, ◌/◌, ◌%◌, ◌≤◌, ◌<◌, ◌≡◌, refl, ap, ◌∙◌, sym, List, [], ◌∷◌, ◌++◌,
  Option, some, none, false, arith, ◌==◌, set, length, length-append, length-replicate, take-append,
  append-nil, replicate, Bytes, Result, ok, Bool-cases, inl, inr, ==_iff,
}
use cloudmer_cloud_storage.Raid5.{Storage, write, write_rows, padding_of, slice, column}
use cloudmer_cloud_storage.Raid5.Parity.{AllLength}
use cloudmer_cloud_storage.Raid5.Slices.{slice-all}
use cloudmer_cloud_storage.Raid5.Array.{Holds, block_at, contents, unpadded, Lost}
use cloudmer_cloud_storage.Raid5.Striping.{
  IsShaped, Written, stripe_of, row_bytes, stripe_of-IsStripe, write_rows-Written,
  contents-stripe_of,
}

-- An array as `Raid5Storage` makes it, with a stripe size that `write` accepts.
pub record IsArray (s : Storage) : Type 0 where
  pub shaped : IsShaped s
  pub striped : 0 < s.stripe_size
  pub in_range : (f : ℕ) → s.failed_disk ≡ some f → f < s.total_disks

abbrev padded : Storage → Bytes → Bytes
padded s bytes = bytes ++ replicate (padding_of (row_bytes s bytes) (length bytes)) 0

abbrev rows_for : Storage → Bytes → ℕ
rows_for s bytes = length (padded s bytes) / row_bytes s bytes

row_bytes_pos : (s : Storage) (bytes : Bytes) → IsArray s → 0 < row_bytes s bytes
row_bytes_pos s bytes a = grind (arith, a.striped, a.shaped.two_data)

length-padded :
    (s : Storage) (bytes : Bytes)
    → length (padded s bytes) ≡ length bytes + padding_of (row_bytes s bytes) (length bytes)
length-padded s bytes =
    length-append bytes (replicate (padding_of (row_bytes s bytes) (length bytes)) 0)
    ∙ ap (λ k. length bytes + k)
        (length-replicate (padding_of (row_bytes s bytes) (length bytes)) 0)

padded_size : (total size : ℕ) → 0 < total → (q : ℕ) × (size + padding_of total size ≡ q * total)
padded_size total size h = elim (Bool-cases (size % total == 0)) [
  | inl whole ↦ (
    size / total,
    rw whole (grind (arith, div-add-mod' size total, (==_iff (size % total) 0).0 whole)),
  )
  | inr part ↦ (size / total + 1, rw part (grind (arith, div-add-mod' size total, mod-lt size h)))
]

-- The padded data fills its rows exactly.
rows_for-mul :
    (s : Storage) (bytes : Bytes)
    → IsArray s
    → rows_for s bytes * row_bytes s bytes ≡ length (padded s bytes)
rows_for-mul s bytes a =
    let (q, e) = padded_size (row_bytes s bytes) (length bytes) (row_bytes_pos s bytes a) in
    let len : length (padded s bytes) ≡ q * row_bytes s bytes = length-padded s bytes ∙ e in
    let count : rows_for s bytes ≡ q = div-eq_of_eq-mul_left (row_bytes_pos s bytes a) len in
    rw (count, len)

write_unfolds :
    (s : Storage) (bytes : Bytes) (disks' : List (List Bytes))
    → 0 < row_bytes s bytes
    → write_rows s (padded s bytes) (rows_for s bytes) 0 (replicate s.total_disks [])
      ≡ (disks', ok tt)
    → write s bytes ≡ (
      record s {
        disks = disks';
        num_stripe_rows = rows_for s bytes;
        padding = padding_of (row_bytes s bytes) (length bytes);
      },
      ok tt,
    )
unfolding write
write_unfolds s bytes disks' pos run = elim (Bool-cases (row_bytes s bytes == 0)) [
  | inl none_fits ↦ absurd (ground arith)
  | inr fits ↦ rw fits (rw run)
]

AllLength-blank : (n : ℕ) → AllLength {A = Bytes} 0 (replicate n [])
AllLength-blank zero = tt
AllLength-blank (suc n) = (refl, AllLength-blank n)

set-block_at : (f : ℕ) (row : List Bytes) → set row f (block_at f row) ≡ row
set-block_at f [] = refl
set-block_at zero (b ∷ row) = refl
set-block_at (suc f) (b ∷ row) = ap (λ t. b ∷ t) (set-block_at f row)

Lost-any :
    (o : Option ℕ) (row : List Bytes) (stored : Result (List Bytes))
    → stored ≡ ok row
    → Lost o row stored
Lost-any none row stored e = e
Lost-any (some f) row stored e = (block_at f row, e ∙ ap ok (sym (set-block_at f row)))

-- What the array holds, apart from one failed disk, is `bytes`.
pub record Stores (s : Storage) (bytes : Bytes) : Type 0 where
  pub rows : ℕ → List Bytes
  pub holds : Holds s rows
  pub shows : unpadded s.padding (contents s.total_disks rows s.num_stripe_rows 0) ≡ bytes

unpadded-append : (p : ℕ) (bytes : Bytes) → unpadded p (bytes ++ replicate p 0) ≡ bytes
unpadded-append zero bytes = append-nil bytes
unpadded-append (suc p) bytes =
    let padded_more : (suc p == 0) ≡ false = ground arith in
    rw padded_more (
      take-append bytes (replicate (suc p) 0) (length (bytes ++ replicate (suc p) 0) - suc p) (
        omega
          (arith, length-append bytes (replicate (suc p) 0), length-replicate {A = ℕ} (suc p) 0)))

module _ (s : Storage) (bytes : Bytes) (a : IsArray s) where
  written_fits : (0 + rows_for s bytes) * row_bytes s (padded s bytes) ≤ length (padded s bytes)
  written_fits = omega (arith, rows_for-mul s bytes a)

  row_fits :
      (k : ℕ)
      → k < rows_for s bytes
      → (k + 1) * row_bytes s (padded s bytes) ≤ length (padded s bytes)
  row_fits k l = grind (arith, rows_for-mul s bytes a)

  written : List (List Bytes) → Storage
  written disks' = record s {
    disks = disks';
    num_stripe_rows = rows_for s bytes;
    padding = padding_of (row_bytes s bytes) (length bytes);
  }

  written-Holds :
      (disks' : List (List Bytes))
      → Written s (padded s bytes) (rows_for s bytes) 0 (replicate s.total_disks []) disks'
      → Holds (written disks') (stripe_of s (padded s bytes))
  unfolding written
  written-Holds disks' w = record {
    wide = omega (arith, a.shaped.one_more, a.shaped.two_data);
    all_disks = w.width_kept ∙ length-replicate s.total_disks [];
    in_range = a.in_range;
    stripes = λ k l. stripe_of-IsStripe s (padded s bytes) a.shaped k (row_fits k l);
    cells = λ k l.
        Lost-any s.failed_disk (stripe_of s (padded s bytes) k) (column k disks')
          (w.new_rows k (omega arith) (omega arith));
  }

  written-shows :
      unpadded
        (padding_of (row_bytes s bytes) (length bytes))
        (contents s.total_disks (stripe_of s (padded s bytes)) (rows_for s bytes) 0)
      ≡ bytes
  written-shows =
      ap (unpadded (padding_of (row_bytes s bytes) (length bytes))) (
        contents-stripe_of s (padded s bytes) a.shaped (rows_for s bytes) 0 written_fits
        ∙ ap (λ k. slice (padded s bytes) k ((0 + rows_for s bytes) * row_bytes s (padded s bytes)))
            (omega arith)
        ∙ slice-all (padded s bytes) ((0 + rows_for s bytes) * row_bytes s (padded s bytes))
            (omega (arith, rows_for-mul s bytes a)))
      ∙ unpadded-append (padding_of (row_bytes s bytes) (length bytes)) bytes

  pub write-Stores : ((write s bytes).1 ≡ ok tt) × Stores (write s bytes).0 bytes
  unfolding written
  write-Stores =
      let (disks', run, w) =
        write_rows-Written s (padded s bytes) a.shaped (rows_for s bytes) 0
          (replicate s.total_disks []) written_fits (length-replicate s.total_disks [])
          (AllLength-blank s.total_disks) in
      rw (write_unfolds s bytes disks' (row_bytes_pos s bytes a) run) (
        refl,
        record {
          rows = stripe_of s (padded s bytes);
          holds = written-Holds disks' w;
          shows = written-shows;
        },
      )
