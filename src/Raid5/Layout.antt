-- ===== src/Raid5/Layout.antt =====
-- Where raid5.py puts the parity blocks, and the guards of the methods.
use native.Mathlib.Nat.{mod-lt}
use cloudmer_cloud_storage.Prelude.{
  ℕ, ◌+◌, ◌-◌, ◌*◌, ◌%◌, ◌≤◌, ◌<◌, ◌≡◌, ◌↔◌, refl, [], some, none, true, arith, ltb, leb, Bytes, ok,
  err, value_error, index_error, zero_division, Bool-cases, ◌⊎◌, inl, inr, replicate, ◌==◌,
}
use cloudmer_cloud_storage.Raid5.{Storage, init, write, read, simulate_disk_failure, parity_disk}
use cloudmer_cloud_storage.Raid5.Writing.{IsArray}

-- Disk `d` holds the parity block in exactly the rows that are `total - 1 - d` modulo `total`; so
-- the parity rotates through all disks, from the last one down, in every `total` rows.
pub parity_disk_iff :
    (total row d : ℕ) → d < total → (parity_disk total row ≡ d) ↔ (row % total ≡ total - 1 - d)
parity_disk_iff total row d l = (
  λ e. omega (arith, mod-lt row (suc_pos total d l)),
  λ e. omega (arith, mod-lt row (suc_pos total d l)),
)
  where
    suc_pos : (t e : ℕ) → e < t → 0 < t
    suc_pos t e h = omega arith

-- A new array refuses fewer than two data disks. Otherwise it is well formed, empty and healthy,
-- and `read` gives no data; the stripe size is assumed to be above 0.
pub init-IsArray :
    (n size : ℕ)
    → 0 < size
    → ((n < 2) × (init n size ≡ err value_error))
      ⊎ ((s : Storage) × (init n size ≡ ok s) × IsArray s × (read s ≡ ok []))
unfolding init read
init-IsArray n size h = elim (Bool-cases (ltb n 2)) [
  | inl few ↦ inl (ground arith, rw few)
  | inr many ↦ inr (
    record {
      num_data_disks = n;
      total_disks = n + 1;
      stripe_size = size;
      disks = replicate (n + 1) [];
      failed_disk = none;
      num_stripe_rows = 0;
      padding = 0;
    },
    rw many,
    record {
      shaped = record { one_more = refl; two_data = ground arith };
      striped = h;
      in_range = λ f e. cc;
    },
    refl,
  )
]

-- A disk index out of range raises `IndexError` and changes nothing. Any other call marks that
-- disk as the failed one.
pub simulate_disk_failure_guard :
    (s : Storage) (f : ℕ)
    → ((s.total_disks ≤ f) × (simulate_disk_failure s f ≡ (s, err index_error)))
      ⊎ ((f < s.total_disks) × ((simulate_disk_failure s f).0.failed_disk ≡ some f))
unfolding simulate_disk_failure
simulate_disk_failure_guard s f = elim (Bool-cases (leb s.total_disks f)) [
  | inl past ↦ inl (ground arith, rw past)
  | inr inside ↦ inr (ground arith, rw inside)
]

-- A stripe size of 0 makes `write` raise, after it has emptied the disks.
pub write_zero_stripe :
    (s : Storage) (bytes : Bytes)
    → s.stripe_size ≡ 0
    → ((write s bytes).1 ≡ err zero_division)
      × ((write s bytes).0.disks ≡ replicate s.total_disks [])
      × ((write s bytes).0.num_stripe_rows ≡ 0)
unfolding write
write_zero_stripe s bytes e =
    let z : s.num_data_disks * s.stripe_size ≡ 0 = rw e (omega arith) in
    let t : (s.num_data_disks * s.stripe_size == 0) ≡ true = ground arith in rw t (refl, refl, refl)
