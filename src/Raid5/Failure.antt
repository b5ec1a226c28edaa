-- ===== src/Raid5/Failure.antt =====
-- `simulate_disk_failure` and `recover_disk` keep the stripe rows of the array.
use cloudmer_cloud_storage.Prelude.{
  ℕ, ◌≤◌, ◌<◌, ◌≡◌, refl, ap, ◌∙◌, List, Option, some, none, arith, leb, set, replicate, Bytes, ok,
  Bool-cases, Option-cases, inl, inr,
}
use cloudmer_cloud_storage.Raid5.{
  Storage, column, zero_rows, recover_rows, simulate_disk_failure, recover_failed, recover_disk,
}
use cloudmer_cloud_storage.Raid5.Rows.{set-set, set-get_elem?}
use cloudmer_cloud_storage.Raid5.Overwrite.{
  Overwritten, Stored, Rebuilt, blank_row, zero_rows-Overwritten, recover_rows-Overwritten,
}
use cloudmer_cloud_storage.Raid5.Array.{Lost, IsStripe, Holds, block_at, xor_bytes-others}

-- One disk at a time: a disk may fail if none has, or if it is the one that has.
abbrev pub MayFail : Option ℕ → ℕ → Type 0
MayFail none f = Unit
MayFail (some g) f = g ≡ f

Lost-Stored :
    (o : Option ℕ) (row : List Bytes) (disks : List (List Bytes)) (k : ℕ)
    → Lost o row (column k disks)
    → Stored disks k
Lost-Stored none row disks k h = (row, h)
Lost-Stored (some f) row disks k (v, e) = (set row f v, e)

Lost-overwritten :
    (o : Option ℕ) (f k : ℕ) (row : List Bytes) (blank : Bytes) (disks disks' : List (List Bytes))
    → MayFail o f
    → ((bs : List Bytes) → column k disks ≡ ok bs → column k disks' ≡ ok (set bs f blank))
    → Lost o row (column k disks)
    → Lost (some f) row (column k disks')
Lost-overwritten none f k row blank disks disks' m w h = (blank, w row h)
Lost-overwritten (some g) f k row blank disks disks' m w (v, e) =
    let changed : column k disks' ≡ ok (set (set row g v) f blank) = w (set row g v) e in
    (blank, changed ∙ rw m (ap ok (set-set f v blank row)))

simulate_unfolds :
    (s : Storage) (f : ℕ) (disks' : List (List Bytes))
    → f < s.total_disks
    → zero_rows f (replicate s.stripe_size 0) s.num_stripe_rows 0 s.disks ≡ (disks', ok tt)
    → simulate_disk_failure s f ≡ (record s { disks = disks'; failed_disk = some f }, ok tt)
unfolding simulate_disk_failure
simulate_unfolds s f disks' l run = elim (Bool-cases (leb s.total_disks f)) [
  | inl past ↦ absurd (ground arith)
  | inr inside ↦ rw inside (rw run)
]

module _ (s : Storage) (rows : ℕ → List Bytes) (h : Holds s rows) where
  failed-Holds :
      (f : ℕ) (disks' : List (List Bytes))
      → MayFail s.failed_disk f
      → f < s.total_disks
      → Overwritten f (blank_row (replicate s.stripe_size 0)) s.num_stripe_rows 0 s.disks disks'
      → Holds (record s { disks = disks'; failed_disk = some f }) rows
  failed-Holds f disks' m l o = record {
    wide = h.wide;
    all_disks = o.width_kept ∙ h.all_disks;
    in_range = λ g e. let same : f ≡ g = cc in rw (← same) l;
    stripes = h.stripes;
    cells = λ k q.
        Lost-overwritten s.failed_disk f k (rows k) (replicate s.stripe_size 0) s.disks disks' m
          (λ bs e. o.changed k bs (omega arith) (omega arith) e) (h.cells k q);
  }

  -- The loss of one disk: no row raises, and the other blocks still hold every stripe.
  pub simulate_disk_failure-Holds :
      (f : ℕ)
      → MayFail s.failed_disk f
      → f < s.total_disks
      → ((simulate_disk_failure s f).1 ≡ ok tt) × Holds (simulate_disk_failure s f).0 rows
  simulate_disk_failure-Holds f m l =
      let blank : Bytes = replicate s.stripe_size 0 in
      let (disks', run, o) =
        zero_rows-Overwritten f blank s.num_stripe_rows 0 s.disks (omega (arith, h.all_disks))
          (λ k p q. Lost-Stored s.failed_disk (rows k) s.disks k (h.cells k (omega arith))) in
      rw (simulate_unfolds s f disks' l run) (refl, failed-Holds f disks' m l o)

recover_unfolds :
    (s : Storage) (f : ℕ) (disks' : List (List Bytes))
    → s.failed_disk ≡ some f
    → recover_rows f s.num_stripe_rows 0 s.disks ≡ (disks', ok tt)
    → recover_disk s ≡ (record s { disks = disks'; failed_disk = none }, ok tt)
unfolding recover_disk
recover_unfolds s f disks' e run = rw (e, recover_disk) (rw (run, recover_failed))

-- A failed disk's rows are rebuilt to what they held.
Lost-Rebuilt :
    (total size f k : ℕ) (rows : ℕ → List Bytes) (disks : List (List Bytes))
    → IsStripe total size (rows k)
    → 2 ≤ total
    → f < total
    → Lost (some f) (rows k) (column k disks)
    → Rebuilt f (λ i. block_at f (rows i)) disks k
Lost-Rebuilt total size f k rows disks st wide l (v, e) =
    (set (rows k) f v, e, (xor_bytes-others total size f (rows k) v st wide l).0)

recovered_row :
    (total size f k : ℕ) (row : List Bytes) (disks disks' : List (List Bytes))
    → IsStripe total size row
    → 2 ≤ total
    → f < total
    → ((bs : List Bytes)
        → column k disks ≡ ok bs
        → column k disks' ≡ ok (set bs f (block_at f row)))
    → Lost (some f) row (column k disks)
    → column k disks' ≡ ok row
recovered_row total size f k row disks disks' st wide l w (v, e) =
    w (set row f v) e
    ∙ ap ok (
        set-set f v (block_at f row) row
        ∙ set-get_elem? f (block_at f row) row (xor_bytes-others total size f row v st wide l).1)

module _ (s : Storage) (rows : ℕ → List Bytes) (h : Holds s rows) (f : ℕ)
    (failed : s.failed_disk ≡ some f) where
  Lost-cells : (k : ℕ) → k < s.num_stripe_rows → Lost (some f) (rows k) (column k s.disks)
  Lost-cells k q = rw failed at (h.cells k q)

  recovered-Holds :
      (disks' : List (List Bytes))
      → Overwritten f (λ i. block_at f (rows i)) s.num_stripe_rows 0 s.disks disks'
      → Holds (record s { disks = disks'; failed_disk = none }) rows
  recovered-Holds disks' o = record {
    wide = h.wide;
    all_disks = o.width_kept ∙ h.all_disks;
    in_range = λ g e. cc;
    stripes = h.stripes;
    cells = λ k q.
        recovered_row s.total_disks s.stripe_size f k (rows k) s.disks disks' (h.stripes k q) h.wide
          (h.in_range f failed) (λ bs e. o.changed k bs (omega arith) (omega arith) e)
          (Lost-cells k q);
  }

  recover_disk-Holds_failed :
      ((recover_disk s).1 ≡ ok tt)
      × ((recover_disk s).0.failed_disk ≡ none)
      × Holds (recover_disk s).0 rows
  recover_disk-Holds_failed =
      let (disks', run, o) =
        recover_rows-Overwritten f (λ i. block_at f (rows i)) s.num_stripe_rows 0 s.disks
          (omega (arith, h.all_disks, h.in_range f failed))
          (λ k p q.
            Lost-Rebuilt s.total_disks s.stripe_size f k rows s.disks (h.stripes k (omega arith))
              h.wide (h.in_range f failed) (Lost-cells k (omega arith))) in
      rw (recover_unfolds s f disks' failed run) (refl, refl, recovered-Holds disks' o)

recover_disk-healthy : (s : Storage) → s.failed_disk ≡ none → recover_disk s ≡ (s, ok tt)
unfolding recover_disk
recover_disk-healthy s e =
    ap (λ (o : Option ℕ). elim o [ none ↦ (s, ok tt) | some f ↦ recover_failed s f ]) e

-- `recover_disk` never raises on such an array, leaves no disk failed, and keeps every stripe.
pub recover_disk-Holds :
    (s : Storage) (rows : ℕ → List Bytes)
    → Holds s rows
    → ((recover_disk s).1 ≡ ok tt)
      × ((recover_disk s).0.failed_disk ≡ none)
      × Holds (recover_disk s).0 rows
recover_disk-Holds s rows h = elim (Option-cases s.failed_disk) [
  | inl healthy ↦ rw (recover_disk-healthy s healthy) (refl, healthy, h)
  | inr (f, failed) ↦ recover_disk-Holds_failed s rows h f failed
]
