-- ===== src/Raid5/Overwrite.antt =====
-- The loops over the stripe rows in `simulate_disk_failure` and `recover_disk`: each writes one
-- block of each row.
use cloudmer_cloud_storage.Prelude.{
  ℕ, zero, suc, ◌+◌, ◌≤◌, ◌<◌, ◌≡◌, ◌≢◌, refl, ◌∙◌, List, arith, ◌==◌, length, set, Bytes, ok,
  Bool-cases, inl, inr, ==_iff,
}
use cloudmer_cloud_storage.Raid5.{column, others, set_cell, zero_rows, recover_rows, xor_bytes}
use cloudmer_cloud_storage.Raid5.Cells.{Rewritten, set_cell-column, column-others}

module _ (f : ℕ) (w : ℕ → Bytes) where
  -- In the rows `row` to `row + n - 1` the block of disk `f` is `w k`, and earlier rows are kept.
  pub record Overwritten (n row : ℕ) (disks disks' : List (List Bytes)) : Type 0 where
    pub changed :
        (k : ℕ) (bs : List Bytes)
        → row ≤ k
        → k < row + n
        → column k disks ≡ ok bs
        → column k disks' ≡ ok (set bs f (w k))
    pub kept : (k : ℕ) → k < row → column k disks' ≡ column k disks
    pub width_kept : length disks' ≡ length disks

  Overwritten-done : (row : ℕ) (disks : List (List Bytes)) → Overwritten 0 row disks disks
  Overwritten-done row disks = record {
    changed = λ k bs p q h. absurd (omega arith);
    kept = λ k l. refl;
    width_kept = refl;
  }

  changed_at :
      (row : ℕ) {disks disks₁ disks' : List (List Bytes)} (n k : ℕ) (bs bs₁ : List Bytes)
      → column row disks ≡ ok bs
      → Rewritten disks f row bs (w row) disks₁
      → Overwritten n (row + 1) disks₁ disks'
      → row ≤ k
      → k < row + suc n
      → column k disks ≡ ok bs₁
      → column k disks' ≡ ok (set bs₁ f (w k))
  changed_at row n k bs bs₁ h r o p q e = elim (Bool-cases (row == k)) [
    | inl same ↦
        let at : row ≡ k = (==_iff row k).0 same in
        let eq : bs ≡ bs₁ = cc (h, e, at) in
        rw (← at) (o.kept row (omega arith) ∙ r.row_set ∙ rw eq)
    | inr differ ↦
        let apart : row ≢ k = λ z. cc ((==_iff row k).1 z) in
        o.changed k bs₁ (omega arith) (omega arith) (r.others_kept k apart ∙ e)
  ]

  Overwritten-step :
      (row n : ℕ) {disks disks₁ disks' : List (List Bytes)} (bs : List Bytes)
      → column row disks ≡ ok bs
      → Rewritten disks f row bs (w row) disks₁
      → Overwritten n (row + 1) disks₁ disks'
      → Overwritten (suc n) row disks disks'
  Overwritten-step row n bs h r o = record {
    changed = λ k bs₁ p q e. changed_at row n k bs bs₁ h r o p q e;
    kept = λ k l. o.kept k (omega arith) ∙ r.others_kept k (λ z. omega arith);
    width_kept = o.width_kept ∙ r.same_width;
  }

  -- A row that is not rewritten yet reads as before.
  later :
      (row n k : ℕ) {disks disks₁ : List (List Bytes)} (bs : List Bytes)
      → Rewritten disks f row bs (w row) disks₁
      → row + 1 ≤ k
      → column k disks₁ ≡ column k disks
  later row n k bs r p = r.others_kept k (λ z. omega arith)

abbrev pub blank_row : Bytes → ℕ → Bytes
blank_row blank k = blank

zero_rows-step :
    (f : ℕ) (blank : Bytes) (n row : ℕ) (disks disks₁ : List (List Bytes))
    → set_cell disks f row blank ≡ (disks₁, ok tt)
    → zero_rows f blank (suc n) row disks ≡ zero_rows f blank n (row + 1) disks₁
unfolding zero_rows
zero_rows-step f blank n row disks disks₁ h = rw (h, zero_rows)

abbrev pub Stored : List (List Bytes) → ℕ → Type 0
Stored disks k = (bs : List Bytes) × (column k disks ≡ ok bs)

pub zero_rows-Overwritten :
    (f : ℕ) (blank : Bytes) (n row : ℕ) (disks : List (List Bytes))
    → f < length disks
    → ((k : ℕ) → row ≤ k → k < row + n → Stored disks k)
    → (disks' : List (List Bytes)) × (zero_rows f blank n row disks ≡ (disks', ok tt))
      × Overwritten f (blank_row blank) n row disks disks'
unfolding zero_rows
zero_rows-Overwritten f blank zero row disks l h =
    (disks, refl, Overwritten-done f (blank_row blank) row disks)
zero_rows-Overwritten f blank (suc n) row disks l h =
    let (bs, e) = h row (omega arith) (omega arith) in
    let (disks₁, run, r) = set_cell-column disks f row bs blank e l in
    let (disks', run', o) =
      zero_rows-Overwritten f blank n (row + 1) disks₁ (omega (arith, r.same_width)) (λ k p q.
        let (bs', e') = h k (omega arith) (omega arith) in
        (bs', later f (blank_row blank) row n k bs r p ∙ e')) in
    (
      disks',
      zero_rows-step f blank n row disks disks₁ run ∙ run',
      Overwritten-step f (blank_row blank) row n bs e r o,
    )

-- The block that `recover_disk` writes to row `k`.
abbrev pub Rebuilt : ℕ → (ℕ → Bytes) → List (List Bytes) → ℕ → Type 0
Rebuilt f w disks k =
    (bs : List Bytes) × (column k disks ≡ ok bs) × (xor_bytes (others 0 f bs) ≡ ok (w k))

recover_rows-step :
    (f n row : ℕ) (disks disks₁ : List (List Bytes)) (bs : List Bytes) (block : Bytes)
    → column row (others 0 f disks) ≡ ok bs
    → xor_bytes bs ≡ ok block
    → set_cell disks f row block ≡ (disks₁, ok tt)
    → recover_rows f (suc n) row disks ≡ recover_rows f n (row + 1) disks₁
unfolding recover_rows
recover_rows-step f n row disks disks₁ bs block c x h = rw (c, recover_rows) (rw x (rw h))

pub recover_rows-Overwritten :
    (f : ℕ) (w : ℕ → Bytes) (n row : ℕ) (disks : List (List Bytes))
    → f < length disks
    → ((k : ℕ) → row ≤ k → k < row + n → Rebuilt f w disks k)
    → (disks' : List (List Bytes)) × (recover_rows f n row disks ≡ (disks', ok tt))
      × Overwritten f w n row disks disks'
unfolding recover_rows
recover_rows-Overwritten f w zero row disks l h = (disks, refl, Overwritten-done f w row disks)
recover_rows-Overwritten f w (suc n) row disks l h =
    let (bs, e, x) = h row (omega arith) (omega arith) in
    let (disks₁, run, r) = set_cell-column disks f row bs (w row) e l in
    let (disks', run', o) =
      recover_rows-Overwritten f w n (row + 1) disks₁ (omega (arith, r.same_width)) (λ k p q.
        let (bs', e', x') = h k (omega arith) (omega arith) in
        (bs', later f w row n k bs r p ∙ e', x')) in
    (
      disks',
      recover_rows-step f n row disks disks₁ (others 0 f bs) (w row)
            (column-others row f disks bs e) x run
          ∙ run',
      Overwritten-step f w row n bs e r o,
    )
