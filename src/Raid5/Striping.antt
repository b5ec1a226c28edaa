-- ===== src/Raid5/Striping.antt =====
-- The loop of `write` in raid5.py: what each stripe row holds after it.
use cloudmer_cloud_storage.Prelude.{
  ℕ, zero, suc, ◌+◌, ◌*◌, ◌≤◌, ◌<◌, ◌≡◌, ◌≢◌, refl, ap, ◌∙◌, sym, List, [], ◌∷◌, ◌++◌, arith, ◌==◌,
  length, Bytes, ok, Bool-cases, inl, inr, ==_iff,
}
use cloudmer_cloud_storage.Raid5.{
  Storage, data_blocks, joined, column, others, write_rows, parity_disk, xor_bytes, slice,
}
use cloudmer_cloud_storage.Raid5.Parity.{
  AllLength, xor_all, xor_bytes-xor_all, xor_all-parity, insert_at, length-xor_all,
  AllLength-insert_at,
}
use cloudmer_cloud_storage.Raid5.Rows.{
  others-remove_at, remove_at-insert_at, length-insert_at, append_row, place-append_row,
  length-append_row, AllLength-append_row, column-append_row_self, column-append_row_lt,
}
use cloudmer_cloud_storage.Raid5.Slices.{
  slice-append, slice_empty, length-data_blocks, data_blocks-AllLength, joined-data_blocks,
}
use cloudmer_cloud_storage.Raid5.Array.{IsStripe, contents}

-- `self.total_disks` is one more than the data disks, of which there are at least two.
pub record IsShaped (s : Storage) : Type 0 where
  pub one_more : s.total_disks ≡ s.num_data_disks + 1
  pub two_data : 2 ≤ s.num_data_disks

module _ (s : Storage) (bytes : Bytes) where
  abbrev pub row_bytes : ℕ
  row_bytes = s.num_data_disks * s.stripe_size

  abbrev pub blocks_of : ℕ → List Bytes
  blocks_of row = data_blocks bytes (row * row_bytes) s.stripe_size s.num_data_disks 0

  abbrev parity_of : ℕ → Bytes
  parity_of row = xor_all s.stripe_size (blocks_of row)

  -- The row that `write` lays out: the data blocks with the parity block put in among them.
  abbrev pub stripe_of : ℕ → List Bytes
  stripe_of row = insert_at (parity_disk s.total_disks row) (parity_of row) (blocks_of row)

  pub record Written (n row : ℕ) (disks disks' : List (List Bytes)) : Type 0 where
    pub new_rows : (k : ℕ) → row ≤ k → k < row + n → column k disks' ≡ ok (stripe_of k)
    pub old_rows : (k : ℕ) → k < row → column k disks' ≡ column k disks
    pub width_kept : length disks' ≡ length disks

  module _ (shaped : IsShaped s) where
    parity_in_range : (row : ℕ) → parity_disk s.total_disks row ≤ s.num_data_disks
    parity_in_range row = omega (arith, shaped.one_more)

    blocks-AllLength :
        (row : ℕ) → (row + 1) * row_bytes ≤ length bytes → AllLength s.stripe_size (blocks_of row)
    blocks-AllLength row fits =
        data_blocks-AllLength bytes (row * row_bytes) s.stripe_size s.num_data_disks 0 (omega arith)

    xor_bytes-blocks :
        (row : ℕ)
        → (row + 1) * row_bytes ≤ length bytes
        → xor_bytes (blocks_of row) ≡ ok (parity_of row)
    xor_bytes-blocks row fits =
        go (blocks_of row)
          (length-data_blocks bytes (row * row_bytes) s.stripe_size s.num_data_disks 0)
          (blocks-AllLength row fits)
      where
        go :
            (bs : List Bytes)
            → length bs ≡ s.num_data_disks
            → AllLength s.stripe_size bs
            → xor_bytes bs ≡ ok (xor_all s.stripe_size bs)
        go [] e h = absurd (omega (arith, shaped.two_data))
        go (b ∷ bs) e h = xor_bytes-xor_all s.stripe_size b bs h

    -- Every row that is written is a stripe.
    pub stripe_of-IsStripe :
        (row : ℕ)
        → (row + 1) * row_bytes ≤ length bytes
        → IsStripe s.total_disks s.stripe_size (stripe_of row)
    stripe_of-IsStripe row fits = record {
      width =
          length-insert_at (parity_disk s.total_disks row) (parity_of row) (blocks_of row)
          ∙ omega (
            arith,
            shaped.one_more,
            length-data_blocks bytes (row * row_bytes) s.stripe_size s.num_data_disks 0,
          );
      sized =
          AllLength-insert_at s.stripe_size (parity_disk s.total_disks row) (parity_of row)
            (blocks_of row)
            (length-xor_all s.stripe_size (blocks_of row) (blocks-AllLength row fits))
            (blocks-AllLength row fits);
      parity =
          xor_all-parity s.stripe_size (parity_disk s.total_disks row) (blocks_of row)
            (blocks-AllLength row fits);
    }

    write_rows-step :
        (n row : ℕ) (disks : List (List Bytes))
        → (row + 1) * row_bytes ≤ length bytes
        → length disks ≡ s.total_disks
        → write_rows s bytes (suc n) row disks
          ≡ write_rows s bytes n (row + 1) (append_row (stripe_of row) disks)
    unfolding write_rows
    write_rows-step n row disks fits w =
        rw (xor_bytes-blocks row fits, write_rows)
          (rw (
            place-append_row (parity_disk s.total_disks row) (parity_of row) (blocks_of row) disks
              (omega (arith, parity_in_range row, shaped.one_more))
              (omega (
                arith,
                shaped.one_more,
                length-data_blocks bytes (row * row_bytes) s.stripe_size s.num_data_disks 0,
              ))))

    new_row :
        (n row k : ℕ) (disks disks' : List (List Bytes))
        → length (stripe_of row) ≡ length disks
        → AllLength row disks
        → Written n (row + 1) (append_row (stripe_of row) disks) disks'
        → row ≤ k
        → k < row + suc n
        → column k disks' ≡ ok (stripe_of k)
    new_row n row k disks disks' same filled o p q = elim (Bool-cases (row == k)) [
      | inl is_row ↦
          let at : row ≡ k = (==_iff row k).0 is_row in
          rw (← at) (
            o.old_rows row (omega arith)
            ∙ column-append_row_self row (stripe_of row) disks same filled)
      | inr past ↦
          let apart : row ≢ k = λ z. cc ((==_iff row k).1 z) in
          o.new_rows k (omega arith) (omega arith)
    ]

    -- The loop never raises, and appends the stripes one after the other.
    pub write_rows-Written :
        (n row : ℕ) (disks : List (List Bytes))
        → (row + n) * row_bytes ≤ length bytes
        → length disks ≡ s.total_disks
        → AllLength row disks
        → (disks' : List (List Bytes)) × (write_rows s bytes n row disks ≡ (disks', ok tt))
          × Written n row disks disks'
    unfolding write_rows
    write_rows-Written zero row disks fits w filled = (
      disks,
      refl,
      record {
        new_rows = λ k p q. absurd (omega arith);
        old_rows = λ k l. refl;
        width_kept = refl;
      },
    )
    write_rows-Written (suc n) row disks fits w filled =
        let here : (row + 1) * row_bytes ≤ length bytes = omega arith in
        let same : length (stripe_of row) ≡ length disks =
          (stripe_of-IsStripe row here).width ∙ sym w in
        let more : AllLength (row + 1) (append_row (stripe_of row) disks) =
          (let e : row + 1 ≡ suc row = omega arith in
            rw e (AllLength-append_row row (stripe_of row) disks same filled)) in
        let (disks', run, o) =
          write_rows-Written n (row + 1) (append_row (stripe_of row) disks) (omega arith)
            (length-append_row (stripe_of row) disks ∙ w) more in
        (
          disks',
          write_rows-step n row disks here w ∙ run,
          record {
            new_rows = λ k p q. new_row n row k disks disks' same filled o p q;
            old_rows = λ k l.
                o.old_rows k (omega arith)
                ∙ column-append_row_lt row k (stripe_of row) disks l same filled;
            width_kept = o.width_kept ∙ length-append_row (stripe_of row) disks;
          },
        )

    -- The data blocks of the rows that are written are the data, slice by slice.
    pub contents-stripe_of :
        (n row : ℕ)
        → (row + n) * row_bytes ≤ length bytes
        → contents s.total_disks stripe_of n row
          ≡ slice bytes (row * row_bytes) ((row + n) * row_bytes)
    contents-stripe_of zero row fits =
        sym (slice_empty bytes (row * row_bytes) ((row + 0) * row_bytes) (omega arith))
    contents-stripe_of (suc n) row fits =
        let p : ℕ = parity_disk s.total_disks row in
        let whole : others 0 p (stripe_of row) ≡ blocks_of row =
          others-remove_at p (stripe_of row)
          ∙ remove_at-insert_at p (parity_of row) (blocks_of row) (
              omega (
                arith,
                parity_in_range row,
                length-data_blocks bytes (row * row_bytes) s.stripe_size s.num_data_disks 0,
              )) in
        let lo : row * row_bytes + 0 * s.stripe_size ≡ row * row_bytes = omega arith in
        let hi : row * row_bytes + (0 + s.num_data_disks) * s.stripe_size ≡ (row + 1) * row_bytes =
          omega arith in
        let end : (row + 1 + n) * row_bytes ≡ (row + suc n) * row_bytes = omega arith in
        let this : joined (blocks_of row) ≡ slice bytes (row * row_bytes) ((row + 1) * row_bytes) =
          joined-data_blocks bytes (row * row_bytes) s.stripe_size s.num_data_disks 0
          ∙ ap (λ k. slice bytes k (row * row_bytes + (0 + s.num_data_disks) * s.stripe_size)) lo
          ∙ ap (λ k. slice bytes (row * row_bytes) k) hi in
        ap (λ bs. joined bs ++ contents s.total_disks stripe_of n (row + 1)) whole
        ∙ ap (λ t. t ++ contents s.total_disks stripe_of n (row + 1)) this
        ∙ ap (λ t. slice bytes (row * row_bytes) ((row + 1) * row_bytes) ++ t)
            (contents-stripe_of n (row + 1) (omega arith))
        ∙ slice-append bytes (row * row_bytes) ((row + 1) * row_bytes) ((row + 1 + n) * row_bytes)
            (omega arith) (omega arith)
        ∙ ap (λ k. slice bytes (row * row_bytes) k) end
