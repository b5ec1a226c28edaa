-- ===== src/Raid5/RoundTrip.antt =====
-- raid5.py as a whole: the failures and repairs that an array goes through after a write.
use cloudmer_cloud_storage.Prelude.{
  ℕ, ◌<◌, ◌≡◌, refl, ap, ◌∙◌, sym, List, some, none, arith, Bytes, Result, ok, Option,
}
use cloudmer_cloud_storage.Raid5.{Storage, write, read, simulate_disk_failure, recover_disk, column}
use cloudmer_cloud_storage.Raid5.Array.{Holds, read-Holds, Lost}
use cloudmer_cloud_storage.Raid5.Failure.{MayFail, simulate_disk_failure-Holds, recover_disk-Holds}
use cloudmer_cloud_storage.Raid5.Writing.{IsArray, Stores, write-Stores}

-- `t` comes from `s` by failures of one disk at a time and by repairs.
pub data Faults (s : Storage) : Storage → Type 0 where
  intact : Faults s s
  fails :
      {t : Storage} (f : ℕ)
      → Faults s t
      → MayFail t.failed_disk f
      → f < t.total_disks
      → Faults s (simulate_disk_failure t f).0
  recovers : {t : Storage} → Faults s t → Faults s (recover_disk t).0

-- The two methods change the disks and the mark of the failed disk alone.
abbrev SameShape : Storage → Storage → Type 0
SameShape s t =
    (t.padding ≡ s.padding)
    × (t.num_stripe_rows ≡ s.num_stripe_rows)
    × (t.total_disks ≡ s.total_disks)

simulate_disk_failure-SameShape : (s : Storage) (f : ℕ) → SameShape s (simulate_disk_failure s f).0
unfolding simulate_disk_failure
simulate_disk_failure-SameShape s f = ground arith

recover_disk-SameShape : (s : Storage) → SameShape s (recover_disk s).0
unfolding recover_disk
recover_disk-SameShape s = ground arith

Stores-same :
    {s t : Storage} {bytes : Bytes} (h : Stores s bytes)
    → SameShape s t
    → Holds t h.rows
    → Stores t bytes
Stores-same h (p, n, d) holds = record {
  rows = h.rows;
  holds = holds;
  shows = rw (p, n, d) h.shows;
}

-- Failures of one disk at a time and repairs keep what the array stores.
pub Faults-Stores : {s t : Storage} {bytes : Bytes} → Stores s bytes → Faults s t → Stores t bytes
Faults-Stores h intact = h
Faults-Stores h (fails {t} f faults may l) =
    let before : Stores t _ = Faults-Stores h faults in
    Stores-same before (simulate_disk_failure-SameShape t f)
      (simulate_disk_failure-Holds t before.rows before.holds f may l).1
Faults-Stores h (recovers {t} faults) =
    let before : Stores t _ = Faults-Stores h faults in
    Stores-same before (recover_disk-SameShape t) (recover_disk-Holds t before.rows before.holds).2

Faults-SameShape : {s t : Storage} → Faults s t → SameShape s t
Faults-SameShape intact = (refl, refl, refl)
Faults-SameShape (fails {t} f faults may l) =
    let (p, n, d) = Faults-SameShape faults in
    let (p', n', d') = simulate_disk_failure-SameShape t f in (p' ∙ p, n' ∙ n, d' ∙ d)
Faults-SameShape (recovers {t} faults) =
    let (p, n, d) = Faults-SameShape faults in
    let (p', n', d') = recover_disk-SameShape t in (p' ∙ p, n' ∙ n, d' ∙ d)

write-failed_disk : (s : Storage) (bytes : Bytes) → (write s bytes).0.failed_disk ≡ s.failed_disk
unfolding write
write-failed_disk s bytes = ground arith

write-total_disks : (s : Storage) (bytes : Bytes) → (write s bytes).0.total_disks ≡ s.total_disks
unfolding write
write-total_disks s bytes = ground arith

Lost-none :
    {o : Option ℕ} {row : List Bytes} {stored : Result (List Bytes)}
    → o ≡ none
    → Lost o row stored
    → stored ≡ ok row
Lost-none {o = none} e h = h
Lost-none {o = some f} e h = cc

read-Stores : {s : Storage} {bytes : Bytes} → Stores s bytes → read s ≡ ok bytes
read-Stores {s} h = read-Holds s h.rows h.holds ∙ ap ok h.shows

-- After `write`, and then any failures of one disk at a time and any repairs, `read` returns
-- exactly the data that was written; the array has at least two data disks, a stripe size above 0
-- and a failed disk, if any, within range.
pub read-write :
    (s t : Storage) (bytes : Bytes) → IsArray s → Faults (write s bytes).0 t → read t ≡ ok bytes
read-write s t bytes a faults = read-Stores (Faults-Stores (write-Stores s bytes a).1 faults)

module _ (s : Storage) (f : ℕ) where
  -- A disk that is lost and then repaired holds, in every stripe row, the block that `write` put
  -- there, as do all others; neither call raises, and no disk is marked as failed at the end.
  pub recover_disk-simulate_disk_failure :
      (bytes : Bytes)
      → IsArray s
      → s.failed_disk ≡ none
      → f < s.total_disks
      → let w : Storage = (write s bytes).0 in
        let lost : Storage × Result (Unit {0}) = simulate_disk_failure w f in
        let fixed : Storage × Result (Unit {0}) = recover_disk lost.0 in
        (lost.1 ≡ ok tt)
        × (fixed.1 ≡ ok tt)
        × (fixed.0.failed_disk ≡ none)
        × ((k : ℕ) → k < w.num_stripe_rows → column k fixed.0.disks ≡ column k w.disks)
  recover_disk-simulate_disk_failure bytes a healthy l =
      let w : Storage = (write s bytes).0 in
      let before : Stores w bytes = (write-Stores s bytes a).1 in
      let none_failed : w.failed_disk ≡ none = write-failed_disk s bytes ∙ healthy in
      let in_range : f < w.total_disks = omega (arith, write-total_disks s bytes) in
      let may : MayFail w.failed_disk f = rw none_failed tt in
      let lost = simulate_disk_failure-Holds w before.rows before.holds f may in_range in
      let fixed = recover_disk-Holds (simulate_disk_failure w f).0 before.rows lost.1 in
      let shape : SameShape w (recover_disk (simulate_disk_failure w f).0).0 =
        Faults-SameShape (recovers (fails f intact may in_range)) in
      (
        lost.0,
        fixed.0,
        fixed.1,
        λ k q.
            Lost-none fixed.1 (fixed.2.cells k (omega (arith, shape.1)))
            ∙ sym (Lost-none none_failed (before.holds.cells k q)),
      )
