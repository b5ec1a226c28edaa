-- ===== src/Tests/Raid.antt =====
-- The properties of raid5.py on an array of three disks with a stripe size of 2.
use cloudmer_cloud_storage.Prelude.{ℕ, ◌≡◌, ◌<◌, refl, arith, none, [], ◌∷◌, Bytes, Result, ok}
use cloudmer_cloud_storage.Raid5.{Storage, write, read, column, simulate_disk_failure, recover_disk}
use cloudmer_cloud_storage.Raid5.Writing.{IsArray}
use cloudmer_cloud_storage.Raid5.RoundTrip.{
  Faults, intact, fails, read-write, recover_disk-simulate_disk_failure,
}

abbrev array : Storage
array = record {
  num_data_disks = 2;
  total_disks = 3;
  stripe_size = 2;
  disks = [] ∷ [] ∷ [] ∷ [];
  failed_disk = none;
  num_stripe_rows = 0;
  padding = 0;
}

abbrev bytes : Bytes
bytes = 1 ∷ 2 ∷ 3 ∷ 4 ∷ 5 ∷ []

array-IsArray : IsArray array
array-IsArray = record {
  shaped = record { two_data = omega arith; one_more = refl };
  striped = omega arith;
  in_range = λ f e. cc;
}

abbrev lost : Storage
lost = (simulate_disk_failure (write array bytes).0 1).0

lost-Faults : Faults (write array bytes).0 lost
unfolding write
lost-Faults = fails 1 intact tt (omega arith)

read-write_example : read lost ≡ ok bytes
read-write_example = read-write array lost bytes array-IsArray lost-Faults

recover_disk_example :
    let w : Storage = (write array bytes).0 in
    let gone : Storage × Result (Unit {0}) = simulate_disk_failure w 1 in
    let fixed : Storage × Result (Unit {0}) = recover_disk gone.0 in
    (gone.1 ≡ ok tt)
    × (fixed.1 ≡ ok tt)
    × (fixed.0.failed_disk ≡ none)
    × ((k : ℕ) → k < w.num_stripe_rows → column k fixed.0.disks ≡ column k w.disks)
recover_disk_example =
    recover_disk-simulate_disk_failure array 1 bytes array-IsArray refl (omega arith)

abbrev flat : Storage
flat = record array { stripe_size = 0 }
