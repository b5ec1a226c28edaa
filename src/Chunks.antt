-- ===== src/Chunks.antt =====
-- What cloudmer_SRV.py and cloudmer_CLIENT.py have in common: the pieces of a file, their
-- compression, and the dict of pieces by index from which either side puts the file together.
-- MD5, SHA-256, zlib and UTF-8 are parameters.
pub mod Reassembly
pub mod Cutting
use cloudmer_cloud_storage.Prelude.{
  ℕ, zero, suc, ◌+◌, ◌-◌, ◌*◌, ◌/◌, max, String, Bool, true, false, Option, none, some, List, [],
  ◌∷◌, ◌++◌, length, ltb, ◌==◌, Bytes, Result, ok, err, key_error, if◌then◌else◌,
}
use cloudmer_cloud_storage.Raid5.{slice}

pub record Codecs : Type 0 where
  pub md5_hex : Bytes → String
  pub sha256_hex : Bytes → String
  pub compress : Bytes → Bytes
  pub decompress : Bytes → Result Bytes
  pub encode : String → Bytes
  pub decode : Bytes → Result String

-- `CHUNK_SIZE` and `DOWNLOAD_CHUNK_SIZE`
abbrev pub chunk_size : ℕ
chunk_size = 1048576

-- `max(1, math.ceil(total_size / size))`
abbrev pub count_chunks : ℕ → ℕ → ℕ
count_chunks size total_size = max 1 ((total_size + (size - 1)) / size)

-- `data[i * size: (i + 1) * size]`
unfoldable pub piece : ℕ → Bytes → ℕ → Bytes
unfolding slice
piece size bytes i = slice bytes (i * size) ((i + 1) * size)

module _ (k : Codecs) where
  -- The payload and `is_comp`. On whole numbers of this size, `len(compressed) < len(chunk) * 0.9`
  -- in floating point is the comparison of the tenfold.
  abbrev pub packed : Bytes → Bytes × Bool
  packed chunk =
      let compressed = k.compress chunk in
      if ltb (10 * length compressed) (9 * length chunk) then (compressed, true) else (chunk, false)

  abbrev pub unpacked : Bool → Bytes → Result Bytes
  unpacked is_comp raw = if is_comp then k.decompress raw else ok raw

-- `f"{is_comp}"`, and the test of the field of the header.
abbrev pub flag : Bool → String
flag true = "1"
flag false = "0"

-- `chunks.get(i)` and `chunks[i] = data` on a dict with whole numbers as keys.
unfoldable pub get : ℕ → List (ℕ × Bytes) → Option Bytes
get i [] = none
get i ((j, b) ∷ d) = let rest = get i d in if j == i then some b else rest

unfoldable pub put_piece : ℕ → Bytes → List (ℕ × Bytes) → List (ℕ × Bytes)
put_piece i v [] = (i, v) ∷ []
put_piece i v ((j, b) ∷ d) =
    let rest = put_piece i v d in if j == i then (i, v) ∷ d else (j, b) ∷ rest

-- `for i in range(...): if i not in chunks`: the first of `n` indexes from `i` that is missing.
unfoldable pub missing : List (ℕ × Bytes) → ℕ → ℕ → Option ℕ
unfolding get
missing chunks i zero = none
missing chunks i (suc n) = elim (get i chunks) [ none ↦ some i | some _ ↦ missing chunks (i + 1) n ]

abbrev pub and_rest : Option Bytes → Result Bytes → Result Bytes
and_rest none rest = err key_error
and_rest (some b) (err e) = err e
and_rest (some b) (ok bytes) = ok (b ++ bytes)

-- `b''.join(chunks[i] for i in range(...))`
unfoldable pub assemble : List (ℕ × Bytes) → ℕ → ℕ → Result Bytes
unfolding get
assemble chunks i zero = ok []
assemble chunks i (suc n) = and_rest (get i chunks) (assemble chunks (i + 1) n)
