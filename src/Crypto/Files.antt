-- ===== src/Crypto/Files.antt =====
-- `chunk_and_encrypt_file` and `reconstruct_file` of crypto.py, on the contents of the file;
-- `nonce i` is the random nonce of the i-th chunk.
pub mod Sorting
pub mod RoundTrip
use cloudmer_cloud_storage.Prelude.{
  ℕ, zero, suc, ◌+◌, ◌-◌, ◌*◌, ◌/◌, String, Bool, true, false, not, List, [], ◌∷◌, ◌++◌, length,
  leb, ltb, ◌==◌, str_eq, Bytes, Result, ok, err, value_error, assertion_error, ◌>>=◌,
  if◌then◌else◌,
}
use cloudmer_cloud_storage.Raid5.{joined}
use cloudmer_cloud_storage.Chunks.{piece}
use cloudmer_cloud_storage.Crypto.{Library, encrypt_data, decrypt_data, hash_data}

pub record FileChunk : Type 0 where
  pub chunk_index : ℕ
  pub chunk_hash : String
  pub ciphertext : String
  pub nonce : String
  pub size : ℕ

pub record ChunkedFile : Type 0 where
  pub file_hash : String
  pub file_name : String
  pub file_size : ℕ
  pub chunk_count : ℕ
  pub chunks : List FileChunk

-- `sorted(chunks, key=lambda c: c["chunk_index"])`, which keeps the order of equal indexes.
unfoldable pub insert_chunk : FileChunk → List FileChunk → List FileChunk
insert_chunk c [] = c ∷ []
insert_chunk c (d ∷ ds) =
    let rest = insert_chunk c ds in if leb c.chunk_index d.chunk_index then c ∷ d ∷ ds else d ∷ rest

unfoldable pub sort_chunks : List FileChunk → List FileChunk
unfolding insert_chunk
sort_chunks [] = []
sort_chunks (c ∷ cs) = insert_chunk c (sort_chunks cs)

module _ (lib : Library) (available : Bool) (file_key : Bytes) where
  abbrev pub encrypted_chunk : ℕ → Bytes → Bytes × Bytes → FileChunk
  encrypted_chunk i chunk_data (ct, nonce) = record {
    chunk_index = i;
    chunk_hash = hash_data lib chunk_data;
    ciphertext = lib.b64encode ct;
    nonce = lib.b64encode nonce;
    size = length chunk_data;
  }

  -- The loop over `range(0, file_size, chunk_size)`: `n` steps are left, and `i` is the next.
  unfoldable pub encrypt_chunks : (ℕ → Bytes) → ℕ → Bytes → ℕ → ℕ → Result (List FileChunk)
  unfolding piece
  encrypt_chunks nonce chunk_size raw i zero = ok []
  encrypt_chunks nonce chunk_size raw i (suc n) = do
    let chunk_data = piece chunk_size raw i
    sealed ← encrypt_data lib available (nonce i) chunk_data file_key
    rest ← encrypt_chunks nonce chunk_size raw (i + 1) n
    ok (encrypted_chunk i chunk_data sealed ∷ rest)

  abbrev pub chunked : String → Bytes → List FileChunk → ChunkedFile
  chunked file_name raw chunks = record {
    file_hash = hash_data lib raw;
    file_name = file_name;
    file_size = length raw;
    chunk_count = length chunks;
    chunks = chunks;
  }

  -- `range` refuses a step of 0.
  unfoldable pub chunk_and_encrypt_file : (ℕ → Bytes) → ℕ → String → Bytes → Result ChunkedFile
  unfolding encrypt_chunks
  chunk_and_encrypt_file nonce zero file_name raw = err value_error
  chunk_and_encrypt_file nonce (suc s) file_name raw = do
    chunks ← encrypt_chunks nonce (suc s) raw 0 ((length raw + s) / suc s)
    ok (chunked file_name raw chunks)

  abbrev pub checked : String → Bytes → Result Bytes
  checked chunk_hash plaintext =
      if str_eq (hash_data lib plaintext) chunk_hash then ok plaintext else err assertion_error

  abbrev pub open_chunk : FileChunk → Result Bytes
  open_chunk chunk = do
    ct ← lib.b64decode chunk.ciphertext
    nonce ← lib.b64decode chunk.nonce
    plaintext ← decrypt_data lib available ct file_key nonce
    checked chunk.chunk_hash plaintext

  unfoldable pub open_chunks : List FileChunk → Result (List Bytes)
  open_chunks [] = ok []
  open_chunks (c ∷ cs) = do part ← open_chunk c; parts ← open_chunks cs; ok (part ∷ parts)

  -- What is written to the output; an exception comes before the file is opened.
  unfoldable pub reconstruct_file : List FileChunk → Result Bytes
  unfolding sort_chunks open_chunks
  reconstruct_file chunks = do parts ← open_chunks (sort_chunks chunks); ok (joined parts)
