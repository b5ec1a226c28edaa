-- ===== src/Crypto/Files/RoundTrip.antt =====
-- A file that was cut and encrypted comes back from its chunks.
use cloudmer_cloud_storage.Prelude.{
  ℕ, zero, suc, ◌+◌, ◌/◌, ◌≡◌, ◌<◌, refl, ap, ◌∙◌, sym, String, Bool, true, List, length, str_eq,
  eq_iff, Bytes, ok, ◌>>=◌,
}
use cloudmer_cloud_storage.Raid5.{joined}
use cloudmer_cloud_storage.Chunks.{piece}
use cloudmer_cloud_storage.Chunks.Cutting.{joined-pieces_steps}
use cloudmer_cloud_storage.Chunks.Reassembly.{pieces_of}
use cloudmer_cloud_storage.Crypto.{Library, hash_data}
use cloudmer_cloud_storage.Crypto.Keys.{GcmWorks, decrypt_data-encrypt_data}
use cloudmer_cloud_storage.Crypto.Files.{
  FileChunk, ChunkedFile, encrypted_chunk, encrypt_chunks, chunked, chunk_and_encrypt_file,
  open_chunk, open_chunks, reconstruct_file,
}
use cloudmer_cloud_storage.Crypto.Files.Sorting.{
  Reordered, made_from, made_from-AllMade, sort_chunks-Reordered, sort_chunks-made_from,
}

module _ (lib : Library) (available : Bool) (file_key : Bytes) (nonce : ℕ → Bytes)
    (b64 : (bytes : Bytes) → lib.b64decode (lib.b64encode bytes) ≡ ok bytes)
    (keyed : 0 < length file_key) (gcm : (i : ℕ) → GcmWorks lib file_key (nonce i)) where
  sealed_piece : (ℕ → Bytes) → ℕ → Bytes
  sealed_piece f i =
      (decrypt_data-encrypt_data lib available (f i) file_key (nonce i) keyed (gcm i)).0

  abbrev made : (ℕ → Bytes) → ℕ → FileChunk
  made f i = encrypted_chunk lib available file_key i (f i) (sealed_piece f i, nonce i)

  encrypt_chunks-made :
      (size : ℕ) (raw : Bytes) (i n : ℕ)
      → encrypt_chunks lib available file_key nonce size raw i n
        ≡ ok (made_from (made (piece size raw)) i n)
  unfolding encrypt_chunks sealed_piece
  encrypt_chunks-made size raw i zero = refl
  encrypt_chunks-made size raw i (suc n) =
      let f = piece size raw in
      let (_, there, back) =
        decrypt_data-encrypt_data lib available (f i) file_key (nonce i) keyed (gcm i) in
      rw there (rw (encrypt_chunks-made size raw (i + 1) n) refl)

  open_chunk-made :
      (f : ℕ → Bytes) (i : ℕ) → open_chunk lib available file_key (made f i) ≡ ok (f i)
  unfolding sealed_piece
  open_chunk-made f i =
      let (out, there, back) =
        decrypt_data-encrypt_data lib available (f i) file_key (nonce i) keyed (gcm i) in
      let same : str_eq (hash_data lib (f i)) (hash_data lib (f i)) ≡ true =
        (eq_iff (hash_data lib (f i)) (hash_data lib (f i))).1 refl in
      rw (b64 out) (rw (b64 (nonce i)) (rw back (rw same refl)))

  open_chunks-made :
      (f : ℕ → Bytes) (i n : ℕ)
      → open_chunks lib available file_key (made_from (made f) i n) ≡ ok (pieces_of f i n)
  unfolding open_chunks
  open_chunks-made f i zero = refl
  open_chunks-made f i (suc n) = rw (open_chunk-made f i) (rw (open_chunks-made f (i + 1) n) refl)

  -- A file is cut and encrypted without an exception, for any size of the chunks above 0, and its
  -- chunks in any order are put together to the same bytes, with the package and without it.
  pub reconstruct_file-chunk_and_encrypt_file :
      (s : ℕ) (name : String) (raw : Bytes)
      → (file : ChunkedFile) × (chunk_and_encrypt_file lib available file_key nonce (suc s) name raw
          ≡ ok file)
        × ((order : List FileChunk)
            → Reordered file.chunks order
            → reconstruct_file lib available file_key order ≡ ok raw)
  unfolding chunk_and_encrypt_file reconstruct_file
  reconstruct_file-chunk_and_encrypt_file s name raw =
      let n = (length raw + s) / suc s in
      let g = made (piece (suc s) raw) in
      (
        chunked lib available file_key name raw (made_from g 0 n),
        ap (λ r. (do chunks ← r; ok (chunked lib available file_key name raw chunks)))
            (encrypt_chunks-made (suc s) raw 0 n),
        λ order r.
            ap (λ cs. (do parts ← open_chunks lib available file_key cs; ok (joined parts)))
              (sym (
                  sort_chunks-Reordered g (made_from g 0 n) order r
                    (made_from-AllMade g (λ i. refl) 0 n))
                ∙ sort_chunks-made_from g (λ i. refl) 0 n)
            ∙ ap (λ p. (do parts ← p; ok (joined parts))) (open_chunks-made (piece (suc s) raw) 0 n)
            ∙ ap ok (joined-pieces_steps s raw),
      )
