-- ===== src/Crypto/Keys.antt =====
-- Encryption and sharing of keys undo themselves, and what a signature covers.
use cloudmer_cloud_storage.Prelude.{
  ℕ, zero, suc, ◌+◌, ◌-◌, ◌%◌, ◌≡◌, ◌<◌, refl, ap, ◌∙◌, bit_xor, String, Bool, true, false, some,
  [], ◌∷◌, ◌++◌, length, length-append, take, drop, take-append, drop-append, get_elem?, Bytes, ok,
  arith,
}
use cloudmer_cloud_storage.Prelude.Xor.{bit_xor-cancel}
use native.Mathlib.Omega.{mod_fact}
use cloudmer_cloud_storage.Crypto.{
  Library, KeyPair, simulated, rsa, byte_at, key_byte, xor_from, encrypt_data, decrypt_data,
  share_file_key, retrieve_file_key,
}

get_elem?-some : (xs : Bytes) (i : ℕ) → i < length xs → (x : ℕ) × (get_elem? xs i ≡ some x)
get_elem?-some [] i h = absurd (omega arith)
get_elem?-some (x ∷ xs) zero h = (x, refl)
get_elem?-some (x ∷ xs) (suc i) h = get_elem?-some xs i (omega arith)

key_byte_ok : (key : Bytes) (i : ℕ) → 0 < length key → (k : ℕ) × (key_byte key i ≡ ok k)
key_byte_ok [] i h = absurd (omega arith)
key_byte_ok (k ∷ ks) i h =
    let (x, found) = get_elem?-some (k ∷ ks) (i % length (k ∷ ks)) (mod_fact i (length ks)) in
    (x, ap byte_at found)

-- The cipher without the package undoes itself.
xor_from_twice :
    (i : ℕ) (bytes key : Bytes)
    → 0 < length key
    → (out : Bytes) × (xor_from i bytes key ≡ ok out) × (xor_from i out key ≡ ok bytes)
unfolding xor_from
xor_from_twice i [] key h = ([], refl, refl)
xor_from_twice i (b ∷ bs) key h =
    let (k, at) = key_byte_ok key i h in
    let (out, there, back) = xor_from_twice (i + 1) bs key h in
    (
      bit_xor b k ∷ out,
      rw at (rw there refl),
      rw at (rw back (ap (λ x. ok (x ∷ bs)) (bit_xor-cancel b k))),
    )

module _ (lib : Library) where
  -- AES-GCM takes the key and the nonce, has tags of sixteen bytes and undoes itself.
  abbrev pub GcmWorks : Bytes → Bytes → Type 0
  GcmWorks key nonce =
      (bytes : Bytes)
      → (ct tag : Bytes) × (lib.gcm_encrypt key nonce bytes ≡ ok (ct, tag))
        × (length tag ≡ 16)
        × (lib.gcm_decrypt key nonce tag ct ≡ ok bytes)

  split_tag :
      (ct tag : Bytes)
      → length tag ≡ 16
      → let n = length (ct ++ tag) - 16 in (take n (ct ++ tag) ≡ ct) × (drop n (ct ++ tag) ≡ tag)
  split_tag ct tag h =
      let n : length (ct ++ tag) - 16 ≡ length ct = omega (arith, length-append ct tag) in
      (
        take-append ct tag (length (ct ++ tag) - 16) n,
        drop-append ct tag (length (ct ++ tag) - 16) n,
      )

  -- The bytes of a file come back under the same key and nonce, with the package and without it.
  pub decrypt_data-encrypt_data :
      (available : Bool) (bytes key nonce : Bytes)
      → 0 < length key
      → GcmWorks key nonce
      → (sealed : Bytes) × (encrypt_data lib available nonce bytes key ≡ ok (sealed, nonce))
        × (decrypt_data lib available sealed key nonce ≡ ok bytes)
  decrypt_data-encrypt_data false bytes key nonce h gcm =
      let (out, there, back) =
        xor_from_twice 0 bytes (key ++ nonce) (omega (arith, length-append key nonce)) in
      (out, rw there refl, back)
  decrypt_data-encrypt_data true bytes key nonce h gcm =
      let (ct, tag, there, long, back) = gcm bytes in
      let (front, end) = split_tag ct tag long in
      (
        ct ++ tag,
        rw there refl,
        ap (lib.gcm_decrypt key nonce (drop (length (ct ++ tag) - 16) (ct ++ tag))) front
            ∙ ap (λ t. lib.gcm_decrypt key nonce t ct) end
            ∙ back,
      )

  -- The public bytes are not empty, or RSA takes the key and undoes itself.
  abbrev pub IsUsable : KeyPair lib → Bytes → Bytes → Type 0
  IsUsable (simulated private_bytes public_bytes) file_key seed = 0 < length public_bytes
  IsUsable (rsa key) file_key seed =
      (sealed : Bytes) × (lib.rsa_encrypt key seed file_key ≡ ok sealed)
      × (lib.rsa_decrypt key sealed ≡ ok file_key)

  -- A file key that is shared with a recipient comes back with the recipient's key pair.
  pub retrieve_file_key-share_file_key :
      (seed file_key : Bytes) (pair : KeyPair lib)
      → ((bytes : Bytes) → lib.b64decode (lib.b64encode bytes) ≡ ok bytes)
      → IsUsable pair file_key seed
      → (text : String) × (share_file_key lib seed pair file_key ≡ ok text)
        × (retrieve_file_key lib pair text ≡ ok file_key)
  retrieve_file_key-share_file_key seed file_key (simulated private_bytes public_bytes) b64 usable =
      let (out, there, back) = xor_from_twice 0 file_key public_bytes usable in
      (lib.b64encode out, rw there refl, rw (b64 out) back)
  retrieve_file_key-share_file_key seed file_key (rsa key) b64 (sealed, there, back) =
      (lib.b64encode sealed, rw there refl, rw (b64 sealed) back)
