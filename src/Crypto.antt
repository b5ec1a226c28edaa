-- ===== src/Crypto.antt =====
-- crypto.py: keys, signatures, the encryption of files in chunks, and the sharing of keys, each with
-- the package `cryptography` and without it. That package, hashlib, hmac, base64 and json are
-- parameters; random bytes are arguments.
pub mod Keys
pub mod Signing
pub mod Files
use cloudmer_cloud_storage.Prelude.{
  ℕ, zero, suc, ◌+◌, ◌-◌, ◌*◌, ◌/◌, ◌%◌, bit_xor, String, ◌<>◌, Bool, true, false, not, Option,
  none, some, List, [], ◌∷◌, ◌++◌, length, get_elem?, take, drop, leb, ◌==◌, str_eq, Bytes, Result,
  ok, err, zero_division, index_error, value_error, assertion_error, ◌>>=◌, if◌then◌else◌,
}
use cloudmer_cloud_storage.Blockchain.Tx.{Tx, or_else}
use cloudmer_cloud_storage.Chunks.{piece}

-- `rsa_key` is a private key with its public one; `seed` is what makes a padding random.
pub record Library : Type 1 where
  pub RsaKey : Type 0
  pub rsa_der : RsaKey → Bytes
  pub rsa_sign : RsaKey → Bytes → Bytes → Bytes
  pub rsa_verify : RsaKey → Bytes → Bytes → Bool
  pub rsa_encrypt : RsaKey → Bytes → Bytes → Result Bytes
  pub rsa_decrypt : RsaKey → Bytes → Result Bytes
  -- key, nonce and data to the ciphertext and its tag; key, nonce, tag and ciphertext back
  pub gcm_encrypt : Bytes → Bytes → Bytes → Result (Bytes × Bytes)
  pub gcm_decrypt : Bytes → Bytes → Bytes → Bytes → Result Bytes
  pub sha256 : Bytes → Bytes
  pub hmac : Bytes → Bytes → Bytes
  pub bytes_eq : Bytes → Bytes → Bool
  pub hex : Bytes → String
  pub b64encode : Bytes → String
  pub b64decode : String → Result Bytes
  pub dumps_tx : Tx → Bytes

-- `key[i % len(key)]`
abbrev pub byte_at : Option ℕ → Result ℕ
byte_at none = err index_error
byte_at (some k) = ok k

abbrev pub key_byte : Bytes → ℕ → Result ℕ
key_byte [] i = err zero_division
key_byte (k ∷ ks) i = byte_at (get_elem? (k ∷ ks) (i % length (k ∷ ks)))

abbrev pub xor_first : ℕ → Result ℕ → Result Bytes → Result Bytes
xor_first b (err e) rest = err e
xor_first b (ok k) (err e) = err e
xor_first b (ok k) (ok bs) = ok (bit_xor b k ∷ bs)

-- The generator of `_xor_bytes` from the index `i` on.
unfoldable pub xor_from : ℕ → Bytes → Bytes → Result Bytes
xor_from i [] key = ok []
xor_from i (b ∷ bs) key = xor_first b (key_byte key i) (xor_from (i + 1) bs key)

abbrev pub xor_with : Bytes → Bytes → Result Bytes
xor_with bytes key = xor_from 0 bytes key

module _ (lib : Library) where
  -- The two modes of a key pair; the simulated one has private and public bytes.
  pub data KeyPair : Type 0 where
    simulated : Bytes → Bytes → KeyPair
    rsa : lib.RsaKey → KeyPair

  abbrev pub simulated_pair : Bytes → KeyPair
  simulated_pair private_bytes = simulated private_bytes (lib.sha256 private_bytes)

  abbrev pub public_key_hex : KeyPair → String
  public_key_hex (simulated private_bytes public_bytes) = lib.hex public_bytes
  public_key_hex (rsa key) = lib.hex (lib.rsa_der key)

  abbrev pub sign : Bytes → KeyPair → Bytes → String
  sign seed (simulated private_bytes public_bytes) bytes =
      lib.b64encode (lib.hmac private_bytes bytes)
  sign seed (rsa key) bytes = lib.b64encode (lib.rsa_sign key seed bytes)

  abbrev pub verify_raw : KeyPair → Bytes → Result Bytes → Result Bool
  verify_raw pair bytes (err e) = err e
  verify_raw (simulated private_bytes public_bytes) bytes (ok sig) =
      ok (lib.bytes_eq sig (lib.hmac private_bytes bytes))
  verify_raw (rsa key) bytes (ok sig) = ok (lib.rsa_verify key sig bytes)

  -- The decoding of the signature may raise, its check does not.
  abbrev pub verify : KeyPair → Bytes → String → Result Bool
  verify pair bytes signature_b64 = verify_raw pair bytes (lib.b64decode signature_b64)

  abbrev pub encrypt_for_recipient : Bytes → KeyPair → Bytes → Result Bytes
  encrypt_for_recipient seed (simulated private_bytes public_bytes) bytes =
      xor_with bytes public_bytes
  encrypt_for_recipient seed (rsa key) bytes = lib.rsa_encrypt key seed bytes

  abbrev pub decrypt : KeyPair → Bytes → Result Bytes
  decrypt (simulated private_bytes public_bytes) ciphertext = xor_with ciphertext public_bytes
  decrypt (rsa key) ciphertext = lib.rsa_decrypt key ciphertext

  abbrev pub with_tag : Bytes → Bytes × Bytes → Bytes × Bytes
  with_tag nonce (ct, tag) = (ct ++ tag, nonce)

  -- `available` tells whether the package is there.
  abbrev pub encrypt_data : Bool → Bytes → Bytes → Bytes → Result (Bytes × Bytes)
  encrypt_data false nonce bytes key = do ct ← xor_with bytes (key ++ nonce); ok (ct, nonce)
  encrypt_data true nonce bytes key = do
    sealed ← lib.gcm_encrypt key nonce bytes
    ok (with_tag nonce sealed)

  -- The last sixteen bytes are the tag.
  abbrev pub decrypt_data : Bool → Bytes → Bytes → Bytes → Result Bytes
  decrypt_data false ciphertext key nonce = xor_with ciphertext (key ++ nonce)
  decrypt_data true ciphertext key nonce =
      let n = length ciphertext - 16 in
      lib.gcm_decrypt key nonce (drop n ciphertext) (take n ciphertext)

  abbrev pub hash_data : Bytes → String
  hash_data bytes = lib.hex (lib.sha256 bytes)

  -- The signature covers all fields but the signature itself.
  abbrev pub sign_transaction : Bytes → KeyPair → Tx → Tx
  sign_transaction seed pair tx = record tx {
    signature = some (sign seed pair (lib.dumps_tx (record tx { signature = none })));
    signer = some (public_key_hex pair);
  }

  abbrev pub verify_sig : KeyPair → Bytes → String → Result Bool
  verify_sig pair payload sig = if str_eq sig "" then ok false else verify pair payload sig

  abbrev pub verify_transaction_signature : KeyPair → Tx → Result Bool
  verify_transaction_signature pair tx =
      verify_sig pair (lib.dumps_tx (record tx { signature = none; signer = none }))
        (or_else tx.signature "")

  abbrev pub share_file_key : Bytes → KeyPair → Bytes → Result String
  share_file_key seed pair file_key = do
    encrypted ← encrypt_for_recipient seed pair file_key
    ok (lib.b64encode encrypted)

  abbrev pub retrieve_file_key : KeyPair → String → Result Bytes
  retrieve_file_key pair encrypted_key_b64 = do
    encrypted ← lib.b64decode encrypted_key_b64
    decrypt pair encrypted
