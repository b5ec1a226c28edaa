-- ===== src/Tests/Keys.antt =====
-- The properties of crypto.py with ciphers that change nothing and signatures that are the payload.
use cloudmer_cloud_storage.Prelude.{
  ◌≡◌, ◌≢◌, refl, ap, ◌∙◌, sym, arith, Bool, true, false, ◌&&◌, ◌==◌, Bool-cases, inl, inr, String,
  ◌<>◌, Option, none, some, List, [], ◌∷◌, map, length, length-append, replicate, Bytes, Result, ok,
  err, value_error, ◌>>=◌,
}
use cloudmer_cloud_storage.Text.{codes, str, int_of, split, join}
use cloudmer_cloud_storage.Text.Split.{AllLack, split-join, lacks-Lacks, codes-append}
use cloudmer_cloud_storage.Text.Decimal.{int_of-str, str-Lacks}
use cloudmer_cloud_storage.Blockchain.Tx.{Tx, make_upload_tx}
use cloudmer_cloud_storage.Crypto.{
  Library, KeyPair, simulated, sign, verify, sign_transaction, verify_transaction_signature,
}
use cloudmer_cloud_storage.Crypto.Signing.{sign_transaction_twice}
use cloudmer_cloud_storage.Crypto.Files.{
  FileChunk, ChunkedFile, chunk_and_encrypt_file, reconstruct_file,
}
use cloudmer_cloud_storage.Crypto.Files.Sorting.{Reordered}
use cloudmer_cloud_storage.Crypto.Files.RoundTrip.{reconstruct_file-chunk_and_encrypt_file}
use cloudmer_cloud_storage.Tests.Codec.{text_of, text_of-codes}

-- Bytes as decimal numbers between bars.
unfoldable written : Bytes → String
unfolding join
written bytes = join "~" ("x" ∷ map str bytes)

unfoldable numbers : List String → Result Bytes
numbers [] = ok []
numbers (p ∷ ps) = do n ← int_of (codes p); ns ← numbers ps; ok (n ∷ ns)

abbrev after_mark : List String → Result Bytes
after_mark [] = err value_error
after_mark (_ ∷ ps) = numbers ps

unfoldable reading : String → Result Bytes
reading text = after_mark (split b'~' text)

numbers-str : (bytes : Bytes) → numbers (map str bytes) ≡ ok bytes
unfolding numbers
numbers-str [] = refl
numbers-str (b ∷ bs) = rw (int_of-str b) (rw (numbers-str bs) refl)

AllLack-str : (bytes : Bytes) → AllLack b'~' (map str bytes)
AllLack-str [] = tt
AllLack-str (b ∷ bs) = (str-Lacks b'~' b (omega arith), AllLack-str bs)

reading-written : (bytes : Bytes) → reading (written bytes) ≡ ok bytes
unfolding reading written
reading-written bytes =
    ap after_mark
      (split-join "~" "x" (map str bytes) (lacks-Lacks b'~' "x" refl, AllLack-str bytes))
    ∙ numbers-str bytes

written_filled : (bytes : Bytes) → written bytes ≢ ""
unfolding written
written_filled [] e = let size = ap (λ s. length (codes s)) e in omega arith
written_filled (b ∷ bs) e =
    let rest = "~" <> join "~" (map str (b ∷ bs)) in
    let size = ap (λ s. length (codes s)) e in
    omega (arith, ap length (codes-append "x" rest), length-append (codes "x") (codes rest))

unfoldable bytes_eq : Bytes → Bytes → Bool
bytes_eq [] [] = true
bytes_eq [] (_ ∷ _) = false
bytes_eq (_ ∷ _) [] = false
bytes_eq (a ∷ as_) (b ∷ bs) = (a == b) && bytes_eq as_ bs

bytes_eq_refl : (a : Bytes) → bytes_eq a a ≡ true
unfolding bytes_eq
bytes_eq_refl [] = refl
bytes_eq_refl (a ∷ rest) = let same : (a == a) ≡ true = ground arith in rw same (bytes_eq_refl rest)

bytes_eq_sound : (a b : Bytes) → bytes_eq a b ≡ true → a ≡ b
unfolding bytes_eq
bytes_eq_sound [] [] h = refl
bytes_eq_sound [] (b ∷ bs) h = cc
bytes_eq_sound (a ∷ rest) [] h = cc
bytes_eq_sound (a ∷ rest) (b ∷ bs) h = elim (Bool-cases (a == b)) [
  | inl same ↦
      let e : a ≡ b = ground arith in
      ap (λ x. x ∷ rest) e ∙ ap (λ t. b ∷ t) (bytes_eq_sound rest bs (rw same at h))
  | inr other ↦ absurd (ground arith)
]

bytes_eq-apart : (a b : Bytes) → a ≢ b → bytes_eq b a ≡ false
bytes_eq-apart a b apart = elim (Bool-cases (bytes_eq b a)) [
  | inl same ↦ absurd (apart (sym (bytes_eq_sound b a same)))
  | inr other ↦ other
]

abbrev signer_bytes : Option String → Bytes
signer_bytes none = []
signer_bytes (some s) = 1 ∷ codes s

abbrev tail_text : Bytes → Option String
tail_text [] = none
tail_text (_ ∷ s) = some (text_of s)

tail_text-signer : (o : Option String) → tail_text (signer_bytes o) ≡ o
tail_text-signer none = refl
tail_text-signer (some s) = ap some (text_of-codes s)

abbrev lib : Library
lib = record {
  RsaKey = Unit {0};
  rsa_der = λ key. [];
  rsa_sign = λ key seed bytes. bytes;
  rsa_verify = λ key sig bytes. bytes_eq sig bytes;
  rsa_encrypt = λ key seed bytes. ok bytes;
  rsa_decrypt = λ key bytes. ok bytes;
  gcm_encrypt = λ key nonce bytes. ok (bytes, replicate 16 0);
  gcm_decrypt = λ key nonce tag bytes. ok bytes;
  sha256 = λ bytes. bytes;
  hmac = λ key bytes. bytes;
  bytes_eq = bytes_eq;
  hex = text_of;
  b64encode = written;
  b64decode = reading;
  dumps_tx = λ tx. signer_bytes tx.signer;
}

reconstruct_example :
    (file : ChunkedFile) × (chunk_and_encrypt_file lib true
        (9 ∷ [])
        (λ i. i ∷ [])
        2
        "a.txt"
        (1 ∷ 2 ∷ 3 ∷ [])
      ≡ ok file)
    × ((order : List FileChunk)
        → Reordered file.chunks order
        → reconstruct_file lib true (9 ∷ []) order ≡ ok (1 ∷ 2 ∷ 3 ∷ []))
reconstruct_example =
    reconstruct_file-chunk_and_encrypt_file lib true (9 ∷ []) (λ i. i ∷ []) reading-written
      (omega arith) (λ i bytes. (bytes, replicate 16 0, refl, refl, refl)) 1 "a.txt"
      (1 ∷ 2 ∷ 3 ∷ [])

abbrev a_pair : KeyPair lib
a_pair = simulated (1 ∷ []) (65 ∷ [])

abbrev a_tx : Tx
a_tx = make_upload_tx 5 "alice" "f1" "a.txt" 3 1 [] none none

a_pair_sound : (bytes : Bytes) → verify lib a_pair bytes (sign lib [] a_pair bytes) ≡ ok true
a_pair_sound bytes = rw (reading-written bytes) (rw (bytes_eq_refl bytes) refl)

a_pair_strict :
    (bytes other : Bytes)
    → bytes ≢ other
    → verify lib a_pair other (sign lib [] a_pair bytes) ≡ ok false
a_pair_strict bytes other apart =
    rw (reading-written bytes) (rw (bytes_eq-apart other bytes (λ e. apart (sym e))) refl)

sign_twice_example :
    let once = sign_transaction lib [] a_pair a_tx in
    (verify_transaction_signature lib a_pair once ≡ ok true)
    × (verify_transaction_signature lib a_pair (sign_transaction lib [] a_pair once) ≡ ok false)
sign_twice_example =
    sign_transaction_twice lib [] a_pair a_tx refl written_filled a_pair_sound a_pair_strict
      (λ a b e. sym (tail_text-signer a.signer) ∙ ap tail_text e ∙ tail_text-signer b.signer)
