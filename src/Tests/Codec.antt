-- ===== src/Tests/Codec.antt =====
-- A codec for the examples: a text is the list of its code points.
use Prim.Native.Nat.{compare, Ordering}
use Prim.Native.Char.{Char, char, code, nul, IsLt, IsScalar}
use text.Mathlib.TextEquality.{Char-path}
use cloudmer_cloud_storage.Prelude.{
  ℕ, ◌≡◌, ◌≤◌, ◌<◌, refl, ap, ◌∙◌, String, Option, none, some, [], ◌∷◌, Bytes, length, Result, ok,
  err, value_error, arith,
}
use cloudmer_cloud_storage.Text.{codes, str}
use cloudmer_cloud_storage.Chunks.{Codecs}

-- The clauses of `IsScalar`.
abbrev Both : Ordering → Ordering → Type 0
Both Ordering.lt o = IsLt o
Both Ordering.eq _ = ⊥
Both Ordering.gt _ = ⊥

abbrev Scalar : Ordering → Ordering → Ordering → Type 0
Scalar Ordering.lt _ _ = Unit
Scalar Ordering.eq o p = Both o p
Scalar Ordering.gt o p = Both o p

abbrev less : (o : Ordering) → Option (IsLt o)
less Ordering.lt = some tt
less Ordering.eq = none
less Ordering.gt = none

abbrev both_less : (o p : Ordering) → Option (Both o p)
both_less Ordering.lt p = less p
both_less Ordering.eq p = none
both_less Ordering.gt p = none

abbrev test_scalar : (o p q : Ordering) → Option (Scalar o p q)
test_scalar Ordering.lt p q = some tt
test_scalar Ordering.eq p q = both_less p q
test_scalar Ordering.gt p q = both_less p q

less_found : (o : Ordering) → IsLt o → (x : IsLt o) × (less o ≡ some x)
less_found Ordering.lt h = (tt, refl)
less_found Ordering.eq h = absurd h
less_found Ordering.gt h = absurd h

both_less_found : (o p : Ordering) → Both o p → (x : Both o p) × (both_less o p ≡ some x)
both_less_found Ordering.lt p h = less_found p h
both_less_found Ordering.eq p h = absurd h
both_less_found Ordering.gt p h = absurd h

test_scalar_found :
    (o p q : Ordering) → Scalar o p q → (x : Scalar o p q) × (test_scalar o p q ≡ some x)
test_scalar_found Ordering.lt p q h = (tt, refl)
test_scalar_found Ordering.eq p q h = both_less_found p q h
test_scalar_found Ordering.gt p q h = both_less_found p q h

abbrev scalar_of : (n : ℕ) → Option (IsScalar n)
scalar_of n = test_scalar (compare n 55296) (compare 57343 n) (compare n 1114112)

abbrev char_at : (n : ℕ) → Option (IsScalar n) → Char
char_at n none = nul
char_at n (some p) = char n p

char_at-code : (c : Char) → char_at (code c) (scalar_of (code c)) ≡ c
char_at-code (char n p) =
    let (x, found) = test_scalar_found (compare n 55296) (compare 57343 n) (compare n 1114112) p in
    ap (char_at n) found ∙ Char-path (char n x) (char n p) refl

abbrev pub text_of : Bytes → String
text_of [] = ""
text_of (n ∷ ns) = String.◌∷◌ (char_at n (scalar_of n)) (text_of ns)

pub text_of-codes : (s : String) → text_of (codes s) ≡ s
text_of-codes String.[] = refl
text_of-codes (String.◌∷◌ c s) =
    ap (λ d. String.◌∷◌ d (text_of (codes s))) (char_at-code c)
    ∙ ap (String.◌∷◌ c) (text_of-codes s)

abbrev inflate : Bytes → Result Bytes
inflate [] = err value_error
inflate (_ ∷ bytes) = ok bytes

abbrev pub plain : Codecs
plain = record {
  md5_hex = λ b. str (length b);
  sha256_hex = λ b. "h";
  compress = λ b. 0 ∷ b;
  decompress = inflate;
  encode = codes;
  decode = λ b. ok (text_of b);
}

pub plain_decode-encode : (s : String) → plain.decode (plain.encode s) ≡ ok s
plain_decode-encode s = ap ok (text_of-codes s)

pub plain_long : (s : String) → length (codes s) ≤ length (plain.encode s)
plain_long s = omega arith

pub plain_inflate : (bytes : Bytes) → plain.decompress (plain.compress bytes) ≡ ok bytes
plain_inflate bytes = refl

pub plain_filled : (bytes : Bytes) → 0 < length (plain.compress bytes)
plain_filled bytes = omega arith
