-- ===== src/Text/Prefix.antt =====
-- Prefixes of texts that are put together.
use Prim.Native.Char.{Char, code}
use cloudmer_cloud_storage.Prelude.{
  ℕ, zero, suc, ◌≡◌, refl, ap, String, ◌<>◌, true, false, length, ◌==◌, arith,
}
use text.Mathlib.TextLemmas.{cons-append}
use cloudmer_cloud_storage.Text.{codes, begins_with, first_chars}

pub begins_with_append : (prefix t : String) → begins_with (prefix <> t) prefix ≡ true
unfolding begins_with
begins_with_append String.[] t = refl
begins_with_append (String.◌∷◌ c s) t =
    let same : (code c == code c) ≡ true = ground arith in
    rw (cons-append c s t) (rw same (begins_with_append s t))

-- The first characters differ.
pub begins_with_apart :
    (c d : Char) (s t prefix : String)
    → (code c == code d) ≡ false
    → begins_with (String.◌∷◌ c s <> t) (String.◌∷◌ d prefix) ≡ false
unfolding begins_with
begins_with_apart c d s t prefix apart = rw (cons-append c s t) (rw apart refl)

pub first_chars_append : (s t : String) (n : ℕ) → n ≡ length (codes s) → first_chars n (s <> t) ≡ s
unfolding first_chars
first_chars_append String.[] t zero e = refl
first_chars_append String.[] t (suc n) e = absurd (omega arith)
first_chars_append (String.◌∷◌ c s) t zero e = absurd (omega arith)
first_chars_append (String.◌∷◌ c s) t (suc n) e =
    rw (cons-append c s t) (ap (String.◌∷◌ c) (first_chars_append s t n (omega arith)))
