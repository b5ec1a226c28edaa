-- ===== src/Text.antt =====
-- Texts as the programs read and write them: `split` and `join` of str, and decimal numbers.
pub mod Split
pub mod Decimal
pub mod Prefix
use Prim.Native.Char.{Char, code}
use cloudmer_cloud_storage.Prelude.{
  ℕ, zero, suc, ◌+◌, ◌-◌, ◌*◌, ◌/◌, ◌%◌, String, ◌<>◌, Bool, List, [], ◌∷◌, Bytes, leb, ltb, ◌==◌,
  ◌&&◌, true, false, if◌then◌else◌, Result, ok, err, value_error,
}

-- The code points of a text: its bytes, if it is ASCII.
abbrev pub codes : String → Bytes
codes String.[] = []
codes (String.◌∷◌ c s) = code c ∷ codes s

abbrev pub prepend : Char → List String → List String
prepend c [] = String.◌∷◌ c "" ∷ []
prepend c (p ∷ ps) = String.◌∷◌ c p ∷ ps

-- `s.split(sep)` for a separator of one character, given by its code.
unfoldable pub split : ℕ → String → List String
split sep String.[] = "" ∷ []
split sep (String.◌∷◌ c s) =
    let rest = split sep s in if code c == sep then "" ∷ rest else prepend c rest

-- `sep.join(parts)`
unfoldable pub join : String → List String → String
join sep [] = ""
join sep (p ∷ []) = p
join sep (p ∷ q ∷ ps) = p <> (sep <> join sep (q ∷ ps))

-- `s.startswith(prefix)`
unfoldable pub begins_with : String → String → Bool
begins_with s String.[] = true
begins_with String.[] (String.◌∷◌ c prefix) = false
begins_with (String.◌∷◌ d s) (String.◌∷◌ c prefix) = (code d == code c) && begins_with s prefix

-- The code points before the one at `n`: `s[:n]`.
unfoldable pub first_chars : ℕ → String → String
first_chars zero s = ""
first_chars (suc n) String.[] = ""
first_chars (suc n) (String.◌∷◌ c s) = String.◌∷◌ c (first_chars n s)

-- The digit of a number below 10.
unfoldable pub digit : ℕ → Char
digit zero = "0"
digit (suc zero) = "1"
digit (suc (suc zero)) = "2"
digit (suc (suc (suc zero))) = "3"
digit (suc (suc (suc (suc zero)))) = "4"
digit (suc (suc (suc (suc (suc zero))))) = "5"
digit (suc (suc (suc (suc (suc (suc zero)))))) = "6"
digit (suc (suc (suc (suc (suc (suc (suc zero))))))) = "7"
digit (suc (suc (suc (suc (suc (suc (suc (suc zero)))))))) = "8"
digit (suc (suc (suc (suc (suc (suc (suc (suc (suc _))))))))) = "9"

unfoldable pub digits : ℕ → ℕ → String → String
unfolding digit
digits zero n out = out
digits (suc fuel) n out =
    let out' = String.◌∷◌ (digit (n % 10)) out in
    elim (ltb n 10) [ true ↦ out' | false ↦ digits fuel (n / 10) out' ]

-- `str(n)`
unfoldable pub str : ℕ → String
unfolding digits
str n = digits (suc n) n ""

unfoldable pub scan : Bytes → ℕ → Result ℕ
scan [] n = ok n
scan (c ∷ s) n =
    let rest = scan s (n * 10 + (c - b'0')) in
    if leb b'0' c && leb c b'9' then rest else err value_error

-- `int(s)` on a text of digits. The signs, spaces and underscores that `int` also reads are not
-- written by any part of the program.
unfoldable pub int_of : Bytes → Result ℕ
unfolding scan
int_of [] = err value_error
int_of (c ∷ s) = scan (c ∷ s) 0
