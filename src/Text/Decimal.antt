-- ===== src/Text/Decimal.antt =====
-- Decimal numbers are read back, also behind leading zeros, and their length is bounded.
use Prim.Native.Char.{code}
use cloudmer_cloud_storage.Prelude.{
  ℕ, zero, suc, ◌+◌, ◌*◌, ◌/◌, ◌%◌, ◌≤◌, ◌<◌, ◌≡◌, ◌≢◌, refl, ◌∙◌, String, [], ◌∷◌, ◌++◌, Bytes,
  length, ltb, Bool-cases, inl, inr, arith, if◌then◌else◌, ok,
}
use cloudmer_cloud_storage.Text.{codes, digit, digits, str, scan, int_of}
use cloudmer_cloud_storage.Text.Split.{Lacks}

pub code-digit : (d : ℕ) → d < 10 → code (digit d) ≡ b'0' + d
unfolding digit
code-digit zero h = refl
code-digit (suc zero) h = refl
code-digit (suc (suc zero)) h = refl
code-digit (suc (suc (suc zero))) h = refl
code-digit (suc (suc (suc (suc zero)))) h = refl
code-digit (suc (suc (suc (suc (suc zero))))) h = refl
code-digit (suc (suc (suc (suc (suc (suc zero)))))) h = refl
code-digit (suc (suc (suc (suc (suc (suc (suc zero))))))) h = refl
code-digit (suc (suc (suc (suc (suc (suc (suc (suc zero)))))))) h = refl
code-digit (suc (suc (suc (suc (suc (suc (suc (suc (suc zero))))))))) h = refl
code-digit (suc (suc (suc (suc (suc (suc (suc (suc (suc (suc n)))))))))) h = absurd (omega arith)

scan-digit :
    (d : ℕ) (s : Bytes) (n : ℕ) → d < 10 → scan (code (digit d) ∷ s) n ≡ scan s (n * 10 + d)
unfolding scan
scan-digit d s n h = let e = code-digit d h in ground arith

digits_step :
    (fuel n : ℕ) (out : String)
    → digits (suc fuel) n out ≡ (
        if ltb n 10
        then String.◌∷◌ (digit (n % 10)) out
        else digits fuel (n / 10) (String.◌∷◌ (digit (n % 10)) out))
unfolding digits
digits_step fuel n out = ground arith

-- Reading the digits of `n` amounts to reading what follows behind `n`.
scan-digits :
    (fuel n : ℕ) (out : String) → n < fuel → scan (codes (digits fuel n out)) 0 ≡ scan (codes out) n
scan-digits zero n out h = absurd (omega arith)
scan-digits (suc fuel) n out h = ground (
  arith,
  digits_step fuel n out,
  scan-digits fuel (n / 10) (String.◌∷◌ (digit (n % 10)) out),
  scan-digit (n % 10) (codes out) (n / 10),
  scan-digit (n % 10) (codes out) 0,
)

digits-ne-nil : (fuel n : ℕ) (out : String) → n < fuel → codes (digits fuel n out) ≢ []
digits-ne-nil zero n out h = absurd (omega arith)
digits-ne-nil (suc fuel) n out h =
    ground
      (arith, digits_step fuel n out, digits-ne-nil fuel (n / 10) (String.◌∷◌ (digit (n % 10)) out))

int_of-scan : (s : Bytes) → s ≢ [] → int_of s ≡ scan s 0
unfolding int_of
int_of-scan [] h = absurd (h refl)
int_of-scan (c ∷ s) h = refl

pub scan-str : (n : ℕ) → scan (codes (str n)) 0 ≡ ok n
unfolding str scan
scan-str n = scan-digits (suc n) n "" (omega arith)

-- `int(str(n))` is `n`.
pub int_of-str : (n : ℕ) → int_of (codes (str n)) ≡ ok n
unfolding str
int_of-str n =
    int_of-scan (codes (digits (suc n) n "")) (digits-ne-nil (suc n) n "" (omega arith))
    ∙ scan-str n

-- Ten times ten, `k` times.
abbrev pub limit : ℕ → ℕ
limit zero = 10
limit (suc k) = 10 * limit k

length-digits :
    (k fuel n : ℕ) (out : String)
    → n < limit k
    → n < fuel
    → length (codes (digits fuel n out)) ≤ suc k + length (codes out)
length-digits k zero n out b h = absurd (omega arith)
length-digits zero (suc fuel) n out b h = ground (arith, digits_step fuel n out)
length-digits (suc k) (suc fuel) n out b h =
    ground (
      arith,
      digits_step fuel n out,
      length-digits k fuel (n / 10) (String.◌∷◌ (digit (n % 10)) out),
    )

-- The text of a number below the limit for `k` has at most `k + 1` digits.
pub length-str : (k n : ℕ) → n < limit k → length (codes (str n)) ≤ suc k
unfolding str
length-str k n b = omega (arith, length-digits k (suc n) n "" b (omega arith))

length-digits_filled :
    (fuel n : ℕ) (out : String)
    → n < fuel
    → suc (length (codes out)) ≤ length (codes (digits fuel n out))
length-digits_filled zero n out h = absurd (omega arith)
length-digits_filled (suc fuel) n out h = ground (
  arith,
  digits_step fuel n out,
  length-digits_filled fuel (n / 10) (String.◌∷◌ (digit (n % 10)) out),
)

limit_pos : (k : ℕ) → 1 ≤ limit k
limit_pos zero = omega arith
limit_pos (suc k) = omega (arith, limit_pos k)

length-digits_long :
    (k fuel n : ℕ) (out : String)
    → limit k ≤ n
    → n < fuel
    → suc (suc k) + length (codes out) ≤ length (codes (digits fuel n out))
length-digits_long k zero n out b h = absurd (omega arith)
length-digits_long zero (suc fuel) n out b h = ground (
  arith,
  digits_step fuel n out,
  length-digits_filled fuel (n / 10) (String.◌∷◌ (digit (n % 10)) out),
)
length-digits_long (suc k) (suc fuel) n out b h = ground (
  arith,
  limit_pos k,
  digits_step fuel n out,
  length-digits_long k fuel (n / 10) (String.◌∷◌ (digit (n % 10)) out),
)

-- And from the limit on it has more.
pub length-str_long : (k n : ℕ) → limit k ≤ n → suc (suc k) ≤ length (codes (str n))
unfolding str
length-str_long k n b = omega (arith, length-digits_long k (suc n) n "" b (omega arith))

-- No digit is the separator.
digits-Lacks :
    (sep fuel n : ℕ) (out : String) → b'9' < sep → Lacks sep out → Lacks sep (digits fuel n out)
unfolding digits
digits-Lacks sep zero n out h l = l
digits-Lacks sep (suc fuel) n out h l =
    let d : code (digit (n % 10)) ≢ sep =
      λ e. (let c = code-digit (n % 10) (omega arith) in omega arith) in
    elim (Bool-cases (ltb n 10)) [
      | inl last ↦ rw (last, digits) (d, l)
      | inr more ↦
          rw (more, digits)
            (digits-Lacks sep fuel (n / 10) (String.◌∷◌ (digit (n % 10)) out) h (d, l))
    ]

pub str-Lacks : (sep n : ℕ) → b'9' < sep → Lacks sep (str n)
unfolding str
str-Lacks sep n h = digits-Lacks sep (suc n) n "" h tt

abbrev pub AllZero : Bytes → Type 0
AllZero [] = Unit
AllZero (c ∷ s) = (c ≡ b'0') × AllZero s

pub scan-zeros : (s zeros : Bytes) → AllZero zeros → scan (zeros ++ s) 0 ≡ scan s 0
unfolding scan
scan-zeros s [] z = refl
scan-zeros s (c ∷ zs) (z, h) = rw z (scan-zeros s zs h)
