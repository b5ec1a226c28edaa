-- ===== src/Prelude/Xor.antt =====
-- Exclusive or on numbers of every width, from the digit recursion that it stands for.
use Prim.Native.Nat.{
  ℕ, zero, suc, ◌+◌, ◌*◌, ◌/◌, ◌%◌, ◌≤◌, ◌<◌, bit_xor, digits, bit_xor-bitwise, differ,
}
use mathlib.Core.Path.{◌≡◌, refl}
use native.Mathlib.Omega.{arith}

abbrev xor_digits : ℕ → ℕ → ℕ → ℕ
xor_digits n a b = digits (λ b. b) differ n a b

xor_digits_fuel : (n m a b : ℕ) → a ≤ n → a ≤ m → xor_digits n a b ≡ xor_digits m a b
xor_digits_fuel zero zero a b p q = refl
xor_digits_fuel zero (suc m) zero b p q = refl
xor_digits_fuel zero (suc m) (suc a) b p q = absurd (omega arith)
xor_digits_fuel (suc n) zero zero b p q = refl
xor_digits_fuel (suc n) zero (suc a) b p q = absurd (omega arith)
xor_digits_fuel (suc n) (suc m) zero b p q = refl
xor_digits_fuel (suc n) (suc m) (suc a) b p q =
    omega (arith, xor_digits_fuel n m (suc a / 2) (b / 2) (omega arith) (omega arith))

zero-bit_xor : (b : ℕ) → bit_xor 0 b ≡ b
zero-bit_xor b = bit_xor-bitwise 0 b

abbrev bit_sum : ℕ → ℕ → ℕ
bit_sum a b = (a % 2 + b % 2) % 2

differ_bits : (x y : ℕ) → x < 2 → y < 2 → differ x y ≡ (x + y) % 2
differ_bits zero zero p q = refl
differ_bits zero (suc zero) p q = refl
differ_bits zero (suc (suc y)) p q = absurd (omega arith)
differ_bits (suc zero) zero p q = refl
differ_bits (suc zero) (suc zero) p q = refl
differ_bits (suc zero) (suc (suc y)) p q = absurd (omega arith)
differ_bits (suc (suc x)) y p q = absurd (omega arith)

bit_xor_step : (a b : ℕ) → bit_xor a b ≡ bit_xor (a / 2) (b / 2) * 2 + bit_sum a b
bit_xor_step zero b = omega (arith, zero-bit_xor b, zero-bit_xor (b / 2))
bit_xor_step (suc a) b = omega (
  arith,
  bit_xor-bitwise (suc a) b,
  bit_xor-bitwise (suc a / 2) (b / 2),
  xor_digits_fuel a (suc a / 2) (suc a / 2) (b / 2) (omega arith) (omega arith),
  differ_bits (suc a % 2) (b % 2) (omega arith) (omega arith),
)

-- The laws go by induction on a bound, which is at least half of the numbers one level down.
bit_xor-zero_below : (n a : ℕ) → a ≤ n → bit_xor a 0 ≡ a
bit_xor-zero_below n zero h = refl
bit_xor-zero_below zero (suc a) h = absurd (omega arith)
bit_xor-zero_below (suc n) (suc a) h =
    omega (arith, bit_xor_step (suc a) 0, bit_xor-zero_below n (suc a / 2) (omega arith))

bit_xor-self_below : (n a : ℕ) → a ≤ n → bit_xor a a ≡ 0
bit_xor-self_below n zero h = refl
bit_xor-self_below zero (suc a) h = absurd (omega arith)
bit_xor-self_below (suc n) (suc a) h =
    omega (arith, bit_xor_step (suc a) (suc a), bit_xor-self_below n (suc a / 2) (omega arith))

bit_xor-comm_below : (n a b : ℕ) → a ≤ n → b ≤ n → bit_xor a b ≡ bit_xor b a
bit_xor-comm_below zero a b p q =
    let x : a ≡ 0 = omega arith in let y : b ≡ 0 = omega arith in rw (x, y)
bit_xor-comm_below (suc n) a b p q = omega (
  arith,
  bit_xor_step a b,
  bit_xor_step b a,
  bit_xor-comm_below n (a / 2) (b / 2) (omega arith) (omega arith),
)

xor_halves :
    (a b : ℕ) → (bit_xor a b / 2 ≡ bit_xor (a / 2) (b / 2)) × (bit_xor a b % 2 ≡ bit_sum a b)
xor_halves a b = (omega (arith, bit_xor_step a b), omega (arith, bit_xor_step a b))

bit_sum_assoc :
    (a b c : ℕ) → (((a % 2 + b % 2) % 2) + c % 2) % 2 ≡ (a % 2 + ((b % 2 + c % 2) % 2)) % 2
bit_sum_assoc a b c = omega arith

bit_xor-assoc_below :
    (n a b c : ℕ) → a ≤ n → b ≤ n → c ≤ n → bit_xor (bit_xor a b) c ≡ bit_xor a (bit_xor b c)
bit_xor-assoc_below zero a b c p q r =
    let x : a ≡ 0 = omega arith in
    let y : b ≡ 0 = omega arith in let z : c ≡ 0 = omega arith in rw (x, y, z)
bit_xor-assoc_below (suc n) a b c p q r =
    rw (bit_xor_step (bit_xor a b) c, bit_xor_step a (bit_xor b c))
      (rw ((xor_halves a b).0, (xor_halves b c).0, (xor_halves a b).1, (xor_halves b c).1)
        (rw
          (bit_xor-assoc_below n (a / 2) (b / 2) (c / 2) (omega arith) (omega arith) (omega arith))
          (omega (arith, bit_sum_assoc a b c))))

pub bit_xor-zero : (a : ℕ) → bit_xor a 0 ≡ a
bit_xor-zero a = bit_xor-zero_below a a (omega arith)

pub bit_xor_self : (a : ℕ) → bit_xor a a ≡ 0
bit_xor_self a = bit_xor-self_below a a (omega arith)

pub bit_xor_comm : (a b : ℕ) → bit_xor a b ≡ bit_xor b a
bit_xor_comm a b = bit_xor-comm_below (a + b) a b (omega arith) (omega arith)

pub bit_xor_assoc : (a b c : ℕ) → bit_xor (bit_xor a b) c ≡ bit_xor a (bit_xor b c)
bit_xor_assoc a b c =
    bit_xor-assoc_below (a + b + c) a b c (omega arith) (omega arith) (omega arith)

-- Applying one operand a second time takes it away.
pub bit_xor-cancel : (a b : ℕ) → bit_xor (bit_xor a b) b ≡ a
bit_xor-cancel a b = rw (bit_xor_assoc, bit_xor_self, bit_xor-zero)
