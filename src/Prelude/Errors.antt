-- ===== src/Prelude/Errors.antt =====
-- Python's exceptions as values, and the bytes that the parts share.
use Prim.Native.Nat.{ℕ}
use mathlib.Core.List.{List}

abbrev pub Bytes : Type 0
Bytes = List ℕ

pub data Error : Type 0 where
  value_error index_error key_error zero_division stop_iteration assertion_error struct_error
        unicode_error timeout_error attribute_error :
      Error

pub data Result {ℓ} (A : Type ℓ) : Type ℓ where
  ok : A → Result A
  err : Error → Result A

infixl 5 ◌>>=◌
abbrev pub ◌>>=◌ {ℓ κ} : {A : Type ℓ} {B : Type κ} → Result A → (A → Result B) → Result B
ok a >>= f = f a
err e >>= f = err e
