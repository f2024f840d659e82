-- ===== src/Common/Int.antt =====
-- Go's int, int32 and int64 where the code only stores and compares them: `negsuc n` is -(n + 1).
use Prim.Native.Nat.{ℕ, ◌+◌, ◌-◌, ◌%◌, ◌^◌}
use mathlib.Core.Path.{◌≡◌}
use mathlib.Core.Logic.{◌↔◌}
use mathlib.Core.Bool.{Bool, true, false}
use native.Mathlib.Omega.{arith}
use gate_lens.Common.Tests.{ltb, nat_eq, if◌then◌else◌}

pub data ℤ : Type 0 where
  pos : ℕ → ℤ
  negsuc : ℕ → ℤ

abbrev pub int_eq : ℤ → ℤ → Bool
int_eq (pos a) (pos b) = nat_eq a b
int_eq (negsuc a) (negsuc b) = nat_eq a b
int_eq (pos _) (negsuc _) = false
int_eq (negsuc _) (pos _) = false

abbrev pub int_ltb : ℤ → ℤ → Bool
int_ltb (pos a) (pos b) = ltb a b
int_ltb (negsuc a) (negsuc b) = ltb b a
int_ltb (pos _) (negsuc _) = false
int_ltb (negsuc _) (pos _) = true

-- The test `n > 0`.
abbrev pub is_positive : ℤ → Bool
is_positive n = int_ltb (pos 0) n

pub int_eq_iff : (a b : ℤ) → (int_eq a b ≡ true) ↔ (a ≡ b)
int_eq_iff (pos a) (pos b) = ground arith
int_eq_iff (negsuc a) (negsuc b) = ground arith
int_eq_iff (pos a) (negsuc b) = ground arith
int_eq_iff (negsuc a) (pos b) = ground arith

abbrev modulus64 : ℕ
modulus64 = 2 ^ 64

-- The int64 with these low 64 bits.
wrap64 : ℤ → ℤ
wrap64 (pos n) =
    let low = n % modulus64 in if ltb low (2 ^ 63) then pos low else negsuc (modulus64 - low - 1)
wrap64 (negsuc n) =
    let low = n % modulus64 in if ltb low (2 ^ 63) then negsuc low else pos (modulus64 - low - 1)

exact_sum : ℤ → ℤ → ℤ
exact_sum (pos a) (pos b) = pos (a + b)
exact_sum (negsuc a) (negsuc b) = negsuc (a + b + 1)
exact_sum (pos a) (negsuc b) = if ltb b a then pos (a - b - 1) else negsuc (b - a)
exact_sum (negsuc a) (pos b) = if ltb a b then pos (b - a - 1) else negsuc (a - b)

-- Go's `+` on int, of 64 bits.
unfoldable pub int_add : ℤ → ℤ → ℤ
unfolding wrap64 exact_sum
int_add a b = wrap64 (exact_sum a b)
