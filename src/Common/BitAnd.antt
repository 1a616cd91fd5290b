-- ===== src/Common/BitAnd.antt =====
-- `&` with a mask of four ones, from the digits that the native operation stands for.
use Prim.Native.Nat.{ℕ, zero, suc, ◌+◌, ◌*◌, ◌/◌, ◌%◌, ◌≤◌, min, bit_and, bit_and-bitwise, digits}
use mathlib.Core.Path.{◌≡◌, refl}
use native.Mathlib.Omega.{arith}

abbrev digits_and : ℕ → ℕ → ℕ → ℕ
digits_and = digits (λ _. 0) min

-- The fuel does not matter once it covers the first number.
digits_enough : (m n a b : ℕ) → a ≤ m → a ≤ n → digits_and m a b ≡ digits_and n a b
digits_enough zero zero zero b h k = refl
digits_enough zero (suc n) zero b h k = refl
digits_enough (suc m) zero zero b h k = refl
digits_enough (suc m) (suc n) zero b h k = refl
digits_enough zero n (suc a) b h k = absurd (omega arith)
digits_enough (suc m) zero (suc a) b h k = absurd (omega arith)
digits_enough (suc m) (suc n) (suc a) b h k =
    rw (digits_enough m n (suc a / 2) (b / 2) (omega arith) (omega arith))

pub bit_and-half : (a b : ℕ) → bit_and a b ≡ bit_and (a / 2) (b / 2) * 2 + min (a % 2) (b % 2)
bit_and-half zero b = omega (arith, bit_and-bitwise 0 b, bit_and-bitwise 0 (b / 2))
bit_and-half (suc a) b = omega (
  arith,
  bit_and-bitwise (suc a) b,
  bit_and-bitwise (suc a / 2) (b / 2),
  digits_enough a (suc a / 2) (suc a / 2) (b / 2) (omega arith) (omega arith),
)

pub bit_and-zero : (n a : ℕ) → a ≤ n → bit_and a 0 ≡ 0
bit_and-zero n zero h = refl
bit_and-zero zero (suc a) h = absurd (omega arith)
bit_and-zero (suc n) (suc a) h =
    omega (arith, bit_and-half (suc a) 0, bit_and-zero n (suc a / 2) (omega arith))

pub bit_and_bit : (a : ℕ) → bit_and a 1 ≡ a % 2
bit_and_bit a = omega (arith, bit_and-half a 1, bit_and-zero (a / 2) (a / 2) (omega arith))

pub bit_and_nibble : (a : ℕ) → bit_and a 0xf ≡ a % 16
bit_and_nibble a = omega (
  arith,
  bit_and-half a 15,
  bit_and-half (a / 2) 7,
  bit_and-half (a / 2 / 2) 3,
  bit_and_bit (a / 2 / 2 / 2),
)
