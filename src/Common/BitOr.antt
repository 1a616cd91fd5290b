-- ===== src/Common/BitOr.antt =====
-- `|` with a number of one bit, from the digits that the native operation stands for.
use Prim.Native.Nat.{ℕ, zero, suc, ◌+◌, ◌*◌, ◌/◌, ◌%◌, ◌≤◌, max, bit_or, bit_or-bitwise, digits}
use mathlib.Core.Path.{◌≡◌, refl, ap, ◌∙◌}
use native.Mathlib.Omega.{arith}

abbrev digits_or : ℕ → ℕ → ℕ → ℕ
digits_or = digits (λ b. b) max

-- The fuel does not matter once it covers the first number.
digits_enough : (m n a b : ℕ) → a ≤ m → a ≤ n → digits_or m a b ≡ digits_or n a b
digits_enough zero zero zero b h k = refl
digits_enough zero (suc n) zero b h k = refl
digits_enough (suc m) zero zero b h k = refl
digits_enough (suc m) (suc n) zero b h k = refl
digits_enough zero n (suc a) b h k = absurd (omega arith)
digits_enough (suc m) zero (suc a) b h k = absurd (omega arith)
digits_enough (suc m) (suc n) (suc a) b h k =
    rw (digits_enough m n (suc a / 2) (b / 2) (omega arith) (omega arith))

pub bit_or-half : (a b : ℕ) → bit_or a b ≡ bit_or (a / 2) (b / 2) * 2 + max (a % 2) (b % 2)
bit_or-half zero b = omega (arith, bit_or-bitwise 0 b, bit_or-bitwise 0 (b / 2))
bit_or-half (suc a) b = omega (
  arith,
  bit_or-bitwise (suc a) b,
  bit_or-bitwise (suc a / 2) (b / 2),
  digits_enough a (suc a / 2) (suc a / 2) (b / 2) (omega arith) (omega arith),
)

pub bit_or-zero : (n a : ℕ) → a ≤ n → bit_or a 0 ≡ a
bit_or-zero n zero h = refl
bit_or-zero zero (suc a) h = absurd (omega arith)
bit_or-zero (suc n) (suc a) h =
    omega (arith, bit_or-half (suc a) 0, bit_or-zero n (suc a / 2) (omega arith))

-- A bit is put behind the bits of a number.
pub bit_or_bit : (a s : ℕ) → s ≤ 1 → bit_or (a * 2) s ≡ a * 2 + s
bit_or_bit a s h =
    let upper : a * 2 / 2 ≡ a = omega arith in
    let lower : s / 2 ≡ 0 = omega arith in
    bit_or-half (a * 2) s
    ∙ ap (λ u. u * 2 + max (a * 2 % 2) (s % 2))
        ((λ i. bit_or (upper i) (lower i)) ∙ bit_or-zero a a (omega arith))
    ∙ omega arith
