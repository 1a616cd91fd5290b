-- ===== src/Common/Words.antt =====
-- Machine words of the C sources: a w-bit word is its bit pattern, a number below 2 ^ w, and the
-- signed tests read the pattern in two's complement.
use Prim.Native.Nat.{ℕ, zero, suc, ◌+◌, ◌-◌, ◌%◌, ◌^◌}
use mathlib.Core.Bool.{Bool, false, ◌&&◌}
use is_there_entropy_down_th.Common.Tests.{ltb, leb, if◌then◌else◌}

-- Wrap-around of the unsigned types.
abbrev pub u8 : ℕ → ℕ
u8 n = n % 2 ^ 8

abbrev pub u32 : ℕ → ℕ
u32 n = n % 2 ^ 32

abbrev pub u64 : ℕ → ℕ
u64 n = n % 2 ^ 64

-- `a - b` on `unsigned long long`; the modulus is added first since `-` stops at 0.
abbrev pub sub64 : ℕ → ℕ → ℕ
sub64 a b = (a + 2 ^ 64 - b) % 2 ^ 64

-- -1 as a 64-bit pattern.
abbrev pub minus_one64 : ℕ
minus_one64 = 2 ^ 64 - 1

-- `n > k` and `n >= k`, signed, for a non-negative constant k.
abbrev pub gt_signed32 : ℕ → ℕ → Bool
gt_signed32 n k = ltb n (2 ^ 31) && ltb k n

abbrev pub ge_signed32 : ℕ → ℕ → Bool
ge_signed32 n k = ltb n (2 ^ 31) && leb k n

abbrev pub gt_signed64 : ℕ → ℕ → Bool
gt_signed64 n k = ltb n (2 ^ 63) && ltb k n

-- Conversion of an `int` to a `long long`: the sign bit fills the upper half.
abbrev pub sign_extend32 : ℕ → ℕ
sign_extend32 n = if leb (2 ^ 31) n then n + (2 ^ 64 - 2 ^ 32) else n

-- A small signed value: `minus n` is -(n + 1).
pub data Signed : Type 0 where
  plus : ℕ → Signed
  minus : ℕ → Signed

abbrev pub negate : ℕ → Signed
negate zero = plus 0
negate (suc n) = minus n

-- `n % k` of an `int`, which rounds towards zero.
abbrev pub rem_signed32 : ℕ → ℕ → Signed
rem_signed32 n k = if leb (2 ^ 31) n then negate ((2 ^ 32 - n) % k) else plus (n % k)

abbrev pub ge_signed : Signed → ℕ → Bool
ge_signed (plus n) k = leb k n
ge_signed (minus n) k = false
