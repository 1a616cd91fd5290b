-- ===== src/Common/Decimal.antt =====
-- `%lu` of sprintf and of the kernel's sscanf: decimal digits as bytes.
use Prim.Native.Nat.{ℕ, zero, suc, ◌+◌, ◌-◌, ◌*◌, ◌/◌, ◌%◌, ◌^◌, ◌<◌}
use mathlib.Core.Path.{◌≡◌, refl, ◌∙◌, ap, sym}
use mathlib.Core.Bool.{Bool, true, false, ◌&&◌, ◌||◌}
use mathlib.Core.Option.{Option, none, some}
use mathlib.Core.Logic.{inl, inr}
use mathlib.Core.List.{List, [], ◌∷◌}
use native.Mathlib.Nat.{pow-suc}
use native.Mathlib.Omega.{arith}
use is_there_entropy_down_th.Common.Tests.{ltb, leb, ◌==◌, if◌then◌else◌, Bool-cases}
use is_there_entropy_down_th.Common.Words.{u64}

abbrev pub is_digit : ℕ → Bool
is_digit c = leb b'0' c && leb c b'9'

abbrev pub is_space : ℕ → Bool
is_space c = (c == 32) || (leb 9 c && leb c 13)

-- The digits of n in front of `rest`; a number below 10 ^ fuel needs `fuel` rounds.
pub print_digits : (fuel n : ℕ) → List ℕ → List ℕ
print_digits zero n rest = rest
print_digits (suc fuel) n rest =
    let more = print_digits fuel (n / 10) ((b'0' + n % 10) ∷ rest) in
    if ltb n 10 then (b'0' + n) ∷ rest else more

-- Twenty digits hold every 64-bit number.
unfoldable pub print_lu : ℕ → List ℕ → List ℕ
unfolding print_digits
print_lu n rest = print_digits 20 n rest

-- The value of the digits at the front, after those already read.
pub digits_value : ℕ → List ℕ → ℕ
digits_value v [] = v
digits_value v (c ∷ cs) =
    let more = digits_value (v * 10 + (c - b'0')) cs in if is_digit c then more else v

pub skip_spaces : List ℕ → List ℕ
skip_spaces [] = []
skip_spaces (c ∷ cs) = let rest = skip_spaces cs in if is_space c then rest else c ∷ cs

pub scan_digits : List ℕ → Option ℕ
scan_digits [] = none
scan_digits (c ∷ cs) = if is_digit c then some (u64 (digits_value 0 (c ∷ cs))) else none

-- `none` is a conversion that fails and leaves its argument alone. The value wraps at 64 bits.
unfoldable pub scan_lu : List ℕ → Option ℕ
unfolding scan_digits skip_spaces digits_value
scan_lu cs = scan_digits (skip_spaces cs)

digits_value-digit :
    (v d : ℕ) (rest : List ℕ)
    → d < 10
    → digits_value v ((b'0' + d) ∷ rest) ≡ digits_value (v * 10 + d) rest
unfolding digits_value
digits_value-digit v d rest h =
    let digit : is_digit (b'0' + d) ≡ true = ground arith in
    let value : v * 10 + (b'0' + d - b'0') ≡ v * 10 + d = omega arith in rw (digit, value)

digits_value-print_digits :
    (fuel n : ℕ) (rest : List ℕ)
    → n < 10 ^ suc fuel
    → digits_value 0 (print_digits (suc fuel) n rest) ≡ digits_value n rest
unfolding print_digits
digits_value-print_digits zero n rest h =
    let small : ltb n 10 ≡ true = ground arith in
    rw small
      (digits_value-digit 0 n rest (omega arith) ∙ ap (λ v. digits_value v rest) (omega arith))
digits_value-print_digits (suc fuel) n rest h = elim (Bool-cases (ltb n 10)) [
  | inl e ↦
      rw e
        (digits_value-digit 0 n rest (ground arith) ∙ ap (λ v. digits_value v rest) (omega arith))
  | inr e ↦ rw e (
      digits_value-print_digits fuel (n / 10) ((b'0' + n % 10) ∷ rest)
        (grind (arith, pow-suc 10 (suc fuel)))
      ∙ digits_value-digit (n / 10) (n % 10) rest (omega arith)
      ∙ ap (λ v. digits_value v rest) (omega arith))
]

abbrev StartsWithDigit : List ℕ → Type 0
StartsWithDigit l = (c : ℕ) × (cs : List ℕ) × (l ≡ c ∷ cs) × (is_digit c ≡ true)

print_digits_tail :
    (fuel n c : ℕ) (cs : List ℕ)
    → is_digit c ≡ true
    → StartsWithDigit (print_digits fuel n (c ∷ cs))
unfolding print_digits
print_digits_tail zero n c cs h = (c, cs, refl, h)
print_digits_tail (suc fuel) n c cs h = elim (Bool-cases (ltb n 10)) [
  | inl e ↦ (b'0' + n, c ∷ cs, rw e, ground arith)
  | inr e ↦ rw e (print_digits_tail fuel (n / 10) (b'0' + n % 10) (c ∷ cs) (ground arith))
]

-- What is printed starts with a digit, so nothing is skipped.
print_digits_head : (fuel n : ℕ) (rest : List ℕ) → StartsWithDigit (print_digits (suc fuel) n rest)
unfolding print_digits
print_digits_head fuel n rest = elim (Bool-cases (ltb n 10)) [
  | inl e ↦ (b'0' + n, rest, rw e, ground arith)
  | inr e ↦ rw e (print_digits_tail fuel (n / 10) (b'0' + n % 10) rest (ground arith))
]

scan_digits_head :
    (c : ℕ) (cs : List ℕ)
    → is_digit c ≡ true
    → scan_digits (skip_spaces (c ∷ cs)) ≡ some (u64 (digits_value 0 (c ∷ cs)))
unfolding scan_digits skip_spaces
scan_digits_head c cs h = let solid : is_space c ≡ false = ground arith in rw (solid, h)

-- Reading back what was printed, whatever follows that is no digit.
pub scan_lu-print_lu :
    (n : ℕ) (c : ℕ) (rest : List ℕ)
    → n < 2 ^ 64
    → is_digit c ≡ false
    → scan_lu (print_lu n (c ∷ rest)) ≡ some n
unfolding scan_lu print_lu
scan_lu-print_lu n c rest h stop =
    let (d, ds, e, digit) = print_digits_head 19 n (c ∷ rest) in
    let wraps : u64 n ≡ n = omega arith in
    let value : digits_value 0 (d ∷ ds) ≡ n =
      ap (digits_value 0) (sym e)
      ∙ digits_value-print_digits 19 n (c ∷ rest) (omega arith)
      ∙ rw stop in
    rw e (scan_digits_head d ds digit ∙ ap (λ v. some (u64 v)) value ∙ ap some wraps)
