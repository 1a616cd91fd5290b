-- ===== src/Assess/Estimates.antt =====
-- cpp/non_iid/collision_test.h and cpp/shared/most_common.h: two estimates of the min-entropy. The
-- arithmetic on doubles is a parameter.
use is_there_entropy_down_th.Common.{
  ℕ, zero, suc, ◌+◌, ◌-◌, ◌*◌, Bool, true, false, Option, none, some, List, [], ◌∷◌, if◌then◌else◌,
  ltb, ◌==◌, ◌>>=◌, length, set, get_elem?, replicate,
}
pub mod WaitTimes
pub mod Mode
pub mod Whole
pub mod Tests

-- The operations of `double` that the estimates use; `literal` gives the constants by their place in
-- `Constant`.
pub data Constant : Type 0 where
  zalpha half one one_and_quarter two two_and_half : Constant

pub record Double : Type 1 where
  pub Value : Type 0
  pub literal : Constant → Value
  pub of_long : ℕ → Value
  pub add : Value → Value → Value
  pub sub : Value → Value → Value
  pub mul : Value → Value → Value
  pub divide : Value → Value → Value
  pub sqrt : Value → Value
  pub minus_log2 : Value → Value
  pub less : Value → Value → Bool
  pub at_least : Value → Value → Bool

-- The number v of collisions, the sum i of their wait times, and the sum s of the squares. The sum s
-- is a double that holds a whole number.
pub record WaitSums : Type 0 where
  pub v : ℕ
  pub i : ℕ
  pub s : ℕ

abbrev pub wait : (t_v : ℕ) → WaitSums → WaitSums
wait t_v w = record { v = suc w.v; i = w.i + t_v; s = w.s + t_v * t_v }

-- `while(i < len-1)`: the samples from i on.
pub wait_times : List ℕ → WaitSums → WaitSums
wait_times [] w = w
wait_times (x ∷ []) w = w
wait_times (x ∷ y ∷ []) w = if x == y then wait 2 w else w
wait_times (x ∷ y ∷ z ∷ samples) w = elim (x == y) [
  | true ↦ wait_times (z ∷ samples) (wait 2 w)
  | false ↦ wait_times samples (wait 3 w)
]

module _ (d : Double) where
  open d use {Value, literal, of_long, add, sub, mul, divide, sqrt, minus_log2, less}

  abbrev at_least_two : Value → Value
  at_least_two x = if less x (literal two) then literal two else x

  -- What is computed from the sums: `v-1` is a long, so that with no collision it is -1.
  pub collision_entropy : WaitSums → Value
  collision_entropy w =
      let mean = divide (of_long w.i) (of_long w.v) in
      let less_one = sub (of_long w.v) (literal one) in
      let sigma = sqrt (divide (sub (of_long w.s) (mul (of_long w.i) mean)) less_one) in
      let bound =
        at_least_two (sub mean (divide (mul (literal zalpha) sigma) (sqrt (of_long w.v)))) in
      if less bound (literal two_and_half)
      then minus_log2
          (add (literal half) (sqrt (sub (literal one_and_quarter) (mul (literal half) bound))))
      else literal one

  pub collision_test : List ℕ → Value
  unfolding wait_times collision_entropy
  collision_test samples = collision_entropy (wait_times samples (record { v = 0; i = 0; s = 0 }))

-- `counts[data[i]]++`; a symbol outside the table is undefined.
pub count_symbols : List ℕ → (counts : List ℕ) → Option (List ℕ)
count_symbols [] counts = some counts
count_symbols (x ∷ samples) counts = do
  n ← get_elem? counts x
  count_symbols samples (set counts x (suc n))

pub mode_from : (mode : ℕ) → List ℕ → ℕ
mode_from mode [] = mode
mode_from mode (n ∷ counts) = mode_from (if ltb mode n then n else mode) counts

-- `mode`, with the counters all 0 at first.
pub mode_of : List ℕ → (alph_size : ℕ) → Option ℕ
unfolding count_symbols mode_from
mode_of samples alph_size = do
  counts ← count_symbols samples (replicate alph_size 0)
  some (mode_from 0 counts)

module _ (d : Double) where
  open d use {Value, literal, of_long, add, sub, mul, divide, sqrt, minus_log2, less}

  abbrev at_most_one : Value → Value
  at_most_one x = if less x (literal one) then x else literal one

  pub mode_entropy : (mode len : ℕ) → Value
  mode_entropy mode len =
      let pmax = divide (of_long mode) (of_long len) in
      let spread =
        sqrt (divide (mul pmax (sub (literal one) pmax)) (sub (of_long len) (literal one))) in
      minus_log2 (at_most_one (add pmax (mul (literal zalpha) spread)))

  unfoldable pub most_common : List ℕ → (alph_size : ℕ) → Option Value
  unfolding mode_of mode_entropy
  most_common samples alph_size =
      if ltb 1 (length samples)
      then (do mode ← mode_of samples alph_size; some (mode_entropy mode (length samples)))
      else none
