-- ===== src/Assess/Permutation.antt =====
-- cpp/iid/permutation_tests.h: the statistics of the permutation tests that are whole numbers. Data
-- are lists of bytes. A counter stays below the number of samples, which is an int, so it is not
-- wrapped.
use is_there_entropy_down_th.Common.{
  ℕ, zero, suc, ◌+◌, ◌-◌, ◌*◌, ◌/◌, ◌%◌, ◌^◌, Bool, true, false, not, Option, none, some, List, [],
  ◌∷◌, if◌then◌else◌, ltb, leb, ◌==◌, length, set, get_elem?, get_or, drop, replicate,
}
use is_there_entropy_down_th.Common.Words.{Signed, plus, minus, u8, u64}
pub mod RunLengths
pub mod Windows
pub mod Lagged
pub mod Blocks
pub mod Tests

-- `(sample_size / 8) + ((sample_size%8==0)?0:1)`
abbrev pub block_count : ℕ → ℕ
block_count n = n / 8 + (if n % 8 == 0 then 0 else 1)

-- `ret[i/8] += weight of samples[i]`, on bytes, from index i on.
pub add_to_blocks : (weight : (i x : ℕ) → ℕ) (i : ℕ) → (samples ret : List ℕ) → List ℕ
add_to_blocks weight i [] ret = ret
add_to_blocks weight i (x ∷ samples) ret =
    add_to_blocks weight (suc i) samples (set ret (i / 8) (u8 (get_or ret (i / 8) 0 + weight i x)))

abbrev pub count_weight : (i x : ℕ) → ℕ
count_weight i x = x

-- `samples[i] << (7 - i%8)`
abbrev pub shift_weight : (i x : ℕ) → ℕ
shift_weight i x = x * 2 ^ (7 - i % 8)

pub conversion1 : List ℕ → List ℕ
unfolding add_to_blocks
conversion1 samples =
    add_to_blocks count_weight 0 samples (replicate (block_count (length samples)) 0)

pub conversion2 : List ℕ → List ℕ
unfolding add_to_blocks
conversion2 samples =
    add_to_blocks shift_weight 0 samples (replicate (block_count (length samples)) 0)

abbrev pub one : Signed
one = plus 1

abbrev pub minus_one : Signed
minus_one = minus 0

-- A run of values each against the next.
pub alt_sequence1 : List ℕ → List Signed
alt_sequence1 [] = []
alt_sequence1 (x ∷ []) = []
alt_sequence1 (x ∷ y ∷ samples) = (if ltb y x then minus_one else one) ∷ alt_sequence1 (y ∷ samples)

-- The median is a double: the comparison with it is a parameter.
pub alt_sequence2 : (below_median : ℕ → Bool) → List ℕ → List Signed
alt_sequence2 below [] = []
alt_sequence2 below (x ∷ samples) =
    (if below x then minus_one else one) ∷ alt_sequence2 below samples

abbrev pub int_eq : Signed → Signed → Bool
int_eq (plus m) (plus n) = m == n
int_eq (minus m) (minus n) = m == n
int_eq _ _ = false

-- The loop from index 1, with the value before.
abbrev pub runs_from : (num_runs : ℕ) (before : Signed) → List Signed → ℕ
runs_from num_runs before [] = num_runs
runs_from num_runs before (x ∷ seq) =
    runs_from (if not (int_eq x before) then suc num_runs else num_runs) x seq

pub num_directional_runs : List Signed → ℕ
num_directional_runs [] = 0
num_directional_runs (x ∷ seq) = runs_from 1 x seq

abbrev pub larger : (max_run run : ℕ) → ℕ
larger max_run run = if ltb max_run run then run else max_run

abbrev pub len_from : (max_run run : ℕ) (before : Signed) → List Signed → ℕ
len_from max_run run before [] = larger max_run run
len_from max_run run before (x ∷ seq) =
    len_from (if int_eq x before then max_run else larger max_run run)
      (if int_eq x before then suc run else 1) x seq

-- An empty sequence has a longest run of 1 here.
pub len_directional_runs : List Signed → ℕ
len_directional_runs [] = larger 0 1
len_directional_runs (x ∷ seq) = len_from 0 1 x seq

abbrev pub increases : List Signed → ℕ
increases [] = 0
increases (x ∷ seq) = (if int_eq x one then 1 else 0) + increases seq

-- `max(pos, reverse_pos)`
pub num_increases_decreases : List Signed → ℕ
num_increases_decreases seq = larger (increases seq) (length seq - increases seq)

-- The two loops of find_collisions: `seen` is `dups`, j the symbols of the window so far. A symbol
-- outside the table is undefined.
pub collisions_from : (k : ℕ) (seen : List Bool) (j : ℕ) → List ℕ → Option (List ℕ)
collisions_from k seen j [] = some []
collisions_from k seen j (x ∷ samples) = elim (get_elem? seen x) [
  | none ↦ none
  | some dup ↦ elim dup [
    | true ↦ elim (collisions_from k (replicate k false) 0 samples) [
      | none ↦ none
      | some ret ↦ some (suc j ∷ ret)
    ]
    | false ↦ collisions_from k (set seen x true) (suc j) samples
  ]
]

pub find_collisions : List ℕ → (k : ℕ) → Option (List ℕ)
unfolding collisions_from
find_collisions samples k = collisions_from k (replicate k false) 0 samples

abbrev pub max_from : ℕ → List ℕ → ℕ
max_from max [] = max
max_from max (c ∷ seq) = max_from (larger max c) seq

pub max_collision : List ℕ → ℕ
max_collision seq = max_from 0 seq

-- `for (i = 0; i < n-p; ++i)` over samples[i] and samples[i+p].
pub matches : (samples lagged : List ℕ) → ℕ
matches (x ∷ samples) (y ∷ lagged) = (if x == y then 1 else 0) + matches samples lagged
matches _ _ = 0

-- `none` is the assertion that fails.
pub periodicity : List ℕ → (p : ℕ) → Option ℕ
unfolding matches
periodicity samples p =
    if leb p (length samples) then some (matches samples (drop p samples)) else none

-- `T += samples[i] * samples[i+p]`, on 64 bits.
pub products : (total : ℕ) → (samples lagged : List ℕ) → ℕ
products total (x ∷ samples) (y ∷ lagged) = products (u64 (total + x * y)) samples lagged
products total _ _ = total

-- With a lag over n the bound n-p wraps, and the loop reads past the samples.
pub covariance : List ℕ → (p : ℕ) → Option ℕ
unfolding products
covariance samples p =
    if leb p (length samples) then some (products 0 samples (drop p samples)) else none
