-- ===== src/Assess/Stats.antt =====
-- cpp/shared/utils.h: the baseline statistics, substrings and bit patterns that the tests share. An
-- assertion that fails and a read out of an array are none.
use Prim.Native.Nat.{bit_or, bit_and}
use is_there_entropy_down_th.Common.{
  ℕ, zero, suc, ◌+◌, ◌-◌, ◌*◌, ◌/◌, ◌%◌, ◌^◌, Bool, true, false, Option, none, some, List, [], ◌∷◌,
  ◌++◌, if◌then◌else◌, ltb, leb, ◌==◌, ◌>>=◌, length, set, get_elem?, replicate,
}
use is_there_entropy_down_th.Common.Words.{u32}
use is_there_entropy_down_th.Assess.Estimates.{Double, Constant}
use is_there_entropy_down_th.Assess.Estimates.Constant.{half, two}
use is_there_entropy_down_th.Assess.Samples.{DataT}
pub mod Median
pub mod Pieces
pub mod Tests

-- A sum of bytes fits a long for every length in use.
pub sum : List ℕ → ℕ
sum [] = 0
sum (x ∷ arr) = x + sum arr

-- `std::sort`
pub insert : ℕ → List ℕ → List ℕ
insert x [] = x ∷ []
insert x (y ∷ v) = let rest = insert x v in if leb x y then x ∷ y ∷ v else y ∷ rest

pub sort : List ℕ → List ℕ
unfolding insert
sort [] = []
sort (x ∷ v) = insert x (sort v)

module _ (d : Double) where
  open d use {Value, literal, of_long, divide}

  -- The median of the sorted samples. With two symbols it is set to 0.5.
  pub median_of : (alph_size : ℕ) → (v : List ℕ) → Option Value
  median_of alph_size v =
      let middle = length v / 2 in
      if alph_size == 2
      then some (literal half)
      else if length v % 2 == 1
      then (do m ← get_elem? v middle; some (of_long m))
      else (do
        m ← get_elem? v middle
        l ← get_elem? v (middle - 1)
        some (divide (of_long (m + l)) (literal two)))

  -- The mean of the raw samples and the median of the samples.
  unfoldable pub calc_stats : DataT → Option (Value × Value)
  unfolding sum sort median_of
  calc_stats dp = do
    median ← median_of dp.alph_size (sort dp.symbols)
    some (divide (of_long (sum dp.rawsymbols)) (of_long dp.len), median)

-- The symbols `text[pos], ..., text[pos + left - 1]`.
pub copy_from : (text : List ℕ) → (pos left : ℕ) → Option (List ℕ)
copy_from text pos zero = some []
copy_from text pos (suc left) = do
  x ← get_elem? text pos
  rest ← copy_from text (suc pos) left
  some (x ∷ rest)

-- `pos + len` is an int: from 2^31 on it overflows.
pub substr : (text : List ℕ) → (pos len sample_size : ℕ) → Option (List ℕ)
unfolding copy_from
substr text pos len sample_size =
    if leb (2 ^ 31) (pos + len)
    then none
    else copy_from text pos (if ltb sample_size (pos + len) then sample_size - pos else len)

-- `substring[i] = text[pos + i]`, from i on.
pub store_from : (text substring : List ℕ) → (pos left i : ℕ) → Option (List ℕ)
store_from text substring pos zero i = some substring
store_from text substring pos (suc left) i = do
  x ← get_elem? text (pos + i)
  _ ← get_elem? substring i
  store_from text (set substring i x) pos left (suc i)

-- The 16 symbols from pos on, with 0 behind the first len.
pub fast_substr : (text : List ℕ) → (pos len : ℕ) → Option (List ℕ)
unfolding store_from
fast_substr text pos len = store_from text (replicate 16 0) pos len 0

pub n_choose_2 : ℕ → ℕ
n_choose_2 n = (n * n - n) / 2

-- `retPattern = (retPattern << 1) | S[j]`
pub compress_from : (pattern : ℕ) → List ℕ → Option ℕ
compress_from pattern [] = some pattern
compress_from pattern (s ∷ symbols) =
    let rest = compress_from (bit_or (u32 (pattern * 2)) s) symbols in
    if leb s 1 then rest else none

pub compressed_bit_symbols : List ℕ → Option ℕ
unfolding compress_from
compressed_bit_symbols s = if leb (length s) 32 then compress_from 0 s else none

-- The arguments with a space, 32, between them.
pub recreate_command_line : (argv : List (List ℕ)) → List ℕ
recreate_command_line [] = []
recreate_command_line (arg ∷ []) = arg
recreate_command_line (arg ∷ next ∷ argv) = arg ++ 32 ∷ recreate_command_line (next ∷ argv)
