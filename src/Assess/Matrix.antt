-- ===== src/Assess/Matrix.antt =====
-- cpp/restart_main.cpp and cpp/transpose_main.cpp: the matrix of restart data. Row i is what the
-- source gave after its i-th restart; a read or a write out of an array is undefined.
use is_there_entropy_down_th.Common.{
  ℕ, zero, suc, ◌+◌, ◌*◌, Option, none, some, List, [], ◌∷◌, ◌++◌, if◌then◌else◌, ltb, leb, ◌>>=◌,
  length, set, get_elem?, replicate,
}
pub mod Largest
pub mod Rows
pub mod Columns
pub mod Transposed
pub mod Tests

-- `if (++counts[x] > X_i) X_i = counts[x]`
pub record Tally : Type 0 where
  pub counts : List ℕ
  pub x_i : ℕ

pub count : (x : ℕ) → Tally → Option Tally
count x t = do
  n ← get_elem? t.counts x
  some
      (record { counts = set t.counts x (suc n); x_i = if ltb t.x_i (suc n) then suc n else t.x_i })

-- `memset(counts, 0, 256 * sizeof (int)); X_i = 0`
abbrev pub no_counts : Tally
no_counts = record { counts = replicate 256 0; x_i = 0 }

abbrev pub larger : ℕ → ℕ → ℕ
larger x_i x = if ltb x x_i then x_i else x

-- A write to `array[i]`.
pub store : {A : Type 0} → List A → ℕ → A → Option (List A)
store array i x = if ltb i (length array) then some (set array i x) else none

module _ (r c : ℕ) where
  -- The columns from j on, `left` of them, of row i.
  pub count_row : (rdata : List ℕ) → (i left j : ℕ) → Tally → Option Tally
  unfolding count
  count_row rdata i zero j t = some t
  count_row rdata i (suc left) j t = do
    x ← get_elem? rdata (i * r + j)
    t' ← count x t
    count_row rdata i left (suc j) t'

  -- The rows from i on, with the largest count X_r before them.
  pub count_rows : (rdata : List ℕ) → (left i x_r : ℕ) → Option ℕ
  unfolding count_row
  count_rows rdata zero i x_r = some x_r
  count_rows rdata (suc left) i x_r = do
    t ← count_row rdata i c 0 no_counts
    count_rows rdata left (suc i) (larger t.x_i x_r)

  pub max_row_count : (rdata : List ℕ) → Option ℕ
  unfolding count_rows
  max_row_count rdata = count_rows rdata r 0 0

  -- `cdata[j * c + i] = rdata[i * r + j]`, and the count of it.
  pub count_column : (rdata : List ℕ) → (j left i : ℕ) → List ℕ × Tally → Option (List ℕ × Tally)
  unfolding count store
  count_column rdata j zero i s = some s
  count_column rdata j (suc left) i (cdata, t) = do
    x ← get_elem? rdata (i * r + j)
    cdata' ← store cdata (j * c + i) x
    y ← get_elem? cdata' (j * c + i)
    t' ← count y t
    count_column rdata j left (suc i) (cdata', t')

  pub count_columns : (rdata : List ℕ) → (left j : ℕ) → List ℕ × ℕ → Option (List ℕ × ℕ)
  unfolding count_column
  count_columns rdata zero j s = some s
  count_columns rdata (suc left) j (cdata, x_c) = do
    s ← count_column rdata j r 0 (cdata, no_counts)
    count_columns rdata left (suc j) (s.0, larger s.1.x_i x_c)

  -- The columns as rows, in the memory that `malloc(data.len)` gave, and the largest count X_c.
  pub max_column_count : (rdata memory : List ℕ) → Option (List ℕ × ℕ)
  unfolding count_columns
  max_column_count rdata memory = count_columns rdata c 0 (memory, 0)

  -- `fwrite(data.rawsymbols + c * j + i, ...)`: the bytes that the transposition writes for one i.
  pub write_column : (rawsymbols : List ℕ) → (i left j : ℕ) → Option (List ℕ)
  write_column rawsymbols i zero j = some []
  write_column rawsymbols i (suc left) j = do
    x ← get_elem? rawsymbols (c * j + i)
    rest ← write_column rawsymbols i left (suc j)
    some (x ∷ rest)

  -- The loop over the columns of `main`; none is a read out of the samples.
  pub write_columns : (rawsymbols : List ℕ) → (left i : ℕ) → Option (List ℕ)
  unfolding write_column
  write_columns rawsymbols zero i = some []
  write_columns rawsymbols (suc left) i = do
    column ← write_column rawsymbols i r 0
    rest ← write_columns rawsymbols left (suc i)
    some (column ++ rest)
