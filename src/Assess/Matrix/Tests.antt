-- ===== src/Assess/Matrix/Tests.antt =====
-- The restart matrix on two restarts of two samples.
use is_there_entropy_down_th.Common.{
  ℕ, ◌≡◌, ◌-◌, refl, some, List, [], ◌∷◌, arith, AllBelow, map, if◌then◌else◌, ltb,
}
use is_there_entropy_down_th.Assess.Matrix.{max_row_count, max_column_count, write_columns}
use is_there_entropy_down_th.Assess.Matrix.Transposed.{
  write_columns-max_column_count, write_columns-write_columns,
}

abbrev samples : List ℕ
samples = 1 ∷ 1 ∷ 7 ∷ 8 ∷ []

abbrev samples_small : AllBelow 256 samples
samples_small = (omega arith, (omega arith, (omega arith, (omega arith, tt))))

rows : max_row_count 2 2 samples ≡ some 2
unfolding max_row_count
rows = refl

columns : max_column_count 2 2 samples (0 ∷ 0 ∷ 0 ∷ 0 ∷ []) ≡ some (1 ∷ 7 ∷ 1 ∷ 8 ∷ [], 1)
unfolding max_column_count
columns = refl

-- The symbols, mapped down.
abbrev mapped_down : ℕ → ℕ
mapped_down s = if ltb s 7 then 0 else s - 6

write_columns-max_column_count_example :
    (file : List ℕ) × (x_c : ℕ) × (write_columns 2 2 samples 2 0 ≡ some file)
    × (max_column_count 2 2 (0 ∷ 0 ∷ 1 ∷ 2 ∷ []) (0 ∷ 0 ∷ 0 ∷ 0 ∷ [])
        ≡ some (map mapped_down file, x_c))
write_columns-max_column_count_example =
    write_columns-max_column_count 2 mapped_down samples (0 ∷ 0 ∷ 1 ∷ 2 ∷ []) (0 ∷ 0 ∷ 0 ∷ 0 ∷ [])
      refl samples_small (omega arith, (omega arith, (omega arith, (omega arith, tt)))) refl refl

write_columns-write_columns_example :
    (out : List ℕ) × (write_columns 2 2 samples 2 0 ≡ some out)
    × (write_columns 2 2 out 2 0 ≡ some samples)
write_columns-write_columns_example = write_columns-write_columns 2 samples samples_small refl
