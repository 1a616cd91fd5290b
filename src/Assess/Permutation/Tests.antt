-- ===== src/Assess/Permutation/Tests.antt =====
-- The statistics on a few samples.
use is_there_entropy_down_th.Common.{
  ℕ, ◌+◌, ◌≡◌, refl, some, List, [], ◌∷◌, ◌++◌, length, arith, map,
}
use is_there_entropy_down_th.Common.Words.{Signed}
use is_there_entropy_down_th.Assess.Permutation.{
  conversion2, alt_sequence1, num_directional_runs, len_directional_runs, larger,
  num_increases_decreases, find_collisions, periodicity, covariance, one, minus_one,
}
use is_there_entropy_down_th.Assess.Permutation.RunLengths.{
  Run, expand, Maximal, longest, directional_runs_lem,
}
use is_there_entropy_down_th.Assess.Permutation.Windows.{
  Window, AllWindows, Distinct, window_symbols, window_lengths, find_collisions-Divides,
}
use is_there_entropy_down_th.Assess.Permutation.Lagged.{flip, periodicity-covariance}

abbrev symbols_read : List ℕ
symbols_read = 2 ∷ 1 ∷ 2 ∷ 0 ∷ 0 ∷ 1 ∷ []

abbrev bits : List ℕ
bits = 1 ∷ 0 ∷ 1 ∷ 0 ∷ 1 ∷ 1 ∷ 0 ∷ 0 ∷ 1 ∷ []

abbrev ups : List Signed
ups = one ∷ one ∷ minus_one ∷ one ∷ []

first_block : conversion2 bits ≡ 0xac ∷ 0x80 ∷ []
unfolding conversion2
first_block = refl

windows_measured : find_collisions symbols_read 3 ≡ some (3 ∷ 2 ∷ [])
unfolding find_collisions
windows_measured = refl

rises : num_increases_decreases (alt_sequence1 symbols_read) ≡ 3
unfolding num_increases_decreases alt_sequence1
rises = refl

directional_runs_lem_example :
    (rs : List Run) × (expand rs ≡ ups)
    × Maximal rs
    × (num_directional_runs ups ≡ length rs)
    × (len_directional_runs ups ≡ larger 1 (longest rs))
directional_runs_lem_example = directional_runs_lem ups

find_collisions-Divides_example :
    (ws : List Window) × (left : List ℕ) × (symbols_read ≡ window_symbols ws ++ left)
    × AllWindows ws
    × Distinct left
    × (find_collisions symbols_read 3 ≡ some (window_lengths ws))
find_collisions-Divides_example =
    find_collisions-Divides symbols_read 3
      (omega arith, (omega arith, (omega arith, (omega arith, (omega arith, (omega arith, tt))))))

periodicity-covariance_example :
    (t u v : ℕ) × (periodicity (1 ∷ 0 ∷ 1 ∷ []) 1 ≡ some t)
    × (covariance (1 ∷ 0 ∷ 1 ∷ []) 1 ≡ some u)
    × (covariance (map flip (1 ∷ 0 ∷ 1 ∷ [])) 1 ≡ some v)
    × (t ≡ u + v)
periodicity-covariance_example =
    periodicity-covariance (1 ∷ 0 ∷ 1 ∷ []) 1 (omega arith, (omega arith, (omega arith, tt)))
      (omega arith) (omega arith)
