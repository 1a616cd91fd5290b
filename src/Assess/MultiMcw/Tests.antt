-- ===== src/Assess/MultiMcw/Tests.antt =====
-- Windows of two symbols, and a run over a file of 4099.
use is_there_entropy_down_th.Common.{
  ℕ, ◌≡◌, ◌≤◌, ◌-◌, refl, Option, none, some, List, [], ◌∷◌, arith, length, take, drop,
}
use is_there_entropy_down_th.Assess.Estimates.Whole.{whole}
use is_there_entropy_down_th.Assess.Predict.{prediction_estimate}
use is_there_entropy_down_th.Assess.Lag.Flat.{flat}
use is_there_entropy_down_th.Assess.Zeros.{zeros, length-zeros, zeros-AllBelow}
use is_there_entropy_down_th.Assess.MultiMcw.{
  Window, empty_window, empty_windows, initial_counts, Score, no_score, predictions, passed,
  multi_mcw_test,
}
use is_there_entropy_down_th.Assess.MultiMcw.Modes.{IsMode}
use is_there_entropy_down_th.Assess.MultiMcw.Passed.{AllWindows}
use is_there_entropy_down_th.Assess.MultiMcw.Rounds.{multi_mcw_test-IsMode}

abbrev frequents : List Window → List ℕ
frequents [] = []
frequents (w ∷ windows) = w.frequent ∷ w.max_cnt ∷ frequents windows

abbrev result : Option (List Window × Score) → List ℕ
result none = []
result (some (windows, s)) = s.correct ∷ s.max_run_len ∷ frequents windows

abbrev counted : Option (List Window) → List Window
counted none = []
counted (some windows) = windows

abbrev memory : ℕ → ℕ
memory j = 9

-- 0 1 | 1 1 2 in windows of two: 1 is predicted three times, and 2 is the latest in the end.
few :
    result (
      predictions 3
        (1 ∷ 1 ∷ 2 ∷ [])
        (1 ∷ 0 ∷ [])
        (counted (initial_counts 3 (0 ∷ 1 ∷ []) 0 (empty_window 1 9 ∷ [])))
        no_score)
    ≡ 2 ∷ 2 ∷ 2 ∷ 1 ∷ []
unfolding predictions initial_counts
few = refl

abbrev file : List ℕ
file = 1 ∷ 2 ∷ 1 ∷ zeros 4_096

file_long : 4_096 ≤ length file
file_long = let rest = length-zeros 4_096 in omega arith

multi_mcw_test-IsMode_example :
    (counted windows : List Window) × (s : Score) × (initial_counts 256
        (take 4_095 file)
        0
        (empty_windows memory)
      ≡ some counted)
    × (predictions 256 (drop 63 file) (passed 63 file []) counted no_score ≡ some (windows, s))
    × (length windows ≡ 4)
    × AllWindows (IsMode 256 (passed (length file) file [])) windows
    × (multi_mcw_test whole flat 0 memory file 256
        ≡ prediction_estimate whole flat s.correct (length file - 63) s.max_run_len 256)
multi_mcw_test-IsMode_example =
    multi_mcw_test-IsMode whole flat 0 memory file 256 file_long
      (omega arith, (omega arith, (omega arith, zeros-AllBelow 256 4_096 (omega arith))))
