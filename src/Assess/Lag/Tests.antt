-- ===== src/Assess/Lag/Tests.antt =====
-- The lag test on a few bits, with 1 for the function that is searched.
use is_there_entropy_down_th.Common.{ℕ, ◌≡◌, refl, Option, none, some, List, [], ◌∷◌, arith, length}
use is_there_entropy_down_th.Assess.Estimates.Whole.{whole}
use is_there_entropy_down_th.Assess.Predict.{prediction_estimate}
use is_there_entropy_down_th.Assess.Lag.{Lag, initial_lag, lag_loop, score, first_rings, lag_test}
use is_there_entropy_down_th.Assess.Lag.Flat.{flat}
use is_there_entropy_down_th.Assess.Lag.Direct.{direct_run}
use is_there_entropy_down_th.Assess.Lag.Loop.{lag_test-direct_run}

abbrev memory : ℕ → ℕ → ℕ
memory symbol j = 7

abbrev bits : List ℕ
bits = 0 ∷ 1 ∷ 0 ∷ 1 ∷ 0 ∷ 0 ∷ []

-- How many predictions are correct, the longest run of them, and the last winner.
abbrev counts : Option Lag → List ℕ
counts none = []
counts (some lag) = lag.correct_count ∷ lag.max_run_of_corrects ∷ lag.winner ∷ []

counted : counts (lag_loop 2 bits (1 ∷ []) (first_rings memory 1) initial_lag) ≡ 3 ∷ 3 ∷ 1 ∷ []
unfolding lag_loop first_rings score
counted = refl

foreign_symbol : lag_loop 2 (2 ∷ []) (1 ∷ []) (first_rings memory 1) initial_lag ≡ none
unfolding lag_loop
foreign_symbol = refl

lag_test-direct_run_example :
    (lag : Lag) × (direct_run bits (1 ∷ []) initial_lag ≡ some lag)
    × (lag_test whole flat memory (1 ∷ bits) 2
        ≡ prediction_estimate whole flat lag.correct_count (length bits) lag.max_run_of_corrects 2)
lag_test-direct_run_example =
    lag_test-direct_run whole flat memory 1 bits 2 (omega arith) (omega arith) (omega arith)
      (omega arith, (omega arith, (omega arith, (omega arith, (omega arith, (omega arith, tt))))))
