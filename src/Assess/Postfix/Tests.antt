-- ===== src/Assess/Postfix/Tests.antt =====
-- A dictionary on a few symbols.
use is_there_entropy_down_th.Common.{ℕ, ◌≤◌, ◌≡◌, refl, false, some, [], ◌∷◌}
use is_there_entropy_down_th.Assess.Estimates.Mode.{occurrences}
use is_there_entropy_down_th.Assess.Postfix.{empty_dictionary, predict, increment_postfix}
use is_there_entropy_down_th.Assess.Postfix.Best.{count_all, predict-occurrences}

-- A tie goes to the larger symbol, and a symbol that may make no entry is not counted.
tie : predict (count_all (3 ∷ 1 ∷ 2 ∷ 3 ∷ 2 ∷ []) empty_dictionary) ≡ some (2, 3)
unfolding predict increment_postfix empty_dictionary
tie = refl

unknown : increment_postfix 4 false empty_dictionary ≡ (false, empty_dictionary)
unfolding increment_postfix empty_dictionary
unknown = refl

predict-occurrences_example :
    (n : ℕ) × (p : ℕ) × (predict (count_all (3 ∷ 1 ∷ 3 ∷ []) empty_dictionary) ≡ some (n, p))
    × (occurrences p (3 ∷ 1 ∷ 3 ∷ []) ≡ n)
    × ((s : ℕ) → occurrences s (3 ∷ 1 ∷ 3 ∷ []) ≤ n)
    × ((s : ℕ) → occurrences s (3 ∷ 1 ∷ 3 ∷ []) ≡ n → s ≤ p)
predict-occurrences_example = predict-occurrences 3 (1 ∷ 3 ∷ [])
