-- ===== src/Assess/Estimates/Tests.antt =====
-- The counts of the estimates on a few samples.
use is_there_entropy_down_th.Common.{ℕ, ◌≤◌, ◌<◌, ◌≡◌, ◌⊎◌, refl, some, List, [], ◌∷◌, arith}
use is_there_entropy_down_th.Assess.Estimates.{WaitSums, wait_times, mode_of}
use is_there_entropy_down_th.Assess.Estimates.Mode.{occurrences, mode_of-occurrences}

abbrev bits : List ℕ
bits = 1 ∷ 1 ∷ 0 ∷ 1 ∷ 1 ∷ 0 ∷ 1 ∷ []

abbrev at_zero : WaitSums
at_zero = record { v = 0; i = 0; s = 0 }

sums : wait_times bits at_zero ≡ record { v = 2; i = 5; s = 13 }
unfolding wait_times
sums = refl

mode_of-occurrences_example :
    (mode : ℕ) × (mode_of (2 ∷ 0 ∷ 2 ∷ []) 3 ≡ some mode)
    × ((c : ℕ) → occurrences c (2 ∷ 0 ∷ 2 ∷ []) ≤ mode)
    × ((mode ≡ 0) ⊎ (c : ℕ) × (c < 3) × (occurrences c (2 ∷ 0 ∷ 2 ∷ []) ≡ mode))
mode_of-occurrences_example =
    mode_of-occurrences (2 ∷ 0 ∷ 2 ∷ []) 3 (omega arith, (omega arith, (omega arith, tt)))
