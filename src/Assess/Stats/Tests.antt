-- ===== src/Assess/Stats/Tests.antt =====
-- Statistics, substrings and patterns of a few symbols.
use mathlib.Core.List.Perm
use is_there_entropy_down_th.Common.{ℕ, ◌≡◌, refl, some, List, [], ◌∷◌}
use is_there_entropy_down_th.Assess.Estimates.Whole.{whole}
use is_there_entropy_down_th.Assess.Samples.{DataT}
use is_there_entropy_down_th.Assess.Stats.{calc_stats, recreate_command_line, n_choose_2}
use is_there_entropy_down_th.Assess.Stats.Median.{calc_stats-Perm}

abbrev data_of : List ℕ → DataT
data_of symbols = record {
  word_size = 8;
  alph_size = 3;
  maxsymbol = 9;
  rawsymbols = symbols;
  symbols = symbols;
  bsymbols = [];
  len = 3;
  blen = 24;
}

stats : calc_stats whole (data_of (9 ∷ 2 ∷ 4 ∷ [])) ≡ some (5, 4)
unfolding calc_stats
stats = refl

command_line : recreate_command_line ((101 ∷ []) ∷ (45 ∷ 118 ∷ []) ∷ []) ≡ 101 ∷ 32 ∷ 45 ∷ 118 ∷ []
unfolding recreate_command_line
command_line = refl

pairs_of_five : n_choose_2 5 ≡ 10
unfolding n_choose_2
pairs_of_five = refl

calc_stats-Perm_example :
    calc_stats whole (data_of (9 ∷ 2 ∷ 4 ∷ [])) ≡ calc_stats whole (data_of (2 ∷ 9 ∷ 4 ∷ []))
calc_stats-Perm_example =
    calc_stats-Perm whole (data_of (9 ∷ 2 ∷ 4 ∷ [])) (data_of (2 ∷ 9 ∷ 4 ∷ []))
      (Perm.swap 2 9 (4 ∷ [])) (Perm.swap 2 9 (4 ∷ [])) refl refl
