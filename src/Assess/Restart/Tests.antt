-- ===== src/Assess/Restart/Tests.antt =====
-- The restart test with whole numbers in the place of doubles, and tests that give 1.
use mathlib.Core.Path.{subst}
use is_there_entropy_down_th.Common.{
  ℕ, ◌≡◌, ◌⊎◌, refl, arith, length, true, false, none, some, List, [], ◌∷◌,
}
use is_there_entropy_down_th.Assess.Estimates.{most_common}
use is_there_entropy_down_th.Assess.Estimates.Whole.{whole}
use is_there_entropy_down_th.Assess.Restart.Plain.{suite_of, whole-IsOrder}
use is_there_entropy_down_th.Assess.Arguments.{asks_version}
use is_there_entropy_down_th.Assess.Zeros.{zeros, length-zeros, zeros-AllBelow}
use is_there_entropy_down_th.Assess.Samples.{DataT, Host, read_file}
use is_there_entropy_down_th.Assess.Matrix.Columns.{IsTransposed}
use is_there_entropy_down_th.Assess.Restart.{Options, Ending, default_options, Heights, no_result}
use is_there_entropy_down_th.Assess.Restart.Message.{sanity_check_failed, wrong_size}
use is_there_entropy_down_th.Assess.Restart.Opt.{opt_o}
use is_there_entropy_down_th.Assess.Restart.TestName.{most_common_value}
use is_there_entropy_down_th.Assess.Restart.Exit.{failure}
use is_there_entropy_down_th.Assess.Restart.Lowest.{AreLowest, estimate_non_iid-AreLowest}
use is_there_entropy_down_th.Assess.Restart.Stages.{estimate_mode, estimate_non_iid}
use is_there_entropy_down_th.Assess.Restart.Program.{
  Machine, restarts, min_size, fail, assess, check_counts, check_data, main,
}
use is_there_entropy_down_th.Assess.Restart.Endings.{Balanced, Unbalanced, check_counts_lem}
use is_there_entropy_down_th.Assess.Restart.Judged.{IsMapped, IsJudged, check_data-IsJudged}
use is_there_entropy_down_th.Assess.Restart.Verdict.{exit_of, assess_exit}

abbrev data_of : List ℕ → DataT
data_of symbols = record {
  word_size = 1;
  alph_size = 2;
  maxsymbol = 1;
  rawsymbols = symbols;
  symbols = symbols;
  bsymbols = symbols;
  len = min_size;
  blen = min_size;
}

check_counts_lem_example :
    ((check_counts whole
          (suite_of true)
          default_options
          1
          (data_of (zeros min_size))
          (zeros min_size)
        ≡ some (fail whole default_options failure sanity_check_failed []))
      × Unbalanced 100 (zeros min_size))
    ⊎ ((cdata : List ℕ) × IsTransposed restarts (zeros min_size) cdata
        × (check_counts whole
              (suite_of true)
              default_options
              1
              (data_of (zeros min_size))
              (zeros min_size)
            ≡ assess whole (suite_of true) default_options 1 (data_of (zeros min_size)) cdata)
        × Balanced 100 (zeros min_size))
check_counts_lem_example =
    check_counts_lem whole (suite_of true) default_options 1 (data_of (zeros min_size))
      (zeros min_size) (zeros-AllBelow 256 min_size (omega arith)) (length-zeros min_size)
      (length-zeros min_size)

abbrev few : DataT
few = record (data_of (0 ∷ 1 ∷ 1 ∷ [])) { len = 3; blen = 3 }

abbrev heights : Heights whole
heights = record {
  height_r = 0;
  height_c = 0;
  cases =
      record (no_result whole most_common_value) {
        data_word_size = some 1;
        h_r = some 0;
        h_c = some 0;
      }
      ∷ [];
}

mode_heights : estimate_mode whole (suite_of true) few (1 ∷ 0 ∷ 1 ∷ []) ≡ some heights
unfolding estimate_mode most_common
mode_heights = refl

estimate_non_iid-AreLowest_example :
    AreLowest whole 1 (estimate_non_iid whole (suite_of true) few (1 ∷ 0 ∷ 1 ∷ []) heights)
estimate_non_iid-AreLowest_example =
    estimate_non_iid-AreLowest whole whole-IsOrder (suite_of true) few (1 ∷ 0 ∷ 1 ∷ []) heights
      mode_heights

abbrev iid_options : Options
iid_options = record default_options { iid = true }

-- Failed IID tests and passed ones.
assess_exit_example :
    exit_of whole (assess whole (suite_of false) iid_options 1 few (1 ∷ 0 ∷ 1 ∷ []))
    ≡ exit_of whole (assess whole (suite_of true) iid_options 1 few (1 ∷ 0 ∷ 1 ∷ []))
assess_exit_example =
    assess_exit whole (suite_of false) (suite_of true) iid_options 1 few (1 ∷ 0 ∷ 1 ∷ []) refl

abbrev host : Host
host = record {
  opens = true;
  seek_end = true;
  tell = some 3;
  seek_set = λ offset. true;
  allocates = λ bytes. true;
  read = λ offset count. 0 ∷ 1 ∷ 1 ∷ [];
}

abbrev machine : Machine whole
machine = record {
  getopt = λ argv. (opt_o ∷ [], argv);
  atoi = λ s. some 1;
  atof = λ s. 1;
  file = λ file_path. host;
  malloc = λ bytes. none;
  suite = suite_of true;
}

abbrev roomy : Machine whole
roomy = record machine { malloc = λ bytes. some (zeros bytes) }

abbrev zero_data : DataT
zero_data = data_of (zeros min_size)

zero_data-IsMapped : IsMapped zero_data
zero_data-IsMapped = record {
  symbols_below = zeros-AllBelow 2 min_size (omega arith);
  alphabet = omega arith;
  size = length-zeros min_size;
}

roomy_lem : (bytes : ℕ) (memory : List ℕ) → roomy.malloc bytes ≡ some memory → length memory ≡ bytes
roomy_lem bytes memory e =
    let same : zeros bytes ≡ memory = cc in subst (λ l. length l ≡ bytes) same (length-zeros bytes)

check_data-IsJudged_example :
    (e : Ending whole) × (check_data whole roomy default_options 1 zero_data ≡ some e)
    × IsJudged whole roomy default_options 1 zero_data e
check_data-IsJudged_example =
    check_data-IsJudged whole whole-IsOrder roomy default_options 1 zero_data zero_data-IsMapped
      roomy_lem

-- A file of three samples.
too_few :
    main whole machine ((102 ∷ []) ∷ (49 ∷ []) ∷ [])
    ≡ some (record {
      exit = failure;
      output = some (record { is_iid = false; error = some wrong_size; test_cases = [] });
    })
unfolding main read_file asks_version
too_few = refl
