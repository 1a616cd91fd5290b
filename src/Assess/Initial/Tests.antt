-- ===== src/Assess/Initial/Tests.antt =====
-- The two programs with whole numbers in the place of doubles.
use is_there_entropy_down_th.Common.{ℕ, ◌≡◌, refl, true, false, none, some, List, [], ◌∷◌, arith}
use is_there_entropy_down_th.Assess.Arguments.{Parsed, parse_subset}
use is_there_entropy_down_th.Assess.Estimates.{most_common}
use is_there_entropy_down_th.Assess.Estimates.Whole.{whole}
use is_there_entropy_down_th.Assess.Samples.{DataT}
use is_there_entropy_down_th.Assess.Stats.{calc_stats}
use is_there_entropy_down_th.Assess.Restart.Plain.{suite_of, whole-IsOrder}
use is_there_entropy_down_th.Assess.Restart.Exit.{usage}
use is_there_entropy_down_th.Assess.Initial.{default_settings, parse_flags}
use is_there_entropy_down_th.Assess.Initial.Flag.{flag_l, flag_o}
use is_there_entropy_down_th.Assess.Initial.Fault.{bad_subset}
use is_there_entropy_down_th.Assess.Initial.Step.{stop}
use is_there_entropy_down_th.Assess.Initial.NonIid.{NonIidCase, assess_all}
use is_there_entropy_down_th.Assess.Initial.Iid.{IidCase, test_file}
use is_there_entropy_down_th.Assess.Initial.IidHeight.{IsIidHeight, test_file-IsIidHeight}
use is_there_entropy_down_th.Assess.Initial.Whole.{IsSampled, IsAssessed, assess_all-IsAssessed}

-- Digits up to the first comma, for "5,7" only.
abbrev strtoull : List ℕ → Parsed
strtoull (c ∷ rest) = record { inint = c; invalid = false; next = rest }
strtoull [] = record { inint = 0; invalid = false; next = [] }

-- A bad subset is reported in JSON only if -o came before it.
too_late :
    parse_flags {C = ℕ} strtoull (flag_l (5 ∷ []) ∷ flag_o ∷ []) default_settings
    ≡ stop (record { exit = usage; output = none })
unfolding parse_flags parse_subset
too_late = refl

in_time :
    parse_flags {C = ℕ} strtoull (flag_o ∷ flag_l (5 ∷ []) ∷ []) default_settings
    ≡ stop (record {
      exit = usage;
      output = some (record { error = some bad_subset; test_cases = [] });
    })
unfolding parse_flags parse_subset
in_time = refl

abbrev few : DataT
few = record {
  word_size = 2;
  alph_size = 3;
  maxsymbol = 2;
  rawsymbols = 2 ∷ 0 ∷ 1 ∷ [];
  symbols = 2 ∷ 0 ∷ 1 ∷ [];
  bsymbols = 1 ∷ 0 ∷ 0 ∷ 0 ∷ 0 ∷ 1 ∷ [];
  len = 3;
  blen = 6;
}

few-IsSampled : IsSampled few
few-IsSampled = record {
  symbols_below = (omega arith, (omega arith, (omega arith, tt)));
  bits_below =
      (omega arith, (omega arith, (omega arith, (omega arith, (omega arith, (omega arith, tt))))));
  some_symbols = omega arith;
  some_bits = omega arith;
}

assess_all-IsAssessed_example :
    (cases : List (NonIidCase whole)) × (assess_all whole (suite_of true) default_settings few
      ≡ some cases)
    × IsAssessed whole default_settings few cases
assess_all-IsAssessed_example =
    assess_all-IsAssessed whole whole-IsOrder (suite_of true) default_settings few few-IsSampled

abbrev few_case : IidCase whole
few_case = record {
  mean = 1;
  median = 1;
  binary = false;
  h_original = 0;
  h_bitstring = 0;
  h_assessed = 2;
  passed_chi_square_tests = true;
  passed_longest_repeated_substring_test = true;
  passed_iid_permutation_tests = true;
}

-- Both estimates are 0, and the assessed entropy is 2.
tested : test_file whole (suite_of true) default_settings few ≡ some few_case
unfolding test_file most_common calc_stats
tested = refl

test_file-IsIidHeight_example :
    (c : IidCase whole) × (test_file whole (suite_of true) default_settings few ≡ some c)
    × IsIidHeight whole default_settings few c.h_original c.h_bitstring c.h_assessed
test_file-IsIidHeight_example =
    test_file-IsIidHeight whole whole-IsOrder (suite_of true) default_settings few few-IsSampled
