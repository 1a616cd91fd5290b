-- ===== src/Assess/Initial/Iid.antt =====
-- cpp/iid_main.cpp: the IID tests and the initial entropy estimate of IID data.
use is_there_entropy_down_th.Common.{
  ℕ, Bool, Option, none, some, List, [], ◌∷◌, if◌then◌else◌, ltb, ◌==◌, ◌>>=◌,
}
use is_there_entropy_down_th.Assess.Arguments.{asks_version}
use is_there_entropy_down_th.Assess.Estimates.{Double, most_common}
use is_there_entropy_down_th.Assess.Minimum.{smaller}
use is_there_entropy_down_th.Assess.Samples.{DataT}
use is_there_entropy_down_th.Assess.Stats.{calc_stats}
use is_there_entropy_down_th.Assess.Restart.{Suite}
use is_there_entropy_down_th.Assess.Restart.Exit.{success}
use is_there_entropy_down_th.Assess.Initial.{
  Settings, default_settings, Finished, plain, parse_flags, quieten, width_of, load, first,
}
use is_there_entropy_down_th.Assess.Initial.NonIid.{Computer, on_bits}
use is_there_entropy_down_th.Assess.Initial.Step.{stop, continue_with}

module _ (d : Double) where
  open d use {Value, of_long, mul}

  -- `IidTestCase`, as far as this program sets it, less the results of the permutation tests.
  pub record IidCase : Type 0 where
    pub mean : Value
    pub median : Value
    pub binary : Bool
    pub h_original : Value
    pub h_bitstring : Value
    pub h_assessed : Value
    pub passed_chi_square_tests : Bool
    pub passed_longest_repeated_substring_test : Bool
    pub passed_iid_permutation_tests : Bool

  module _ (suite : Suite d) (s : Settings) (data_t : DataT) where
    -- `H_original` and `H_bitstring`
    unfoldable pub original_height : Option Value
    original_height =
        if s.initial_entropy
        then most_common d data_t.symbols data_t.alph_size
        else some (of_long data_t.word_size)

    unfoldable pub bitstring_height : Option Value
    bitstring_height =
        if on_bits d s data_t then most_common d data_t.bsymbols 2 else some (of_long 1)

    -- `h_assessed` takes the estimates in only where they are printed in full, `verbose > 2`.
    unfoldable pub assessed_height : (h_original h_bitstring : Value) → Value
    assessed_height h_original h_bitstring =
        let width = of_long data_t.word_size in
        let h = if on_bits d s data_t then smaller d width (mul h_bitstring width) else width in
        if ltb 2 s.verbose then (if s.initial_entropy then smaller d h h_original else h) else width

    unfoldable pub test_file : Option IidCase
    unfolding original_height bitstring_height assessed_height
    test_file = do
      stats ← calc_stats d data_t
      h_original ← original_height
      h_bitstring ← bitstring_height
      some (record {
        mean = stats.0;
        median = stats.1;
        binary = data_t.alph_size == 2;
        h_original = h_original;
        h_bitstring = h_bitstring;
        h_assessed = assessed_height h_original h_bitstring;
        passed_chi_square_tests = suite.chi_square_tests data_t.symbols data_t.alph_size;
        passed_longest_repeated_substring_test = suite.len_lrs_test data_t.symbols data_t.alph_size;
        passed_iid_permutation_tests = suite.permutation_tests 0 data_t stats.0 stats.1;
      })

  -- Behind the options.
  unfoldable pub test_operands : Computer d → Settings → List (List ℕ) → Option (Finished IidCase)
  unfolding width_of load test_file
  test_operands computer s operands = elim (width_of computer.atoi s operands) [
    | stop f ↦ some f
    | continue_with word_size ↦ elim (load s word_size (computer.file (first operands))) [
      | stop f ↦ some f
      | continue_with data_t ↦ do
        c ← test_file computer.suite s data_t
        some (record {
          exit = success;
          output =
              if s.json_output then some (record { error = none; test_cases = c ∷ [] }) else none;
        })
    ]
  ]

  -- `main`, on the arguments with the name of the program.
  unfoldable pub iid_main : Computer d → (argv : List (List ℕ)) → Option (Finished IidCase)
  unfolding asks_version parse_flags test_operands
  iid_main computer argv =
      let (flags, operands) = computer.getopt argv in
      if asks_version argv
      then some (plain success)
      else elim (parse_flags computer.strtoull flags default_settings) [
        | stop f ↦ some f
        | continue_with s ↦ test_operands computer (quieten s) operands
      ]
