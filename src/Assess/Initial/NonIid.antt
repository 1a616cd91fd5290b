-- ===== src/Assess/Initial/NonIid.antt =====
-- cpp/non_iid_main.cpp: the initial entropy estimate of data that is not assumed IID.
use is_there_entropy_down_th.Common.{
  ℕ, Bool, not, ◌&&◌, ◌||◌, Option, none, some, List, [], ◌∷◌, ◌++◌, if◌then◌else◌, ltb, ◌==◌,
  ◌>>=◌,
}
use is_there_entropy_down_th.Assess.Arguments.{Parsed, asks_version}
use is_there_entropy_down_th.Assess.Estimates.{Double, collision_test, most_common}
use is_there_entropy_down_th.Assess.Minimum.{smaller}
use is_there_entropy_down_th.Assess.Samples.{DataT, Host}
use is_there_entropy_down_th.Assess.Restart.{TestName, Suite}
use is_there_entropy_down_th.Assess.Restart.TestName.{
  most_common_value, collision, markov, compression, t_tuple, lrs, multi_mcw, lag, multi_mmc, lz78y,
  overall,
}
use is_there_entropy_down_th.Assess.Restart.Exit.{success}
use is_there_entropy_down_th.Assess.Initial.{
  Flag, Settings, default_settings, Finished, plain, parse_flags, quieten, width_of, load, first,
}
use is_there_entropy_down_th.Assess.Initial.Step.{stop, continue_with}

module _ (d : Double) where
  open d use {Value, of_long, mul, at_least}

  -- `NonIidTestCase`, as far as this program sets it. The two results are h_bitstring and h_original,
  -- for the tuple tests the fields of their own; none is the -1.0 that they have before.
  pub record NonIidCase : Type 0 where
    pub test_case_number : TestName
    pub data_word_size : Option ℕ
    pub bits : Option Value
    pub original : Option Value
    pub h_assessed : Option Value

  pub record Assessment : Type 0 where
    pub h_bitstring : Value
    pub h_original : Value
    pub cases : List NonIidCase

  -- A result counts if its test is run, and the guarded ones only if they are not negative.
  unfoldable pub run_if : (test : Bool) → Value → Option Value
  run_if test v = if test then some v else none

  unfoldable pub run_valid : (test : Bool) → Value → Option Value
  run_valid test v = if test && at_least v (of_long 0) then some v else none

  unfoldable pub lowered : Option Value → Value → Value
  lowered none h = h
  lowered (some v) h = smaller d v h

  unfoldable pub take_case : TestName → (bits original : Option Value) → Assessment → Assessment
  unfolding lowered
  take_case name bits original a = record {
    h_bitstring = lowered bits a.h_bitstring;
    h_original = lowered original a.h_original;
    cases =
        a.cases
        ++ record {
          test_case_number = name;
          data_word_size = none;
          bits = bits;
          original = original;
          h_assessed = none;
        }
          ∷ [];
  }

  -- `((data.alph_size > 2) || !initial_entropy)`
  abbrev pub on_bits : Settings → DataT → Bool
  on_bits s data_t = ltb 2 data_t.alph_size || not s.initial_entropy

  -- `most_common` where it is run.
  abbrev pub mode_if : (test : Bool) → List ℕ → (alph_size : ℕ) → Option (Option Value)
  mode_if test samples alph_size =
      if test then (do v ← most_common d samples alph_size; some (some v)) else some none

  module _ (suite : Suite d) (s : Settings) (data_t : DataT) where
    -- Section 6.3.1, from the highest possible estimates on.
    unfoldable pub assess_mode : Option Assessment
    unfolding take_case
    assess_mode = do
      bits ← mode_if (on_bits s data_t) data_t.bsymbols 2
      original ← mode_if s.initial_entropy data_t.symbols data_t.alph_size
      some (
          take_case most_common_value bits original
            (record { h_bitstring = of_long 1; h_original = of_long data_t.word_size; cases = [] }))

    -- Sections 6.3.2 to 6.3.4.
    unfoldable pub assess_bits : Assessment → Assessment
    unfolding take_case run_if run_valid
    assess_bits a =
        let bits = on_bits s data_t in
        let literal = s.initial_entropy && data_t.alph_size == 2 in
        let a2 =
          take_case collision (run_if bits (collision_test d data_t.bsymbols))
            (run_if literal (collision_test d data_t.symbols)) a in
        let a3 =
          take_case markov (run_if bits (suite.markov_test data_t.bsymbols))
            (run_if literal (suite.markov_test data_t.symbols)) a2 in
        take_case compression (run_valid bits (suite.compression_test data_t.bsymbols))
          (run_valid literal (suite.compression_test data_t.symbols)) a3

    -- Sections 6.3.5 and 6.3.6. Where `SAalgs` is not run its results are still -1.0.
    unfoldable pub assess_tuples : Assessment → Assessment
    unfolding take_case run_valid
    assess_tuples a =
        let bits = on_bits s data_t in
        let (bin_t_tuple_res, bin_lrs_res) = suite.sa_algs data_t.bsymbols 2 in
        let (t_tuple_res, lrs_res) = suite.sa_algs data_t.symbols data_t.alph_size in
        take_case lrs (run_valid bits bin_lrs_res) (run_valid s.initial_entropy lrs_res) (
          take_case t_tuple (run_valid bits bin_t_tuple_res)
            (run_valid s.initial_entropy t_tuple_res) a)

    -- One of sections 6.3.7 to 6.3.10.
    abbrev predicted : TestName → (List ℕ → ℕ → Value) → Assessment → Assessment
    predicted name test a =
        take_case name (run_valid (on_bits s data_t) (test data_t.bsymbols 2))
          (run_valid s.initial_entropy (test data_t.symbols data_t.alph_size)) a

    unfoldable pub assess_predictors : Assessment → Assessment
    unfolding take_case run_valid
    assess_predictors a = predicted lz78y suite.lz78y_test (
        predicted multi_mmc suite.multi_mmc_test
          (predicted lag suite.lag_test (predicted multi_mcw suite.multi_mcw_test a)))

    -- `h_assessed`
    unfoldable pub assessed : Assessment → Value
    assessed a =
        let width = of_long data_t.word_size in
        let h = if on_bits s data_t then smaller d width (mul a.h_bitstring width) else width in
        if s.initial_entropy then smaller d h a.h_original else h

    -- All the tests, and the case of the whole run.
    unfoldable pub assess_all : Option (List NonIidCase)
    unfolding assess_mode assess_bits assess_tuples assess_predictors assessed run_if
    assess_all = do
      a ← assess_mode
      let last = assess_predictors (assess_tuples (assess_bits a)) in
          some (
            last.cases
            ++ record {
              test_case_number = overall;
              data_word_size = some data_t.word_size;
              bits = run_if (on_bits s data_t) last.h_bitstring;
              original = run_if s.initial_entropy last.h_original;
              h_assessed = some (assessed last);
            }
              ∷ [])

  -- The calls that other code defines: `getopt`, `strtoull`, `atoi`, and the files.
  pub record Computer : Type 0 where
    pub getopt : List (List ℕ) → List Flag × List (List ℕ)
    pub strtoull : List ℕ → Parsed
    pub atoi : List ℕ → Option ℕ
    pub file : (file_path : List ℕ) → Host
    pub suite : Suite d

  -- Behind the options.
  unfoldable pub estimate_file : Computer → Settings → List (List ℕ) → Option (Finished NonIidCase)
  unfolding width_of load assess_all
  estimate_file computer s operands = elim (width_of computer.atoi s operands) [
    | stop f ↦ some f
    | continue_with word_size ↦ elim (load s word_size (computer.file (first operands))) [
      | stop f ↦ some f
      | continue_with data_t ↦ do
        cases ← assess_all computer.suite s data_t
        some (record {
          exit = success;
          output =
              if s.json_output then some (record { error = none; test_cases = cases }) else none;
        })
    ]
  ]

  -- `main`, on the arguments with the name of the program.
  unfoldable pub non_iid_main : Computer → (argv : List (List ℕ)) → Option (Finished NonIidCase)
  unfolding asks_version parse_flags estimate_file
  non_iid_main computer argv =
      let (flags, operands) = computer.getopt argv in
      if asks_version argv
      then some (plain success)
      else elim (parse_flags computer.strtoull flags default_settings) [
        | stop f ↦ some f
        | continue_with s ↦ estimate_file computer (quieten s) operands
      ]
