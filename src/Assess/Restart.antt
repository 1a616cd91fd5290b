-- ===== src/Assess/Restart.antt =====
-- cpp/restart_main.cpp: the restart tests. The estimators and the file are arguments; what is printed
-- is left out. none is undefined behaviour or an assertion that fails.
use is_there_entropy_down_th.Common.{
  ℕ, zero, suc, ◌+◌, ◌*◌, Bool, true, false, not, ◌&&◌, ◌||◌, Option, none, some, List, [], ◌∷◌,
  ◌++◌, if◌then◌else◌, ltb, leb, ◌==◌, ◌>>=◌, length,
}
use is_there_entropy_down_th.Assess.Estimates.{Double, Constant, collision_test, most_common}
use is_there_entropy_down_th.Assess.Estimates.Constant.{two}
use is_there_entropy_down_th.Assess.Minimum.{smaller}
use is_there_entropy_down_th.Assess.Samples.{DataT, ReadError, ReadResult, Host, read_file}
use is_there_entropy_down_th.Assess.Matrix.{max_row_count, max_column_count}
use is_there_entropy_down_th.Assess.Stats.{calc_stats}
pub mod Lowest
pub mod Stages
pub mod Program
pub mod Verdict
pub mod Endings
pub mod Document
pub mod Tested
pub mod Judged
pub mod Plain
pub mod Tests

-- What `getopt` finds, by the letter.
pub data Opt : Type 0 where
  opt_i opt_n opt_v opt_q opt_o opt_unknown : Opt

pub record Options : Type 0 where
  pub iid : Bool
  pub verbose : ℕ
  pub quiet_mode : Bool
  pub json_output : Bool

abbrev pub default_options : Options
default_options = record { iid = false; verbose = 1; quiet_mode = false; json_output = false }

-- none: the usage is printed.
pub parse_options : List Opt → Options → Option Options
parse_options [] o = some o
parse_options (opt_i ∷ opts) o = parse_options opts (record o { iid = true })
parse_options (opt_n ∷ opts) o = parse_options opts (record o { iid = false })
parse_options (opt_v ∷ opts) o = parse_options opts (record o { verbose = suc o.verbose })
parse_options (opt_q ∷ opts) o = parse_options opts (record o { quiet_mode = true })
parse_options (opt_o ∷ opts) o = parse_options opts (record o { json_output = true })
parse_options (opt_unknown ∷ opts) o = none

pub data TestName : Type 0 where
  most_common_value collision markov compression t_tuple lrs multi_mcw lag multi_mmc lz78y overall :
      TestName

-- `errorMsg`
pub data Message : Type 0 where
  invalid_bits_per_symbol h_i_negative h_i_too_large one_symbol wrong_size no_memory_columns
        sanity_check_failed validation_failed :
      Message
  not_read : ReadError → Message

-- How the program ends: with the usage and -1, with -1, or with 0.
pub data Exit : Type 0 where
  usage failure success : Exit

module _ (d : Double) where
  open d use {Value, literal, of_long, divide, less, at_least}

  -- A member of either class of test cases, as far as this program sets it; none is the -1.0 that it
  -- has before.
  pub record TestCase : Type 0 where
    pub test_case_number : TestName
    pub data_word_size : Option ℕ
    pub h_r : Option Value
    pub h_c : Option Value
    pub h_i : Option Value
    pub passed_chi_square_tests : Bool
    pub passed_longest_repeated_substring_test : Bool
    pub passed_iid_permutation_tests : Bool

  -- The JSON document: `errorMsg` where the error level is -1, and the cases.
  pub record Report : Type 0 where
    pub is_iid : Bool
    pub error : Option Message
    pub test_cases : List TestCase

  pub record Ending : Type 0 where
    pub exit : Exit
    pub output : Option Report

  -- The tests of the suite that other files define, and the simulated bound. The permutation tests
  -- draw random numbers; the first argument tells the calls apart.
  pub record Suite : Type 0 where
    pub markov_test : List ℕ → Value
    pub compression_test : List ℕ → Value
    pub sa_algs : List ℕ → (alph_size : ℕ) → Value × Value
    pub multi_mcw_test : List ℕ → (alph_size : ℕ) → Value
    pub lag_test : List ℕ → (alph_size : ℕ) → Value
    pub multi_mmc_test : List ℕ → (alph_size : ℕ) → Value
    pub lz78y_test : List ℕ → (alph_size : ℕ) → Value
    pub chi_square_tests : List ℕ → (alphabet_size : ℕ) → Bool
    pub len_lrs_test : List ℕ → (alphabet_size : ℕ) → Bool
    pub permutation_tests : (seeds : ℕ) → DataT → (rawmean median : Value) → Bool
    pub simulate_bound : (alph_size : ℕ) → (h_i : Value) → ℕ

  -- `H_r`, `H_c` and the cases of the non-IID run.
  pub record Heights : Type 0 where
    pub height_r : Value
    pub height_c : Value
    pub cases : List TestCase

  abbrev pub no_result : TestName → TestCase
  no_result name = record {
    test_case_number = name;
    data_word_size = none;
    h_r = none;
    h_c = none;
    h_i = none;
    passed_chi_square_tests = false;
    passed_longest_repeated_substring_test = false;
    passed_iid_permutation_tests = false;
  }

  -- An estimate of the rows and one of the columns: both count.
  pub take_both : TestName → (word_size : ℕ) → (rows columns : Value) → Heights → Heights
  take_both name word_size rows columns h = record {
    height_r = smaller d rows h.height_r;
    height_c = smaller d columns h.height_c;
    cases =
        h.cases
        ++ record (no_result name) {
          data_word_size = some word_size;
          h_r = some rows;
          h_c = some columns;
        }
          ∷ [];
  }

  -- Each counts only if it is not negative.
  pub take_valid : TestName → (word_size : ℕ) → (rows columns : Value) → Heights → Heights
  take_valid name word_size rows columns h =
      let zero_value = of_long 0 in
      record {
        height_r = if at_least rows zero_value then smaller d rows h.height_r else h.height_r;
        height_c = if at_least columns zero_value then smaller d columns h.height_c else h.height_c;
        cases =
            h.cases
            ++ record (no_result name) {
              data_word_size = some word_size;
              h_r = if at_least rows zero_value then some rows else none;
              h_c = if at_least columns zero_value then some columns else none;
            }
              ∷ [];
      }
