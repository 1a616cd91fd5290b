-- ===== src/Assess/Restart/Stages.antt =====
-- cpp/restart_main.cpp: the estimates of rows and columns, and the IID tests.
use is_there_entropy_down_th.Common.{ℕ, ◌&&◌, Option, some, List, [], if◌then◌else◌, ◌==◌, ◌>>=◌}
use is_there_entropy_down_th.Assess.Estimates.{Double, collision_test, most_common}
use is_there_entropy_down_th.Assess.Samples.{DataT}
use is_there_entropy_down_th.Assess.Restart.{
  TestCase, Suite, Heights, no_result, take_both, take_valid,
}
use is_there_entropy_down_th.Assess.Restart.TestName.{
  most_common_value, collision, markov, compression, t_tuple, lrs, multi_mcw, lag, multi_mmc, lz78y,
  overall,
}

module _ (d : Double) (suite : Suite d) where
  -- Section 6.3.1, of both modes; a least estimate begins with the width of the symbols.
  unfoldable pub estimate_mode : DataT → (cdata : List ℕ) → Option (Heights d)
  unfolding take_both
  estimate_mode data_t cdata = do
    rows ← most_common d data_t.symbols data_t.alph_size
    columns ← most_common d cdata data_t.alph_size
    some (
        take_both d most_common_value data_t.word_size rows columns (record {
          height_r = d.of_long data_t.word_size;
          height_c = d.of_long data_t.word_size;
          cases = [];
        }))

  -- Sections 6.3.2 to 6.3.4, for bits.
  unfoldable pub estimate_bits : (rdata cdata : List ℕ) → Heights d → Heights d
  unfolding take_both take_valid
  estimate_bits rdata cdata h =
      let h2 = take_both d collision 1 (collision_test d rdata) (collision_test d cdata) h in
      let h3 = take_both d markov 1 (suite.markov_test rdata) (suite.markov_test cdata) h2 in
      take_valid d compression 1 (suite.compression_test rdata) (suite.compression_test cdata) h3

  -- Sections 6.3.5 and 6.3.6.
  unfoldable pub estimate_tuples :
      (word_size alph_size : ℕ) → (rdata cdata : List ℕ) → Heights d → Heights d
  unfolding take_both
  estimate_tuples word_size alph_size rdata cdata h =
      let (row_t_tuple_res, row_lrs_res) = suite.sa_algs rdata alph_size in
      let (col_t_tuple_res, col_lrs_res) = suite.sa_algs cdata alph_size in
      take_both d lrs word_size row_lrs_res col_lrs_res
        (take_both d t_tuple word_size row_t_tuple_res col_t_tuple_res h)

  -- Sections 6.3.7 to 6.3.10.
  unfoldable pub estimate_predictors :
      (word_size alph_size : ℕ) → (rdata cdata : List ℕ) → Heights d → Heights d
  unfolding take_valid
  estimate_predictors word_size alph_size rdata cdata h =
      let h7 =
        take_valid d multi_mcw word_size (suite.multi_mcw_test rdata alph_size)
          (suite.multi_mcw_test cdata alph_size) h in
      let h8 =
        take_valid d lag word_size (suite.lag_test rdata alph_size) (suite.lag_test cdata alph_size)
          h7 in
      let h9 =
        take_valid d multi_mmc word_size (suite.multi_mmc_test rdata alph_size)
          (suite.multi_mmc_test cdata alph_size) h8 in
      take_valid d lz78y word_size (suite.lz78y_test rdata alph_size)
        (suite.lz78y_test cdata alph_size) h9

  -- `if (!iid)`, behind the most common value.
  unfoldable pub estimate_non_iid : DataT → (cdata : List ℕ) → Heights d → Heights d
  unfolding estimate_bits estimate_tuples estimate_predictors
  estimate_non_iid data_t cdata h =
      let rdata = data_t.symbols in
      let h4 = if data_t.alph_size == 2 then estimate_bits rdata cdata h else h in
      estimate_predictors data_t.word_size data_t.alph_size rdata cdata
        (estimate_tuples data_t.word_size data_t.alph_size rdata cdata h4)

  -- `else`: the results of the IID tests in the case of the whole run. The permutation test that is
  -- meant for the columns is given the rows, `data_col.symbols = rdata`.
  unfoldable pub test_iid :
      DataT → (cdata : List ℕ) → (rawmean median h_i : d.Value) → Heights d → TestCase d
  test_iid data_t cdata rawmean median h_i h =
      let rdata = data_t.symbols in
      let data_col = record data_t { symbols = rdata } in
      record (no_result d overall) {
        h_r = some h.height_r;
        h_c = some h.height_c;
        h_i = some h_i;
        passed_chi_square_tests =
            suite.chi_square_tests rdata data_t.alph_size
            && suite.chi_square_tests cdata data_t.alph_size;
        passed_longest_repeated_substring_test =
            suite.len_lrs_test rdata data_t.alph_size && suite.len_lrs_test cdata data_t.alph_size;
        passed_iid_permutation_tests =
            suite.permutation_tests 0 data_t rawmean median
            && suite.permutation_tests 1 data_col rawmean median;
      }
