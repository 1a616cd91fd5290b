-- ===== src/Assess/Restart/Plain.antt =====
-- The tests that other files define, for concrete runs of the programs in cpp/: each estimate is 1,
-- and the IID tests all pass or all fail.
use is_there_entropy_down_th.Common.{Bool, arith}
use is_there_entropy_down_th.Assess.Estimates.Whole.{whole}
use is_there_entropy_down_th.Assess.Minimum.{IsOrder}
use is_there_entropy_down_th.Assess.Restart.{Suite}

abbrev pub suite_of : Bool → Suite whole
suite_of passed = record {
  markov_test = λ samples. 1;
  compression_test = λ samples. 1;
  sa_algs = λ samples k. (1, 1);
  multi_mcw_test = λ samples k. 1;
  lag_test = λ samples k. 1;
  multi_mmc_test = λ samples k. 1;
  lz78y_test = λ samples k. 1;
  chi_square_tests = λ samples k. passed;
  len_lrs_test = λ samples k. passed;
  permutation_tests = λ seeds data_t rawmean median. passed;
  simulate_bound = λ k h_i. 100;
}

pub whole-IsOrder : IsOrder whole
whole-IsOrder = record {
  irreflexive = λ x. ground arith;
  asymmetric = λ x y e. ground arith;
  transitive = λ x y z e e'. ground arith;
}
