-- ===== src/Assess/Lag/Flat.antt =====
-- A concrete search in the place of that of cpp/shared/utils.h: the function that is searched is 1.
use is_there_entropy_down_th.Common.{some, ◌==◌}
use is_there_entropy_down_th.Assess.Estimates.Whole.{whole}
use is_there_entropy_down_th.Assess.Predict.{Search}

abbrev pub flat : Search whole
flat = record {
  log_alpha = 1;
  infinity = 9;
  minus_infinity = 0;
  equal = λ a b. a == b;
  close = λ v. v == 1;
  none_right = λ n. 0;
  prediction_estimate_function = λ p r n. some 1;
}
