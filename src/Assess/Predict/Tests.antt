-- ===== src/Assess/Predict/Tests.antt =====
-- A search over whole numbers in 1024ths, for a function that falls with p, and one that has no value
-- at some points.
use is_there_entropy_down_th.Common.{ℕ, ◌≡◌, refl, ◌-◌, none, some, if◌then◌else◌, ltb, ◌==◌, arith}
use is_there_entropy_down_th.Assess.Estimates.{Double, Constant}
use is_there_entropy_down_th.Assess.Estimates.Constant.{
  zalpha, half, one, one_and_quarter, two, two_and_half,
}
use is_there_entropy_down_th.Assess.Estimates.Whole.{whole}
use is_there_entropy_down_th.Assess.Predict.{Search, fmax, calc_p_local, global_max, current_max}
use is_there_entropy_down_th.Assess.Predict.Interval.{AreNumbers, Inside}
use is_there_entropy_down_th.Assess.Predict.Raised.{current_max-Inside}

abbrev scaled_literal : Constant → ℕ
scaled_literal zalpha = 1
scaled_literal half = 512
scaled_literal one = 1_024
scaled_literal one_and_quarter = 1_280
scaled_literal two = 2
scaled_literal two_and_half = 2_560

abbrev scaled : Double
scaled = record whole { literal = scaled_literal; sqrt = λ x. 0 }

scaled-AreNumbers : AreNumbers scaled
scaled-AreNumbers = record {
  order = record {
    irreflexive = λ x. ground arith;
    asymmetric = λ x y e. ground arith;
    transitive = λ x y z e e'. ground arith;
  };
  between = λ a b h. (ground arith, ground arith);
}

-- 2000 - p, which meets 1280 at p = 720.
abbrev falling : Search scaled
falling = record {
  log_alpha = 1_280;
  infinity = 5_000;
  minus_infinity = 0;
  equal = λ a b. a == b;
  close = λ v. v == 1_280;
  none_right = λ n. 0;
  prediction_estimate_function = λ p r n. some (2_000 - p);
}

-- The same function, which has no value above 700.
abbrev failing : Search scaled
failing = record falling {
  prediction_estimate_function = λ p r n. if ltb 700 p then none else some (2_000 - p);
}

falling_local : calc_p_local scaled falling 3 20 256 ≡ some 720
unfolding calc_p_local
falling_local = refl

failing_local : calc_p_local scaled failing 3 20 256 ≡ none
unfolding calc_p_local
failing_local = refl

falling_max : current_max scaled falling 20 40 3 4 ≡ some 720
unfolding current_max
falling_max = refl

current_max-Inside_example :
    Inside scaled
      (global_max scaled falling 20 40 3 4)
      (fmax scaled (global_max scaled falling 20 40 3 4) 1_024)
      (current_max scaled falling 20 40 3 4)
current_max-Inside_example = current_max-Inside scaled scaled-AreNumbers falling 20 40 3 4
