-- ===== src/Assess/Estimates/Whole.antt =====
-- Whole numbers in the place of doubles, for concrete runs: quotients are rounded down, and the root
-- and the logarithm are left out.
use is_there_entropy_down_th.Common.{ℕ, ◌+◌, ◌-◌, ◌*◌, ◌/◌, ltb, leb}
use is_there_entropy_down_th.Assess.Estimates.{Double, Constant}
use is_there_entropy_down_th.Assess.Estimates.Constant.{
  zalpha, half, one, one_and_quarter, two, two_and_half,
}

abbrev whole_literal : Constant → ℕ
whole_literal zalpha = 2
whole_literal half = 0
whole_literal one = 1
whole_literal one_and_quarter = 1
whole_literal two = 2
whole_literal two_and_half = 2

abbrev pub whole : Double
whole = record {
  Value = ℕ;
  literal = whole_literal;
  of_long = λ n. n;
  add = λ a b. a + b;
  sub = λ a b. a - b;
  mul = λ a b. a * b;
  divide = λ a b. a / b;
  sqrt = λ a. a;
  minus_log2 = λ a. a;
  less = ltb;
  at_least = λ a b. leb b a;
}
