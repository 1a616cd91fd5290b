-- ===== src/Assess/Predict.antt =====
-- cpp/shared/utils.h: the search for p_local and the estimate of a predictor. The function that is
-- searched, prediction_estimate_function on long doubles, and the comparison relEpsilonEqual are
-- arguments; none is an assertion of theirs that fails.
use is_there_entropy_down_th.Common.{
  ℕ, zero, suc, ◌+◌, ◌-◌, Bool, true, false, not, ◌&&◌, ◌||◌, Option, none, some, if◌then◌else◌,
  ltb, ◌>>=◌,
}
use is_there_entropy_down_th.Assess.Estimates.{Double}
use is_there_entropy_down_th.Assess.Estimates.Constant.{zalpha, one, two}
use is_there_entropy_down_th.Assess.Minimum.{smaller}
pub mod Interval
pub mod Raised
pub mod Tests

-- What the search uses of doubles besides `Double`: `log(0.99)`, the infinities, `==`,
-- `relEpsilonEqual(_, log_alpha, ABSEPSILON, RELEPSILON, 4)`, and `1.0 - pow(0.01, 1.0/(double)N)`.
pub record Search (d : Double) : Type 0 where
  pub log_alpha : d.Value
  pub infinity : d.Value
  pub minus_infinity : d.Value
  pub equal : d.Value → d.Value → Bool
  pub close : d.Value → Bool
  pub none_right : (n : ℕ) → d.Value
  pub prediction_estimate_function : (p : d.Value) → (r n : ℕ) → Option d.Value

-- The variables of `calc_p_local`.
pub record Bisection (d : Double) : Type 0 where
  pub p : d.Value
  pub p_val : d.Value
  pub lbound : d.Value
  pub hbound : d.Value
  pub lvalue : d.Value
  pub hvalue : d.Value

module _ (d : Double) where
  open d use {Value, literal, of_long, add, sub, mul, divide, sqrt, minus_log2, less, at_least}

  -- `fmax` and `fmin`, of numbers
  abbrev pub fmax : Value → Value → Value
  fmax a b = if less a b then b else a

  abbrev pub fmin : Value → Value → Value
  fmin a b = if less b a then b else a

  -- INOPENINTERVAL and INCLOSEDINTERVAL
  abbrev pub in_open_interval : (x a b : Value) → Bool
  in_open_interval x a b = if less b a then less b x && less x a else less a x && less x b

  abbrev pub in_closed_interval : (x a b : Value) → Bool
  in_closed_interval x a b =
      if less b a then at_least x b && at_least a x else at_least x a && at_least b x

  abbrev pub middle : Value → Value → Value
  middle a b = divide (add a b) (literal two)

  module _ (search : Search d) (max_run_len n : ℕ) (ldomain : Value) where
    -- `hdomain`
    abbrev pub hdomain : Value
    hdomain = literal one

    -- The half in which the value lies.
    unfoldable pub narrow : Bisection d → Bisection d
    narrow b =
        if less search.log_alpha b.p_val
        then record b { lbound = b.p; lvalue = b.p_val }
        else record b { hbound = b.p; hvalue = b.p_val }

    -- The loop of at most ITERMAX rounds, with `left` of them to go.
    unfoldable pub bisect : (left : ℕ) → Bisection d → Option Value
    unfolding narrow
    bisect zero b = some b.p
    bisect (suc left) b =
        let c = narrow b in
        let p = middle c.lbound c.hbound in
        let next = do
          p_val ← search.prediction_estimate_function p (suc max_run_len) n
          let rest = bisect left (record c { p = p; p_val = p_val }) in
              if in_closed_interval p_val c.lvalue c.hvalue then rest else some c.hbound
        in if search.close b.p_val
          then some b.p
          else if at_least c.lbound c.hbound
          then some (fmin (fmax c.lbound c.hbound) hdomain)
          else if not (
              in_closed_interval c.lbound ldomain hdomain
              && in_closed_interval c.hbound ldomain hdomain)
          then some hdomain
          else if not (in_closed_interval search.log_alpha c.lvalue c.hvalue)
          then some hdomain
          else if not (in_open_interval p c.lbound c.hbound)
          then some c.hbound
          else if search.equal c.p p
          then some c.hbound
          else next

    unfoldable pub calc_p_local : Option Value
    unfolding bisect
    calc_p_local = do
      let p = middle ldomain hdomain in
          (do
            p_val ← search.prediction_estimate_function p (suc max_run_len) n
            bisect 1_076 (record {
              p = p;
              p_val = p_val;
              lbound = ldomain;
              hbound = hdomain;
              lvalue = search.infinity;
              hvalue = search.minus_infinity;
            }))

  module _ (search : Search d) (c n max_run_len k : ℕ) where
    -- `p_globalPrime`
    unfoldable pub global_prime : Value
    global_prime =
        let p_global = divide (of_long c) (of_long n) in
        let spread =
          sqrt
            (divide (mul p_global (sub (literal one) p_global)) (sub (of_long n) (literal one))) in
        if less (of_long 0) p_global
        then smaller d (literal one) (add p_global (mul (literal zalpha) spread))
        else search.none_right n

    -- `curMax` before p_local.
    unfoldable pub global_max : Value
    unfolding global_prime
    global_max = fmax (divide (literal one) (of_long k)) global_prime

    -- `curMax` in the end: p_local is looked for only where it can matter.
    unfoldable pub current_max : Option Value
    unfolding global_max calc_p_local
    current_max =
        let with_local = do
          value ← search.prediction_estimate_function global_max (suc max_run_len) n
          let local = do
            p_local ← calc_p_local search max_run_len n global_max
            some (fmax global_max p_local)
            in if less search.log_alpha value then local else some global_max
        in if less global_max (literal one) then with_local else some global_max

    unfoldable pub prediction_estimate : Option Value
    unfolding current_max
    prediction_estimate = do cur_max ← current_max; some (minus_log2 cur_max)
