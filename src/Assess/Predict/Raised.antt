-- ===== src/Assess/Predict/Raised.antt =====
-- The probability that the estimate of a predictor is computed from.
use is_there_entropy_down_th.Common.{
  ℕ, suc, Option, some, if◌then◌else◌, ◌>>=◌, inl, inr, Bool-cases,
}
use is_there_entropy_down_th.Assess.Estimates.{Double}
use is_there_entropy_down_th.Assess.Estimates.Constant.{one}
use is_there_entropy_down_th.Assess.Minimum.{AtMost}
use is_there_entropy_down_th.Assess.Predict.Interval.{
  AreNumbers, Inside, fmax-Within, first_value, calc_p_local-Inside, undefined, point,
}
use is_there_entropy_down_th.Assess.Predict.{Search, fmax, calc_p_local, global_max, current_max}

module _ (d : Double) (law : AreNumbers d) where
  -- The larger one of the lower end and a point of the interval.
  raised :
      (a b : d.Value) (o : Option d.Value)
      → AtMost d a b
      → Inside d a b o
      → Inside d a b (do x ← o; some (fmax d a x))
  raised a b o h undefined = undefined
  raised a b o h (point {x} inside) =
      point (fmax-Within d law a a x b (law.order.irreflexive a, h) inside)

  -- The two tests before the search, whatever the search finds.
  raised_if :
      (global log_alpha : d.Value) (value local : Option d.Value)
      → (AtMost d global (d.literal one) → Inside d global (d.literal one) local)
      → Inside d global (fmax d global (d.literal one)) (
          if d.less global (d.literal one)
          then (do
            v ← value
            if d.less log_alpha v then (do x ← local; some (fmax d global x)) else some global)
          else some global)
  raised_if global log_alpha value local h =
      let at_global = law.order.irreflexive global in
      elim (Bool-cases (d.less global (d.literal one))) [
        | inr e ↦ rw e (point (at_global, at_global))
        | inl e ↦
            let domain = law.order.asymmetric global (d.literal one) e in
            rw e (
              first_value d law global (d.literal one) value _ λ v.
                elim (Bool-cases (d.less log_alpha v)) [
                  | inr b ↦ rw b (point (at_global, domain))
                  | inl b ↦ rw b (raised global (d.literal one) local domain (h domain))
                ])
      ]

  module _ (search : Search d) (c n max_run_len k : ℕ) where
    -- For every estimate of a predictor, whose assertions hold, the probability that it is computed
    -- from is at least the bound on the global probability, and at most the larger of that and 1.
    pub current_max-Inside :
        Inside d
          (global_max d search c n max_run_len k)
          (fmax d (global_max d search c n max_run_len k) (d.literal one))
          (current_max d search c n max_run_len k)
    unfolding current_max
    current_max-Inside =
        let global = global_max d search c n max_run_len k in
        raised_if global search.log_alpha
          (search.prediction_estimate_function global (suc max_run_len) n)
          (calc_p_local d search max_run_len n global)
          λ domain. calc_p_local-Inside d law search max_run_len n global domain
