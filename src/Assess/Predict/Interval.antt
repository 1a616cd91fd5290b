-- ===== src/Assess/Predict/Interval.antt =====
-- The search for p_local never leaves its interval.
use is_there_entropy_down_th.Common.{
  ℕ, zero, suc, ◌≡◌, refl, Bool, true, false, ◌&&◌, Option, none, some, if◌then◌else◌, ◌>>=◌, inl,
  inr, Bool-cases, Option-cases,
}
use is_there_entropy_down_th.Assess.Estimates.{Double}
use is_there_entropy_down_th.Assess.Estimates.Constant.{one}
use is_there_entropy_down_th.Assess.Minimum.{IsOrder, AtMost}
use is_there_entropy_down_th.Assess.Predict.{
  Search, Bisection, fmax, fmin, in_open_interval, in_closed_interval, middle, narrow, bisect,
  calc_p_local,
}

-- Doubles that are numbers, of which the mean of two lies between them.
pub record AreNumbers (d : Double) : Type 0 where
  pub order : IsOrder d
  pub between :
      (a b : d.Value) → AtMost d a b → AtMost d a (middle d a b) × AtMost d (middle d a b) b

-- x lies in [a, b].
abbrev pub Within : (d : Double) → (a x b : d.Value) → Type 0
Within d a x b = AtMost d a x × AtMost d x b

-- A result in [a, b], or an assertion that fails.
pub data Inside (d : Double) (a b : d.Value) : Option d.Value → Type 0 where
  undefined : Inside d a b none
  point : {x : d.Value} → Within d a x b → Inside d a b (some x)

module _ (d : Double) (law : AreNumbers d) where
  -- Of two points of an interval, the larger and the smaller one are in it.
  pub fmax-Within :
      (a x y b : d.Value) → Within d a x b → Within d a y b → Within d a (fmax d x y) b
  fmax-Within a x y b hx hy = elim (Bool-cases (d.less x y)) [ inl e ↦ rw e hy | inr e ↦ rw e hx ]

  fmin-Within : (a x y b : d.Value) → Within d a x b → Within d a y b → Within d a (fmin d x y) b
  fmin-Within a x y b hx hy = elim (Bool-cases (d.less y x)) [ inl e ↦ rw e hy | inr e ↦ rw e hx ]

  both_true : (p q : Bool) → (p && q) ≡ true → (p ≡ true) × (q ≡ true)
  both_true true q e = (refl, e)
  both_true false q e = cc

  -- What the test of an open interval says, where its ends are in order.
  open_lem : (x a b : d.Value) → AtMost d a b → in_open_interval d x a b ≡ true → Within d a x b
  open_lem x a b h e =
      let e' : (d.less a x && d.less x b) ≡ true = rw h at e in
      let (left, right) = both_true (d.less a x) (d.less x b) e' in
      (law.order.asymmetric a x left, law.order.asymmetric x b right)

  pub first_value :
      (a b : d.Value) (o : Option d.Value) (rest : d.Value → Option d.Value)
      → ((v : d.Value) → Inside d a b (rest v))
      → Inside d a b (o >>= rest)
  first_value a b none rest h = undefined
  first_value a b (some v) rest h = h v

  -- The bounds, the point between them, and the domain, in order.
  record IsNarrowed (ldomain : d.Value) (b : Bisection d) : Type 0 where
    low : AtMost d ldomain b.lbound
    left : AtMost d b.lbound b.p
    right : AtMost d b.p b.hbound
    high : AtMost d b.hbound (d.literal one)

  module _ (search : Search d) (max_run_len n : ℕ) (ldomain : d.Value)
      (domain : AtMost d ldomain (d.literal one)) where
    narrow-IsNarrowed :
        (b : Bisection d)
        → IsNarrowed ldomain b
        → IsNarrowed ldomain (narrow d search max_run_len n ldomain b)
    unfolding narrow
    narrow-IsNarrowed b h = elim (Bool-cases (d.less search.log_alpha b.p_val)) [
      | inl e ↦ rw e (record {
        low = law.order.transitive ldomain b.lbound b.p h.low h.left;
        left = law.order.irreflexive b.p;
        right = h.right;
        high = h.high;
      })
      | inr e ↦ rw e (record {
        low = h.low;
        left = h.left;
        right = law.order.irreflexive b.p;
        high = law.order.transitive b.p b.hbound (d.literal one) h.right h.high;
      })
    ]

    bounds-Within :
        (b : Bisection d)
        → IsNarrowed ldomain b
        → Within d ldomain b.lbound (d.literal one)
          × Within d ldomain b.p (d.literal one)
          × Within d ldomain b.hbound (d.literal one)
          × AtMost d b.lbound b.hbound
    bounds-Within b h =
        let ordered = law.order.transitive b.lbound b.p b.hbound h.left h.right in
        let below_p = law.order.transitive ldomain b.lbound b.p h.low h.left in
        let above_p = law.order.transitive b.p b.hbound (d.literal one) h.right h.high in
        (
          (h.low, law.order.transitive b.lbound b.hbound (d.literal one) ordered h.high),
          (below_p, above_p),
          (law.order.transitive ldomain b.p b.hbound below_p h.right, h.high),
          ordered,
        )

    top-Within : Within d ldomain (d.literal one) (d.literal one)
    top-Within = (domain, law.order.irreflexive (d.literal one))

    next_round :
        (left : ℕ) (c : Bisection d) (p : d.Value)
        → Within d ldomain c.hbound (d.literal one)
        → ((p_val : d.Value)
            → Inside d ldomain
                (d.literal one)
                (bisect d search max_run_len n ldomain left (record c { p = p; p_val = p_val })))
        → Inside d ldomain (d.literal one) (do
          p_val ← search.prediction_estimate_function p (suc max_run_len) n
          if in_closed_interval d p_val c.lvalue c.hvalue
              then bisect d search max_run_len n ldomain left (record c { p = p; p_val = p_val })
              else some c.hbound)
    next_round left c p high rest =
        elim (Option-cases (search.prediction_estimate_function p (suc max_run_len) n)) [
          | inl e ↦ rw e undefined
          | inr (p_val, e) ↦
              rw e (elim (Bool-cases (in_closed_interval d p_val c.lvalue c.hvalue)) [
                | inl b ↦ rw b (rest p_val)
                | inr b ↦ rw b (point high)
              ])
        ]

    -- Every end of a round, and the rounds after it.
    bisect-Within :
        (left : ℕ) (b : Bisection d)
        → IsNarrowed ldomain b
        → Inside d ldomain (d.literal one) (bisect d search max_run_len n ldomain left b)
    unfolding bisect
    bisect-Within zero b h = let (_, at_p, _, _) = bounds-Within b h in point at_p
    bisect-Within (suc left) b h =
        let c = narrow d search max_run_len n ldomain b in
        let p = middle d c.lbound c.hbound in
        let k = narrow-IsNarrowed b h in
        let (_, at_p, _, _) = bounds-Within b h in
        let (low, _, high, ordered) = bounds-Within c k in
        let clipped =
          fmin-Within ldomain (fmax d c.lbound c.hbound) (d.literal one) (d.literal one)
            (fmax-Within ldomain c.lbound c.hbound (d.literal one) low high) top-Within in
        elim (Bool-cases (search.close b.p_val)) [
          | inl e ↦ rw e (point at_p)
          | inr e ↦ rw e (elim (Bool-cases (d.at_least c.lbound c.hbound)) [
            | inl e ↦ rw e (point clipped)
            | inr e ↦
                rw e
                  (elim (Bool-cases (
                    in_closed_interval d c.lbound ldomain (d.literal one)
                    && in_closed_interval d c.hbound ldomain (d.literal one))) [
                      | inr e ↦ rw e (point top-Within)
                      | inl e ↦
                          rw e
                            (elim (Bool-cases
                              (in_closed_interval d search.log_alpha c.lvalue c.hvalue)) [
                                | inr e ↦ rw e (point top-Within)
                                | inl e ↦
                                    rw e
                                      (elim (Bool-cases (in_open_interval d p c.lbound c.hbound)) [
                                        | inr e ↦ rw e (point high)
                                        | inl inside ↦
                                            rw inside (elim (Bool-cases (search.equal c.p p)) [
                                              | inl e ↦ rw e (point high)
                                              | inr e ↦ rw e (
                                                  next_round left c p high λ p_val.
                                                    let (above, below) =
                                                      open_lem p c.lbound c.hbound ordered inside in
                                                    bisect-Within left
                                                      (record c { p = p; p_val = p_val })
                                                      (record {
                                                        low = k.low;
                                                        left = above;
                                                        right = below;
                                                        high = k.high;
                                                      }))
                                            ])
                                      ])
                              ])
                    ])
          ])
        ]

    -- Where the lower end of the domain is at most 1, the search ends with a failed assertion or with
    -- a point of the domain, whatever the function that is searched.
    pub calc_p_local-Inside :
        Inside d ldomain (d.literal one) (calc_p_local d search max_run_len n ldomain)
    unfolding calc_p_local
    calc_p_local-Inside =
        let p = middle d ldomain (d.literal one) in
        let (above, below) = law.between ldomain (d.literal one) domain in
        first_value ldomain (d.literal one)
          (search.prediction_estimate_function p (suc max_run_len) n) _
          λ p_val.
            bisect-Within 1_076
              (record {
                p = p;
                p_val = p_val;
                lbound = ldomain;
                hbound = d.literal one;
                lvalue = search.infinity;
                hvalue = search.minus_infinity;
              })
              (record {
                low = law.order.irreflexive ldomain;
                left = above;
                right = below;
                high = law.order.irreflexive (d.literal one);
              })
