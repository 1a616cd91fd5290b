-- ===== src/Assess/Lag/Loop.antt =====
-- The whole loop: the rings hold the positions of their symbols, and the prediction is the direct one.
use mathlib.Core.Path.{subst}
use is_there_entropy_down_th.Common.{
  ℕ, suc, ◌≡◌, ◌-◌, ◌<◌, ◌≤◌, refl, true, false, some, List, [], ◌∷◌, ltb, lt→ltb, leb, ◌==◌, ◌&&◌,
  length, drop, AllBelow, Bool-cases, inl, inr, arith, get_elem?, get_elem?_total,
}
use is_there_entropy_down_th.Assess.Estimates.{Double}
use is_there_entropy_down_th.Assess.Predict.{Search, prediction_estimate}
use is_there_entropy_down_th.Assess.Lag.{
  LagBuf, Lag, store, initial_lag, check_prediction, next_symbol, lag_loop, first_rings, lag_test,
}
use is_there_entropy_down_th.Assess.Lag.Direct.{
  AllBelow-le, positions, positions-AllBelow, positions-Descends, direct_step, direct_run,
  position_scores-direct_scores, direct_scores_winner, check_winner,
}
use is_there_entropy_down_th.Assess.Lag.Round.{Holds, update_ring_lem, add_symbol_lem}

abbrev AllHold : (i : ℕ) → (ℕ → LagBuf) → (past : List ℕ) → Type 0
AllHold i rings past = (s : ℕ) → Holds i (rings s).start (rings s) (positions s past)

-- A ring that gets no symbol.
Holds-later :
    (i start : ℕ) (ring : LagBuf) (ps : List ℕ)
    → Holds i start ring ps
    → Holds (suc i) start ring ps
Holds-later i start ring ps h = record {
  t = h.t;
  n = h.n;
  small = h.small;
  starts = h.starts;
  ends = h.ends;
  stored = h.stored;
  old = AllBelow-le (i - 128) (suc i - 128) (drop h.n ps) (omega arith) h.old;
}

AllHold-store :
    (x : ℕ) (past : List ℕ) (rings : ℕ → LagBuf) (ring : LagBuf)
    → AllHold (length past) rings past
    → Holds (suc (length past)) ring.start ring (length past ∷ positions x past)
    → AllHold (suc (length past)) (store x ring rings) (x ∷ past)
AllHold-store x past rings ring h new s = elim (Bool-cases (x == s)) [
  | inl e ↦
      let same : x ≡ s = ground arith in
      let e' : (s == x) ≡ true = ground arith in
      rw (e, e')
        (subst (λ y. Holds (suc (length past)) ring.start ring (length past ∷ positions y past))
          same new)
  | inr e ↦
      let e' : (s == x) ≡ false = ground arith in
      rw (e, e') (Holds-later (length past) (rings s).start (rings s) (positions s past) (h s))
]

-- What one round does.
record IsStepped (k x : ℕ) (past : List ℕ) (rings : ℕ → LagBuf) (lag : Lag) : Type 0 where
  guess : ℕ
  rings' : ℕ → LagBuf
  guessed : get_elem? past lag.winner ≡ some guess
  stepped : next_symbol k x past rings lag ≡ some (rings', direct_step x guess past lag)
  hold : AllHold (suc (length past)) rings' (x ∷ past)
  within : (direct_step x guess past lag).winner < suc (length past)

next_symbol-IsStepped :
    (k x : ℕ) (past : List ℕ) (rings : ℕ → LagBuf) (lag : Lag)
    → x < k
    → lag.winner < length past
    → AllHold (length past) rings past
    → IsStepped k x past rings lag
unfolding next_symbol
next_symbol-IsStepped k x past rings lag h w hold =
    let i = length past in
    let ps = positions x past in
    let below = positions-AllBelow x past in
    let desc = positions-Descends x past in
    let (guess, known) = get_elem?_total past lag.winner w in
    let checked = check_prediction (x == guess) lag in
    let (start, updated, kept) = update_ring_lem i (rings x) ps checked below desc (hold x) in
    let (ring, added, held) = add_symbol_lem i start (rings x) ps below desc kept in
    let scores = position_scores-direct_scores x i 0 128 past checked (omega arith) refl in
    let small = lt→ltb x k h in
    let same = check_winner (x == guess) lag in
    let winner : checked.winner < suc i = omega arith in
    record {
      guess = guess;
      rings' = store x ring rings;
      guessed = known;
      stepped = rw (small, known, updated, added, scores) refl;
      hold = AllHold-store x past rings ring hold held;
      within = direct_scores_winner (suc i) x 0 128 past checked winner (omega arith);
    }

lag_loop-direct_run :
    (k : ℕ) (symbols past : List ℕ) (rings : ℕ → LagBuf) (lag : Lag)
    → AllBelow k symbols
    → lag.winner < length past
    → AllHold (length past) rings past
    → (lag' : Lag) × (lag_loop k symbols past rings lag ≡ some lag')
      × (direct_run symbols past lag ≡ some lag')
unfolding lag_loop
lag_loop-direct_run k [] past rings lag h w hold = (lag, refl, refl)
lag_loop-direct_run k (x ∷ symbols) past rings lag (h, hs) w hold =
    let next = next_symbol-IsStepped k x past rings lag h w hold in
    let (lag', looped, direct) =
      lag_loop-direct_run k symbols (x ∷ past) next.rings' (direct_step x next.guess past lag) hs
        next.within next.hold in
    (lag', rw next.stepped looped, rw next.guessed direct)

-- The rings after the first symbol.
first_rings-AllHold :
    (memory : ℕ → ℕ → ℕ) (first : ℕ) → AllHold 1 (first_rings memory first) (first ∷ [])
unfolding first_rings
first_rings-AllHold memory first s = elim (Bool-cases (first == s)) [
  | inl e ↦
      let e' : (s == first) ≡ true = ground arith in
      rw (e, e')
        (record {
          t = 0;
          n = 1;
          small = omega arith;
          starts = refl;
          ends = refl;
          stored = (refl, tt);
          old = tt;
        })
  | inr e ↦
      let e' : (s == first) ≡ false = ground arith in
      rw (e, e')
        (record {
          t = 0;
          n = 0;
          small = omega arith;
          starts = refl;
          ends = refl;
          stored = tt;
          old = tt;
        })
]

module _ (d : Double) (search : Search d) where
  -- For more than two symbols, all below k, with k at least 2, the lag test never fails an assertion
  -- about its rings nor loops on, and gives the estimate for the counts of the direct prediction,
  -- which compares each of the last 128 symbols with the new one, whatever the memory holds before.
  pub lag_test-direct_run :
      (memory : ℕ → ℕ → ℕ) (first : ℕ) (symbols : List ℕ) (k : ℕ)
      → 2 ≤ length symbols
      → 2 ≤ k
      → first < k
      → AllBelow k symbols
      → (lag : Lag) × (direct_run symbols (first ∷ []) initial_lag ≡ some lag)
        × (lag_test d search memory (first ∷ symbols) k
            ≡ prediction_estimate d search lag.correct_count
                (length symbols)
                lag.max_run_of_corrects
                k)
  unfolding lag_test
  lag_test-direct_run memory first symbols k long wide h hs =
      let (lag, looped, direct) =
        lag_loop-direct_run k symbols (first ∷ []) (first_rings memory first) initial_lag hs
          (omega arith) (first_rings-AllHold memory first) in
      let asserted : (ltb 2 (suc (length symbols)) && leb 2 k && ltb first k) ≡ true =
        ground arith in
      (lag, direct, rw (asserted, looped) refl)
