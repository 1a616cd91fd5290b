-- ===== src/Assess/Lag.antt =====
-- cpp/non_iid/lag_test.h: the lag prediction estimate. S[i-1], …, S[0] is the list `past`. An array is
-- a function of its index, and what its memory holds before a write is an argument.
use is_there_entropy_down_th.Common.{
  ℕ, zero, suc, ◌+◌, ◌-◌, ◌%◌, Bool, true, false, ◌&&◌, Option, none, some, List, [], ◌∷◌,
  if◌then◌else◌, ltb, leb, ◌==◌, length, get_elem?, ◌>>=◌,
}
use is_there_entropy_down_th.Common.Words.{u8}
use is_there_entropy_down_th.Assess.Estimates.{Double}
use is_there_entropy_down_th.Assess.Predict.{Search, prediction_estimate}
pub mod Direct
pub mod Ring
pub mod Round
pub mod Loop
pub mod Flat
pub mod Tests

abbrev pub d_lag : ℕ
d_lag = 128

-- Between 0 and 255; `& LAGMASK` makes an index of them.
pub record LagBuf : Type 0 where
  pub start : ℕ
  pub end : ℕ
  pub buf : ℕ → ℕ

-- The other variables of `lag_test`.
pub record Lag : Type 0 where
  pub scoreboard : ℕ → ℕ
  pub winner : ℕ
  pub cur_run_of_corrects : ℕ
  pub max_run_of_corrects : ℕ
  pub correct_count : ℕ
  pub high_score : ℕ

-- `array[index] = value`
abbrev pub store {ℓ} : {A : Type ℓ} → (index : ℕ) → (value : A) → (ℕ → A) → ℕ → A
store index value array j = if j == index then value else array j

abbrev pub initial_lag : Lag
initial_lag = record {
  scoreboard = λ j. 0;
  winner = 0;
  cur_run_of_corrects = 0;
  max_run_of_corrects = 0;
  correct_count = 0;
  high_score = 0;
}

-- Check the prediction.
pub check_prediction : (correct : Bool) → Lag → Lag
check_prediction true lag =
    let run = suc lag.cur_run_of_corrects in
    record lag {
      correct_count = suc lag.correct_count;
      cur_run_of_corrects = run;
      max_run_of_corrects =
          if ltb lag.max_run_of_corrects run then run else lag.max_run_of_corrects;
    }
check_prediction false lag = record lag { cur_run_of_corrects = 0 }

-- `++scoreboard[curOffset]`, and the winner.
pub score : (cur_offset : ℕ) → Lag → Lag
score cur_offset lag =
    let cur_score = suc (lag.scoreboard cur_offset) in
    let wins = leb lag.high_score cur_score in
    record lag {
      scoreboard = store cur_offset cur_score lag.scoreboard;
      winner = if wins then cur_offset else lag.winner;
      high_score = if wins then cur_score else lag.high_score;
    }

-- The loop over the entries of a ring, which gives its new start. An offset below 0 is undefined, one
-- above 127 fails the assertion, and so does a loop that meets the start in none of 256 rounds.
pub update_counters : (fuel i : ℕ) → LagBuf → (counter_index : ℕ) → Lag → Option (ℕ × Lag)
update_counters zero i ring counter_index lag = none
update_counters (suc fuel) i ring counter_index lag =
    let index = u8 (counter_index + 255) in
    let position = ring.buf (index % d_lag) in
    let cur_offset = i - position - 1 in
    let lag' = score cur_offset lag in
    let rest = update_counters fuel i ring index lag' in
    let next = if index == ring.start then some (ring.start, lag') else rest in
    if leb (i - d_lag) position
    then (if ltb position i && ltb cur_offset d_lag then next else none)
    else some (u8 (index + 1), lag)

-- `if (curRingBuffer->start != curRingBuffer->end)`
pub update_ring : (i : ℕ) → LagBuf → Lag → Option (ℕ × Lag)
unfolding update_counters
update_ring i ring lag =
    let scan = update_counters 256 i ring ring.end lag in
    if ring.start == ring.end then some (ring.start, lag) else scan

-- `(uint8_t)(end - start)`
abbrev pub in_use : (start end : ℕ) → ℕ
in_use start end = u8 (end + (256 - start))

-- Add the new symbol at position i, and the assertion behind it.
pub add_symbol : (i start : ℕ) → LagBuf → Option LagBuf
add_symbol i start ring =
    let start' = if in_use start ring.end == d_lag then u8 (start + 1) else start in
    let end' = u8 (ring.end + 1) in
    if leb (in_use start' end') d_lag
    then some (record { start = start'; end = end'; buf = store (ring.end % d_lag) i ring.buf })
    else none

-- One round of the loop. A symbol that has no ring, and S[i - winner - 1] before S, are undefined.
pub next_symbol :
    (k cur_symbol : ℕ) → (past : List ℕ) → (ℕ → LagBuf) → Lag → Option ((ℕ → LagBuf) × Lag)
unfolding update_ring add_symbol check_prediction
next_symbol k cur_symbol past rings lag =
    let i = length past in
    let round = do
      guess ← get_elem? past lag.winner
      (start, scored) ←
          update_ring i (rings cur_symbol) (check_prediction (cur_symbol == guess) lag)
      ring ← add_symbol i start (rings cur_symbol)
      some (store cur_symbol ring rings, scored)
    in if ltb cur_symbol k then round else none

pub lag_loop : (k : ℕ) → (symbols past : List ℕ) → (ℕ → LagBuf) → Lag → Option Lag
unfolding next_symbol
lag_loop k [] past rings lag = some lag
lag_loop k (x ∷ symbols) past rings lag = do
  (rings', lag') ← next_symbol k x past rings lag
  lag_loop k symbols (x ∷ past) rings' lag'

-- All rings empty but that of the first symbol.
pub first_rings : (memory : ℕ → ℕ → ℕ) → (first : ℕ) → ℕ → LagBuf
first_rings memory first =
    store first (record { start = 0; end = 1; buf = store 0 0 (memory first) })
      (λ j. record { start = 0; end = 0; buf = memory j })

module _ (d : Double) (search : Search d) where
  pub lag_test : (memory : ℕ → ℕ → ℕ) → (symbols : List ℕ) → (k : ℕ) → Option d.Value
  unfolding lag_loop first_rings
  lag_test memory [] k = none
  lag_test memory (first ∷ symbols) k =
      let estimate = do
        lag ← lag_loop k symbols (first ∷ []) (first_rings memory first) initial_lag
        prediction_estimate d search lag.correct_count (length symbols) lag.max_run_of_corrects k
      in if ltb 2 (suc (length symbols)) && leb 2 k && ltb first k then estimate else none
