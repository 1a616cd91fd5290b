-- ===== src/Assess/MultiMcw.antt =====
-- cpp/non_iid/multi_mcw_test.h: the prediction by the most common values in four windows.
-- data[i-1], …, data[0] is the list `past`.
use is_there_entropy_down_th.Common.{
  ℕ, zero, suc, ◌+◌, ◌-◌, Bool, true, false, not, ◌&&◌, ◌||◌, Option, none, some, List, [], ◌∷◌,
  map, if◌then◌else◌, ltb, leb, ◌==◌, length, get_elem?, take, drop, AllBelow, ◌>>=◌,
}
use is_there_entropy_down_th.Assess.Estimates.{Double}
use is_there_entropy_down_th.Assess.Predict.{Search, prediction_estimate}
use is_there_entropy_down_th.Assess.Lag.{store}
pub mod Counts
pub mod Modes
pub mod Moves
pub mod Passed
pub mod Initial
pub mod Rounds
pub mod Tests

-- A window of W[j] = suc before symbols: win_cnts[j], win_poses[j], max_cnts[j] and frequent[j].
pub record Window : Type 0 where
  pub before : ℕ
  pub win_cnts : ℕ → ℕ
  pub win_poses : ℕ → ℕ
  pub max_cnt : ℕ
  pub frequent : ℕ

-- Counts of 0, and what the memory of `frequent` holds.
abbrev pub empty_window : (before frequent : ℕ) → Window
empty_window before frequent = record {
  before = before;
  win_cnts = λ k. 0;
  win_poses = λ k. 0;
  max_cnt = 0;
  frequent = frequent;
}

abbrev pub empty_windows : (frequent : ℕ → ℕ) → List Window
empty_windows frequent =
    empty_window 62 (frequent 0)
    ∷ empty_window 254 (frequent 1)
    ∷ empty_window 1_022 (frequent 2)
    ∷ empty_window 4_094 (frequent 3)
    ∷ []

-- One symbol of the initial counts.
pub count_symbol : (i x : ℕ) → Window → Window
count_symbol i x w =
    let c = suc (w.win_cnts x) in
    let counted : Window = record {
      before = w.before;
      win_cnts = store x c w.win_cnts;
      win_poses = store x i w.win_poses;
      max_cnt = if leb w.max_cnt c then c else w.max_cnt;
      frequent = if leb w.max_cnt c then x else w.frequent;
    } in
    if leb i w.before then counted else w

-- The initial counts, of symbols below `alph_size`: others are written beside the counts.
pub initial_counts :
    (alph_size : ℕ) → (symbols : List ℕ) → (i : ℕ) → List Window → Option (List Window)
unfolding count_symbol
initial_counts alph_size [] i windows = some windows
initial_counts alph_size (x ∷ symbols) i windows =
    let rest = initial_counts alph_size symbols (suc i) (map (count_symbol i x) windows) in
    if ltb x alph_size then rest else none

-- max_cnts[j], frequent[j] and max_pos.
pub record Best : Type 0 where
  pub cnt : ℕ
  pub symbol : ℕ
  pub pos : ℕ

-- The search for a new frequent symbol, from k on.
pub search_frequent : (cnts poses : ℕ → ℕ) → (left k : ℕ) → Best → Best
search_frequent cnts poses zero k b = b
search_frequent cnts poses (suc left) k b =
    let better = ltb b.cnt (cnts k) || (b.cnt == cnts k && leb b.pos (poses k)) in
    search_frequent cnts poses left (suc k)
      (if better then record { cnt = cnts k; symbol = k; pos = poses k } else b)

-- The window moves on by one symbol: `out` leaves it, x enters it.
pub update_window : (alph_size i out x : ℕ) → Window → Window
unfolding search_frequent
update_window alph_size i out x w =
    let fewer = store out (w.win_cnts out - 1) w.win_cnts in
    let cnts = store x (suc (fewer x)) fewer in
    let poses = store x i w.win_poses in
    let b =
      search_frequent cnts poses alph_size 0
        (record { cnt = w.max_cnt - 1; symbol = w.frequent; pos = i - suc w.before }) in
    let moved = record w { win_cnts = cnts; win_poses = poses } in
    if not (out == w.frequent) && leb w.max_cnt (cnts x)
    then record moved { max_cnt = cnts x; frequent = x }
    else if out == w.frequent
    then record moved { max_cnt = b.cnt; frequent = b.symbol }
    else moved

-- The windows of at most i symbols move on.
pub update_windows :
    (alph_size : ℕ) → (past : List ℕ) → (x : ℕ) → List Window → Option (List Window)
unfolding update_window
update_windows alph_size past x [] = some []
update_windows alph_size past x (w ∷ windows) = do
  rest ← update_windows alph_size past x windows
  let moved = do
    out ← get_elem? past w.before
    some (update_window alph_size (length past) out x w ∷ rest)
    in if ltb w.before (length past) then moved else some (w ∷ rest)

-- `winner`, `scoreboard`, `C`, `run_len` and `max_run_len`.
pub record Score : Type 0 where
  pub winner : ℕ
  pub scoreboard : ℕ → ℕ
  pub correct : ℕ
  pub run_len : ℕ
  pub max_run_len : ℕ

abbrev pub no_score : Score
no_score = record { winner = 0; scoreboard = λ j. 0; correct = 0; run_len = 0; max_run_len = 0 }

-- Test the prediction of the winner.
pub test_prediction : (hit : Bool) → Score → Score
test_prediction true s =
    let run = suc s.run_len in
    record s {
      correct = suc s.correct;
      run_len = run;
      max_run_len = if ltb s.max_run_len run then run else s.max_run_len;
    }
test_prediction false s = record s { run_len = 0 }

-- `if(++scoreboard[j] >= scoreboard[winner]) winner = j;`
pub score_window : (j : ℕ) → Score → Score
score_window j s =
    let board = store j (suc (s.scoreboard j)) s.scoreboard in
    record s { scoreboard = board; winner = if leb (board s.winner) (board j) then j else s.winner }

-- Update the scoreboard from window j on, and select the winner.
pub update_scores : (i x j : ℕ) → List Window → Score → Score
unfolding score_window
update_scores i x j [] s = s
update_scores i x j (w ∷ windows) s =
    update_scores i x (suc j) windows
      (if ltb w.before i && w.frequent == x then score_window j s else s)

pub predictions :
    (alph_size : ℕ) → (symbols past : List ℕ) → List Window → Score → Option (List Window × Score)
unfolding update_windows test_prediction update_scores
predictions alph_size [] past windows s = some (windows, s)
predictions alph_size (x ∷ symbols) past windows s =
    let round = do
      w ← get_elem? windows s.winner
      let tested = test_prediction (w.frequent == x) s in
          (do
            moved ← update_windows alph_size past x windows
            predictions alph_size symbols (x ∷ past) moved
                (update_scores (length past) x 0 windows tested))
    in if ltb x alph_size then round else none

-- The first n symbols, the last one first, before those in `past`.
abbrev pub passed : (n : ℕ) → (symbols past : List ℕ) → List ℕ
passed zero symbols past = past
passed (suc n) [] past = past
passed (suc n) (x ∷ symbols) past = passed n symbols (x ∷ past)

module _ (d : Double) (search : Search d) (minus_one : d.Value) where
  pub multi_mcw_test : (frequent : ℕ → ℕ) → (data_t : List ℕ) → (alph_size : ℕ) → Option d.Value
  unfolding initial_counts predictions
  multi_mcw_test frequent data_t alph_size =
      let estimate = do
        windows ← initial_counts alph_size (take 4_095 data_t) 0 (empty_windows frequent)
        (_, s) ← predictions alph_size (drop 63 data_t) (passed 63 data_t []) windows no_score
        prediction_estimate d search s.correct (length data_t - 63) s.max_run_len alph_size
      in if ltb (length data_t) 4_096 then some minus_one else estimate
