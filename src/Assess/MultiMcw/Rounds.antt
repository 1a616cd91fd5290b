-- ===== src/Assess/MultiMcw/Rounds.antt =====
-- The rounds of predictions: every window is right before each of them.
use mathlib.Core.Path.{subst}
use is_there_entropy_down_th.Common.{
  ℕ, zero, suc, ◌≡◌, ◌∙◌, ◌+◌, ◌-◌, ◌<◌, ◌≤◌, refl, sym, ap, Bool, true, false, ◌&&◌, some, List,
  [], ◌∷◌, if◌then◌else◌, ltb, lt→ltb, leb, ◌==◌, length, length-drop, take, drop, AllBelow,
  Bool-cases, inl, inr, arith, get_elem?, get_elem?_total,
}
use is_there_entropy_down_th.Assess.Estimates.{Double}
use is_there_entropy_down_th.Assess.Predict.{Search, prediction_estimate}
use is_there_entropy_down_th.Assess.Lag.{store}
use is_there_entropy_down_th.Assess.MultiMcw.{
  Window, empty_windows, initial_counts, update_window, update_windows, Score, no_score,
  test_prediction, score_window, update_scores, predictions, passed, multi_mcw_test,
}
use is_there_entropy_down_th.Assess.MultiMcw.Modes.{IsMode}
use is_there_entropy_down_th.Assess.MultiMcw.Moves.{update_window-IsMode}
use is_there_entropy_down_th.Assess.MultiMcw.Passed.{AllWindows, AllWindows-weaken, passed-drop}
use is_there_entropy_down_th.Assess.MultiMcw.Initial.{Ready, initial_counts-Ready}

update_window_before :
    (alph_size i out x : ℕ) (w : Window) → (update_window alph_size i out x w).before ≡ w.before
unfolding update_window
update_window_before alph_size i out x w =
    let fewer : ℕ → ℕ = store out (w.win_cnts out - 1) w.win_cnts in
    let entered = store x (suc (fewer x)) fewer x in
    elim (Bool-cases (out == w.frequent)) [
      | inl e ↦ rw e refl
      | inr e ↦
          rw e (elim (Bool-cases (leb w.max_cnt entered)) [
            | inl e' ↦ rw e' refl
            | inr e' ↦ rw e' refl
          ])
    ]

-- A window of at most i symbols moves on.
moved-Ready :
    (alph_size x out : ℕ) (past symbols : List ℕ) (w : Window)
    → x < alph_size
    → w.before < length past
    → get_elem? past w.before ≡ some out
    → Ready alph_size past (x ∷ symbols) w
    → Ready alph_size (x ∷ past) symbols (update_window alph_size (length past) out x w)
unfolding Ready
moved-Ready alph_size x out past symbols w h full known r =
    let w' = update_window alph_size (length past) out x w in
    let same : w'.before ≡ w.before = update_window_before alph_size (length past) out x w in
    let none_left : suc w.before - length past ≡ 0 = omega arith in
    let none_left' : suc w'.before - suc (length past) ≡ 0 = omega arith in
    subst (λ k. IsMode alph_size (passed k symbols (x ∷ past)) w') (sym none_left')
      (update_window-IsMode alph_size x out past w h known
        (subst (λ k. IsMode alph_size (passed k (x ∷ symbols) past) w) none_left r))

-- The others have been counted already.
waiting-Ready :
    (alph_size x : ℕ) (past symbols : List ℕ) (w : Window)
    → length past ≤ w.before
    → Ready alph_size past (x ∷ symbols) w
    → Ready alph_size (x ∷ past) symbols w
unfolding Ready
waiting-Ready alph_size x past symbols w wait r =
    let more : suc w.before - length past ≡ suc (w.before - length past) = omega arith in
    let rest : suc w.before - suc (length past) ≡ w.before - length past = omega arith in
    subst (λ k. IsMode alph_size (passed k symbols (x ∷ past)) w) (sym rest)
      (subst (λ k. IsMode alph_size (passed k (x ∷ symbols) past) w) more r)

update_windows-Ready :
    (alph_size x : ℕ) (past symbols : List ℕ) (windows : List Window)
    → x < alph_size
    → AllWindows (Ready alph_size past (x ∷ symbols)) windows
    → (windows' : List Window) × (update_windows alph_size past x windows ≡ some windows')
      × (length windows' ≡ length windows)
      × AllWindows (Ready alph_size (x ∷ past) symbols) windows'
unfolding update_windows
update_windows-Ready alph_size x past symbols [] h rs = ([], refl, refl, tt)
update_windows-Ready alph_size x past symbols (w ∷ windows) h (r, rs) =
    let (rest, moved, long, all) = update_windows-Ready alph_size x past symbols windows h rs in
    elim (Bool-cases (ltb w.before (length past))) [
      | inl e ↦
          let (out, known) = get_elem?_total past w.before (ground arith) in
          (
            update_window alph_size (length past) out x w ∷ rest,
            rw (moved, e, known) refl,
            ap suc long,
            (moved-Ready alph_size x out past symbols w h (ground arith) known r, all),
          )
      | inr e ↦ (
        w ∷ rest,
        rw (moved, e) refl,
        ap suc long,
        (waiting-Ready alph_size x past symbols w (ground arith) r, all),
      )
    ]

test_prediction_winner : (hit : Bool) (s : Score) → (test_prediction hit s).winner ≡ s.winner
unfolding test_prediction
test_prediction_winner true s = refl
test_prediction_winner false s = refl

score_window_winner :
    (j bound : ℕ) (s : Score) → j < bound → s.winner < bound → (score_window j s).winner < bound
unfolding score_window
score_window_winner j bound s h h' =
    let board : ℕ → ℕ = store j (suc (s.scoreboard j)) s.scoreboard in
    elim (Bool-cases (leb (board s.winner) (board j))) [ inl e ↦ rw e h | inr e ↦ rw e h' ]

update_scores_winner :
    (i x j bound : ℕ) (windows : List Window) (s : Score)
    → j + length windows ≤ bound
    → s.winner < bound
    → (update_scores i x j windows s).winner < bound
unfolding update_scores
update_scores_winner i x j bound [] s le h = h
update_scores_winner i x j bound (w ∷ windows) s le h =
    let hit = ltb w.before i && w.frequent == x in
    let next : (if hit then score_window j s else s).winner < bound = elim (Bool-cases hit) [
      | inl e ↦ rw e (score_window_winner j bound s (omega arith) h)
      | inr e ↦ rw e h
    ] in
    update_scores_winner i x (suc j) bound windows (if hit then score_window j s else s)
      (omega arith) next

predictions-Ready :
    (alph_size : ℕ) (symbols past : List ℕ) (windows : List Window) (s : Score)
    → AllBelow alph_size symbols
    → s.winner < length windows
    → AllWindows (Ready alph_size past symbols) windows
    → (windows' : List Window) × (s' : Score) × (predictions alph_size symbols past windows s
        ≡ some (windows', s'))
      × (length windows' ≡ length windows)
      × AllWindows (Ready alph_size (passed (length symbols) symbols past) []) windows'
unfolding predictions
predictions-Ready alph_size [] past windows s h w rs = (windows, s, refl, refl, rs)
predictions-Ready alph_size (x ∷ symbols) past windows s (h, hs) w rs =
    let small = lt→ltb x alph_size h in
    let (winning, known) = get_elem?_total windows s.winner w in
    let (moved, updated, long, all) = update_windows-Ready alph_size x past symbols windows h rs in
    let tested = test_prediction (winning.frequent == x) s in
    let same = test_prediction_winner (winning.frequent == x) s in
    let scored = update_scores (length past) x 0 windows tested in
    let winner =
      update_scores_winner (length past) x 0 (length windows) windows tested (omega arith)
        (omega arith) in
    let (windows', s', rest, long', all') =
      predictions-Ready alph_size symbols (x ∷ past) moved scored hs (omega arith) all in
    (windows', s', rw (small, known, updated) rest, long' ∙ long, all')

ltb-false : (a b : ℕ) → b ≤ a → ltb a b ≡ false
ltb-false a b h = ground arith

AllBelow-take : (k m : ℕ) (xs : List ℕ) → AllBelow k xs → AllBelow k (take m xs)
AllBelow-take k zero xs h = tt
AllBelow-take k (suc m) [] h = tt
AllBelow-take k (suc m) (x ∷ xs) (h, hs) = (h, AllBelow-take k m xs hs)

AllBelow-drop : (k m : ℕ) (xs : List ℕ) → AllBelow k xs → AllBelow k (drop m xs)
AllBelow-drop k zero xs h = h
AllBelow-drop k (suc m) [] h = tt
AllBelow-drop k (suc m) (x ∷ xs) (h, hs) = AllBelow-drop k m xs hs

passed-nil : (n : ℕ) (past : List ℕ) → passed n [] past ≡ past
passed-nil zero past = refl
passed-nil (suc n) past = refl

Ready-IsMode :
    (alph_size : ℕ) (past past' : List ℕ) (w : Window)
    → past ≡ past'
    → Ready alph_size past [] w
    → IsMode alph_size past' w
unfolding Ready
Ready-IsMode alph_size past past' w e r =
    subst (λ p. IsMode alph_size p w) (passed-nil (suc w.before - length past) past ∙ e) r

module _ (d : Double) (search : Search d) (minus_one : d.Value) where
  -- For at least 4096 symbols below alph_size, the test reads and writes nothing out of range, and
  -- ends with the estimate for its counts; each of its four windows then has the counts of its last
  -- symbols, and for `frequent` the most common of them, the latest of these where several are,
  -- whatever the memory of `frequent` holds before.
  pub multi_mcw_test-IsMode :
      (frequent : ℕ → ℕ) (data_t : List ℕ) (alph_size : ℕ)
      → 4_096 ≤ length data_t
      → AllBelow alph_size data_t
      → (counted windows : List Window) × (s : Score) × (initial_counts alph_size
            (take 4_095 data_t)
            0
            (empty_windows frequent)
          ≡ some counted)
        × (predictions alph_size (drop 63 data_t) (passed 63 data_t []) counted no_score
            ≡ some (windows, s))
        × (length windows ≡ 4)
        × AllWindows (IsMode alph_size (passed (length data_t) data_t [])) windows
        × (multi_mcw_test d search minus_one frequent data_t alph_size
            ≡ prediction_estimate d search s.correct (length data_t - 63) s.max_run_len alph_size)
  unfolding multi_mcw_test
  multi_mcw_test-IsMode frequent data_t alph_size long h =
      let (counted, initial, four, ready) =
        initial_counts-Ready alph_size 4_095 data_t frequent refl (omega arith)
          (AllBelow-take alph_size 4_095 data_t h) in
      let (windows, s, predicted, as_many, all) =
        predictions-Ready alph_size (drop 63 data_t) (passed 63 data_t []) counted no_score
          (AllBelow-drop alph_size 63 data_t h) (omega arith) ready in
      let enough : ltb (length data_t) 4_096 ≡ false = ltb-false (length data_t) 4_096 long in
      let left : 63 + length (drop 63 data_t) ≡ length data_t =
        let dropped = length-drop 63 data_t in omega arith in
      let whole : passed (length (drop 63 data_t)) (drop 63 data_t) (passed 63 data_t [])
          ≡ passed (length data_t) data_t [] =
        passed-drop 63 (length (drop 63 data_t)) data_t [] (omega arith)
        ∙ ap (λ k. passed k data_t []) left in
      (
        counted,
        windows,
        s,
        initial,
        predicted,
        as_many ∙ four,
        AllWindows-weaken
            (Ready alph_size
              (passed (length (drop 63 data_t)) (drop 63 data_t) (passed 63 data_t [])) [])
            (IsMode alph_size (passed (length data_t) data_t [])) windows
            (λ w. Ready-IsMode alph_size _ _ w whole) all,
        rw (enough, initial, predicted) refl,
      )
