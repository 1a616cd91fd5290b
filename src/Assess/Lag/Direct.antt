-- ===== src/Assess/Lag/Direct.antt =====
-- The lag prediction without rings, as section 6.3.8 of SP 800-90B has it: each of the last 128
-- symbols is compared with the new one, the nearest one first.
use is_there_entropy_down_th.Common.{
  ℕ, zero, suc, ◌≡◌, ◌+◌, ◌-◌, ◌<◌, ◌≤◌, refl, Bool, true, false, Option, some, List, [], ◌∷◌,
  if◌then◌else◌, leb, ◌==◌, length, get_elem?, AllBelow, Bool-cases, inl, inr, arith, ◌>>=◌,
}
use is_there_entropy_down_th.Assess.Lag.{Lag, check_prediction, score}

-- The symbols from the offset on, of which `left` are compared.
abbrev pub direct_scores : (symbol offset : ℕ) → (past : List ℕ) → (left : ℕ) → Lag → Lag
direct_scores symbol offset [] left lag = lag
direct_scores symbol offset (x ∷ past) zero lag = lag
direct_scores symbol offset (x ∷ past) (suc left) lag =
    direct_scores symbol (suc offset) past left (if x == symbol then score offset lag else lag)

-- The winner predicts the symbol, and the scores then change.
abbrev pub direct_step : (symbol guess : ℕ) → (past : List ℕ) → Lag → Lag
direct_step symbol guess past lag =
    direct_scores symbol 0 past 128 (check_prediction (symbol == guess) lag)

abbrev pub direct_run : (symbols past : List ℕ) → Lag → Option Lag
direct_run [] past lag = some lag
direct_run (x ∷ symbols) past lag = do
  guess ← get_elem? past lag.winner
  direct_run symbols (x ∷ past) (direct_step x guess past lag)

-- The positions of a symbol, the last one first.
abbrev pub positions : (symbol : ℕ) → (past : List ℕ) → List ℕ
positions symbol [] = []
positions symbol (x ∷ past) =
    let rest = positions symbol past in if x == symbol then length past ∷ rest else rest

-- The scores of the positions down to the first that is too far away.
abbrev pub position_scores : (i : ℕ) → List ℕ → Lag → Lag
position_scores i [] lag = lag
position_scores i (p ∷ ps) lag =
    let rest = position_scores i ps (score (i - p - 1) lag) in if leb (i - 128) p then rest else lag

abbrev pub Descends : List ℕ → Type 0
Descends [] = Unit
Descends (p ∷ ps) = AllBelow p ps × Descends ps

pub AllBelow-le : (a b : ℕ) (ps : List ℕ) → a ≤ b → AllBelow a ps → AllBelow b ps
AllBelow-le a b [] le h = tt
AllBelow-le a b (p ∷ ps) le (h, hs) = (omega arith, AllBelow-le a b ps le hs)

pub positions-AllBelow : (s : ℕ) (past : List ℕ) → AllBelow (length past) (positions s past)
positions-AllBelow s [] = tt
positions-AllBelow s (x ∷ past) =
    let rest =
      AllBelow-le (length past) (suc (length past)) (positions s past) (omega arith)
        (positions-AllBelow s past) in
    elim (Bool-cases (x == s)) [ inl e ↦ rw e (omega arith, rest) | inr e ↦ rw e rest ]

pub positions-Descends : (s : ℕ) (past : List ℕ) → Descends (positions s past)
positions-Descends s [] = tt
positions-Descends s (x ∷ past) = elim (Bool-cases (x == s)) [
  | inl e ↦ rw e (positions-AllBelow s past, positions-Descends s past)
  | inr e ↦ rw e (positions-Descends s past)
]

-- Positions that are too far away have no score.
pub position_scores-old :
    (i : ℕ) (ps : List ℕ) (lag : Lag) → AllBelow (i - 128) ps → position_scores i ps lag ≡ lag
position_scores-old i [] lag h = refl
position_scores-old i (p ∷ ps) lag (h, hs) =
    let e : leb (i - 128) p ≡ false = ground arith in rw e refl

-- The positions of a symbol score like the comparison with each symbol.
pub position_scores-direct_scores :
    (s i o left : ℕ) (past : List ℕ) (lag : Lag)
    → i ≡ o + length past
    → o + left ≡ 128
    → position_scores i (positions s past) lag ≡ direct_scores s o past left lag
position_scores-direct_scores s i o left [] lag e e' = refl
position_scores-direct_scores s i o zero (x ∷ past) lag e e' =
    position_scores-old i (positions s (x ∷ past)) lag (
      AllBelow-le (length (x ∷ past)) (i - 128) (positions s (x ∷ past)) (omega arith)
        (positions-AllBelow s (x ∷ past)))
position_scores-direct_scores s i o (suc left) (x ∷ past) lag e e' =
    let rest = position_scores-direct_scores s i (suc o) left past in
    let near_i : i ≡ suc o + length past = omega arith in
    let near_left : suc o + left ≡ 128 = omega arith in
    elim (Bool-cases (x == s)) [
      | inl b ↦
          let near : leb (i - 128) (length past) ≡ true = ground arith in
          let offset : i - length past - 1 ≡ o = omega arith in
          rw (b, near, offset) (rest (score o lag) near_i near_left)
      | inr b ↦ rw b (rest lag near_i near_left)
    ]

pub score_winner :
    (bound o : ℕ) (lag : Lag) → lag.winner < bound → o < bound → (score o lag).winner < bound
unfolding score
score_winner bound o lag h h' = elim (Bool-cases (leb lag.high_score (suc (lag.scoreboard o)))) [
  | inl e ↦ rw e h'
  | inr e ↦ rw e h
]

-- The winner is an offset of a symbol there is.
pub direct_scores_winner :
    (bound s o left : ℕ) (past : List ℕ) (lag : Lag)
    → lag.winner < bound
    → o + length past ≤ bound
    → (direct_scores s o past left lag).winner < bound
direct_scores_winner bound s o left [] lag h le = h
direct_scores_winner bound s o zero (x ∷ past) lag h le = h
direct_scores_winner bound s o (suc left) (x ∷ past) lag h le =
    let next : (if x == s then score o lag else lag).winner < bound = elim (Bool-cases (x == s)) [
      | inl e ↦ rw e (score_winner bound o lag h (omega arith))
      | inr e ↦ rw e h
    ] in
    direct_scores_winner bound s (suc o) left past (if x == s then score o lag else lag) next
      (omega arith)

pub check_winner : (b : Bool) (lag : Lag) → (check_prediction b lag).winner ≡ lag.winner
unfolding check_prediction
check_winner true lag = refl
check_winner false lag = refl
