-- ===== src/Assess/Postfix.antt =====
-- cpp/shared/utils.h: `class PostfixDictionary`, the counts behind the predictors.
use is_there_entropy_down_th.Common.{
  ℕ, zero, suc, Bool, true, false, ◌&&◌, ◌||◌, Option, none, some, List, [], ◌∷◌, if◌then◌else◌,
  ltb, ◌==◌,
}
pub mod Best
pub mod Tests

-- `map<uint8_t, long>`
abbrev pub find : ℕ → List (ℕ × ℕ) → Option ℕ
find key [] = none
find key ((k, n) ∷ entries) = let rest = find key entries in if k == key then some n else rest

abbrev pub put : ℕ → ℕ → List (ℕ × ℕ) → List (ℕ × ℕ)
put key n [] = (key, n) ∷ []
put key n ((k, m) ∷ entries) =
    let rest = put key n entries in if k == key then (k, n) ∷ entries else (k, m) ∷ rest

pub record PostfixDictionary : Type 0 where
  pub postfixes : List (ℕ × ℕ)
  pub cur_best : ℕ
  pub cur_prediction : ℕ

pub empty_dictionary : PostfixDictionary
empty_dictionary = record { postfixes = []; cur_best = 0; cur_prediction = 0 }

-- The assertion `curBest > 0`, the count and the prediction.
pub predict : PostfixDictionary → Option (ℕ × ℕ)
predict d = if ltb 0 d.cur_best then some (d.cur_best, d.cur_prediction) else none

-- `(curCount > curBest) || ((curCount == curBest) && (in > curPrediction))`
abbrev pub beats : (symbol cur_count : ℕ) → PostfixDictionary → Bool
beats symbol cur_count d =
    ltb d.cur_best cur_count || (cur_count == d.cur_best && ltb d.cur_prediction symbol)

-- The new count of a symbol is in the map, and may make it the prediction.
pub record_count : (symbol cur_count : ℕ) → PostfixDictionary → PostfixDictionary
record_count symbol cur_count d = record {
  postfixes = put symbol cur_count d.postfixes;
  cur_best = if beats symbol cur_count d then cur_count else d.cur_best;
  cur_prediction = if beats symbol cur_count d then symbol else d.cur_prediction;
}

-- Whether an entry was made, and the dictionary.
pub increment_postfix :
    (symbol : ℕ) → (make_new : Bool) → PostfixDictionary → Bool × PostfixDictionary
unfolding record_count
increment_postfix symbol make_new d = elim (find symbol d.postfixes) [
  | some n ↦ (false, record_count symbol (suc n) d)
  | none ↦ if make_new then (true, record_count symbol 1 d) else (false, d)
]
