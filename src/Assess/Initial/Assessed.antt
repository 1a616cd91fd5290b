-- ===== src/Assess/Initial/Assessed.antt =====
-- What the assessed entropy of the two programs is bounded by.
use is_there_entropy_down_th.Common.{
  ◌≡◌, ◌⊎◌, refl, Bool, true, false, Option, none, some, List, [], ◌∷◌, ◌++◌, if◌then◌else◌, ◌>>=◌,
  inl, inr,
}
use is_there_entropy_down_th.Assess.Estimates.{Double}
use is_there_entropy_down_th.Assess.Minimum.{
  IsOrder, AtMost, smaller, smaller_left, smaller_right, IsLowest, with_result, without_result,
}
use is_there_entropy_down_th.Assess.Samples.{DataT}
use is_there_entropy_down_th.Assess.Restart.{TestName, Suite}
use is_there_entropy_down_th.Assess.Restart.TestName.{most_common_value}
use is_there_entropy_down_th.Assess.Initial.{Settings}
use is_there_entropy_down_th.Assess.Initial.NonIid.{
  NonIidCase, Assessment, lowered, take_case, on_bits, assess_mode, assess_bits, assess_tuples,
  assess_predictors, assessed, mode_if,
}

-- Both estimates are the lowest of the results of their side.
pub record AreLow (d : Double) (width : d.Value) (a : Assessment d) : Type 0 where
  pub bits : IsLowest d (λ c. c.bits) (d.of_long 1) a.h_bitstring a.cases
  pub original : IsLowest d (λ c. c.original) width a.h_original a.cases

module _ (d : Double) (o : IsOrder d) (width : d.Value) where
  on_one_side :
      (side : NonIidCase d → Option d.Value) (limit height : d.Value) (result : Option d.Value)
      (cases : List (NonIidCase d)) (c : NonIidCase d)
      → IsLowest d side limit height cases
      → side c ≡ result
      → IsLowest d side limit (lowered d result height) (cases ++ c ∷ [])
  unfolding lowered
  on_one_side side limit height none cases c h e = without_result d side limit height cases c h e
  on_one_side side limit height (some v) cases c h e =
      with_result d side o limit height v cases c h e

  take_case-AreLow :
      (name : TestName) (bits original : Option d.Value) (a : Assessment d)
      → AreLow d width a
      → AreLow d width (take_case d name bits original a)
  unfolding take_case
  take_case-AreLow name bits original a h = record {
    bits = on_one_side (λ c. c.bits) (d.of_long 1) a.h_bitstring bits a.cases _ h.bits refl;
    original = on_one_side (λ c. c.original) width a.h_original original a.cases _ h.original refl;
  }

  module _ (suite : Suite d) (s : Settings) (data_t : DataT) where
    pub tests-AreLow :
        (a : Assessment d)
        → AreLow d width a
        → AreLow d width (
            assess_predictors d suite s data_t
              (assess_tuples d suite s data_t (assess_bits d suite s data_t a)))
    unfolding assess_bits assess_tuples assess_predictors
    tests-AreLow a h =
        let h4 = take_case-AreLow _ _ _ _ (take_case-AreLow _ _ _ _ (take_case-AreLow _ _ _ _ h)) in
        let h6 = take_case-AreLow _ _ _ _ (take_case-AreLow _ _ _ _ h4) in
        take_case-AreLow _ _ _ _
          (take_case-AreLow _ _ _ _ (take_case-AreLow _ _ _ _ (take_case-AreLow _ _ _ _ h6)))

abbrev pub AreLow? : (d : Double) → d.Value → Option (Assessment d) → Type 0
AreLow? d width none = Unit
AreLow? d width (some a) = AreLow d width a

-- With no cases both are the highest possible.
highest-AreLow :
    (d : Double) (o : IsOrder d) (width : d.Value)
    → AreLow d width (record { h_bitstring = d.of_long 1; h_original = width; cases = [] })
highest-AreLow d o width = record {
  bits = record {
    lower = λ v l. absurd l;
    bounded = o.irreflexive (d.of_long 1);
    attained = inl refl;
  };
  original = record { lower = λ v l. absurd l; bounded = o.irreflexive width; attained = inl refl };
}

first_case-AreLow :
    (d : Double) (o : IsOrder d) (width : d.Value) (m m' : Option (Option d.Value))
    → AreLow? d width (do
      bits ← m
      original ← m'
      some (
          take_case d most_common_value bits original
            (record { h_bitstring = d.of_long 1; h_original = width; cases = [] })))
first_case-AreLow d o width none m' = tt
first_case-AreLow d o width (some bits) none = tt
first_case-AreLow d o width (some bits) (some original) =
    take_case-AreLow d o width _ bits original _ (highest-AreLow d o width)

pub assess_mode-AreLow :
    (d : Double) (o : IsOrder d) (suite : Suite d) (s : Settings) (data_t : DataT)
    → AreLow? d (d.of_long data_t.word_size) (assess_mode d suite s data_t)
unfolding assess_mode
assess_mode-AreLow d o suite s data_t =
    first_case-AreLow d o (d.of_long data_t.word_size)
      (mode_if d (on_bits d s data_t) data_t.bsymbols 2)
      (mode_if d s.initial_entropy data_t.symbols data_t.alph_size)

pub assessed-AtMost :
    (d : Double) (o : IsOrder d) (suite : Suite d) (s : Settings) (data_t : DataT)
    (a : Assessment d)
    → AtMost d (assessed d suite s data_t a) (d.of_long data_t.word_size)
      × ((s.initial_entropy ≡ false) ⊎ AtMost d (assessed d suite s data_t a) a.h_original)
      × ((on_bits d s data_t ≡ false)
          ⊎ AtMost d
              (assessed d suite s data_t a)
              (d.mul a.h_bitstring (d.of_long data_t.word_size)))
unfolding assessed
assessed-AtMost d o suite s data_t a =
    lowest (on_bits d s data_t) s.initial_entropy (d.of_long data_t.word_size) a.h_original
      (d.mul a.h_bitstring (d.of_long data_t.word_size))
  where
    lowest :
        (bits literal : Bool) (width h b : d.Value)
        → AtMost d
            (if literal
              then smaller d (if bits then smaller d width b else width) h
              else (if bits then smaller d width b else width))
            width
          × ((literal ≡ false)
              ⊎ AtMost d
                  (if literal
                    then smaller d (if bits then smaller d width b else width) h
                    else (if bits then smaller d width b else width))
                  h)
          × ((bits ≡ false)
              ⊎ AtMost d
                  (if literal
                    then smaller d (if bits then smaller d width b else width) h
                    else (if bits then smaller d width b else width))
                  b)
    lowest false false width h b = (o.irreflexive width, inl refl, inl refl)
    lowest false true width h b =
        (smaller_left d o width h, inr (smaller_right d o width h), inl refl)
    lowest true false width h b =
        (smaller_left d o width b, inl refl, inr (smaller_right d o width b))
    lowest true true width h b =
        let m = smaller d width b in
        let down = smaller_left d o m h in
        (
          o.transitive _ m width down (smaller_left d o width b),
          inr (smaller_right d o m h),
          inr (o.transitive _ m b down (smaller_right d o width b)),
        )
