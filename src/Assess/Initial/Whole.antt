-- ===== src/Assess/Initial/Whole.antt =====
-- The whole assessment of cpp/non_iid_main.cpp.
use mathlib.Core.Path.{subst}
use is_there_entropy_down_th.Common.{
  ℕ, ◌<◌, ◌≡◌, ◌⊎◌, refl, ap, Bool, true, false, Option, none, some, List, [], ◌∷◌, ◌++◌, ◌>>=◌,
  inl, inr, lt→ltb, length, AllBelow,
}
use is_there_entropy_down_th.Assess.Estimates.{Double, most_common, mode_entropy}
use is_there_entropy_down_th.Assess.Estimates.Mode.{mode_of-occurrences}
use is_there_entropy_down_th.Assess.Minimum.{IsOrder, AtMost, Lists}
use is_there_entropy_down_th.Assess.Samples.{DataT}
use is_there_entropy_down_th.Assess.Restart.{Suite}
use is_there_entropy_down_th.Assess.Restart.TestName.{most_common_value, overall}
use is_there_entropy_down_th.Assess.Initial.{Settings}
use is_there_entropy_down_th.Assess.Initial.NonIid.{
  NonIidCase, Assessment, take_case, run_if, on_bits, mode_if, assess_mode, assess_bits,
  assess_tuples, assess_predictors, assessed, assess_all,
}
use is_there_entropy_down_th.Assess.Initial.Assessed.{
  AreLow, AreLow?, assess_mode-AreLow, tests-AreLow, assessed-AtMost,
}

pub most_common_total :
    (d : Double) (samples : List ℕ) (alph_size : ℕ)
    → AllBelow alph_size samples
    → 1 < length samples
    → (v : d.Value) × (most_common d samples alph_size ≡ some v)
unfolding most_common
most_common_total d samples alph_size below size =
    let (mode, e, _, _) = mode_of-occurrences samples alph_size below in
    (
      mode_entropy d mode (length samples),
      rw (lt→ltb 1 (length samples) size)
          (ap (λ m. m >>= λ k. some (mode_entropy d k (length samples))) e),
    )

mode_if_total :
    (d : Double) (test : Bool) (samples : List ℕ) (alph_size : ℕ)
    → AllBelow alph_size samples
    → 1 < length samples
    → (v : Option d.Value) × (mode_if d test samples alph_size ≡ some v)
mode_if_total d true samples alph_size below size =
    let (v, e) = most_common_total d samples alph_size below size in (some v, rw e refl)
mode_if_total d false samples alph_size below size = (none, refl)

-- Data in the alphabet, of at least two symbols and two bits.
pub record IsSampled (data_t : DataT) : Type 0 where
  pub symbols_below : AllBelow data_t.alph_size data_t.symbols
  pub bits_below : AllBelow 2 data_t.bsymbols
  pub some_symbols : 1 < length data_t.symbols
  pub some_bits : 1 < length data_t.bsymbols

-- The last case has the assessed entropy h: at most the width, and with -i at most each result on the
-- symbols.
pub record IsAssessed (d : Double) (s : Settings) (data_t : DataT) (cases : List (NonIidCase d))
    : Type 0 where
  pub tests : List (NonIidCase d)
  pub overall_case : NonIidCase d
  pub h : d.Value
  pub split : cases ≡ tests ++ overall_case ∷ []
  pub height : overall_case.h_assessed ≡ some h
  pub width : AtMost d h (d.of_long data_t.word_size)
  pub literal :
      (s.initial_entropy ≡ false)
      ⊎ ((v : d.Value) → Lists d (λ c. c.original) v tests → AtMost d h v)

first_case_total :
    (d : Double) (width : d.Value) (m m' : Option (Option d.Value)) (bits original : Option d.Value)
    → m ≡ some bits
    → m' ≡ some original
    → (a : Assessment d) × ((do
      bits' ← m
      original' ← m'
      some (
          take_case d most_common_value bits' original'
            (record { h_bitstring = d.of_long 1; h_original = width; cases = [] })))
        ≡ some a)
first_case_total d width none m' bits original e e' = cc
first_case_total d width (some b) none bits original e e' = cc
first_case_total d width (some b) (some o) bits original e e' = (_, refl)

assess_mode_total :
    (d : Double) (suite : Suite d) (s : Settings) (data_t : DataT)
    → IsSampled data_t
    → (a : Assessment d) × (assess_mode d suite s data_t ≡ some a)
unfolding assess_mode
assess_mode_total d suite s data_t h =
    let (bits, e) =
      mode_if_total d (on_bits d s data_t) data_t.bsymbols 2 h.bits_below h.some_bits in
    let (original, e') =
      mode_if_total d s.initial_entropy data_t.symbols data_t.alph_size h.symbols_below
        h.some_symbols in
    first_case_total d (d.of_long data_t.word_size)
      (mode_if d (on_bits d s data_t) data_t.bsymbols 2)
      (mode_if d s.initial_entropy data_t.symbols data_t.alph_size) bits original e e'

-- Where doubles are numbers, sampled data is assessed, and the assessed entropy is at most the width
-- of the symbols and, with -i, at most each result of a test on the symbols that counts.
pub assess_all-IsAssessed :
    (d : Double)
    → IsOrder d
    → (suite : Suite d) (s : Settings) (data_t : DataT) → IsSampled data_t
    → (cases : List (NonIidCase d)) × (assess_all d suite s data_t ≡ some cases)
      × IsAssessed d s data_t cases
unfolding assess_all
assess_all-IsAssessed d o suite s data_t h =
    let width = d.of_long data_t.word_size in
    let (a, started) = assess_mode_total d suite s data_t h in
    let low : AreLow d width a =
      subst (AreLow? d width) started (assess_mode-AreLow d o suite s data_t) in
    let last =
      assess_predictors d suite s data_t
        (assess_tuples d suite s data_t (assess_bits d suite s data_t a)) in
    let low' = tests-AreLow d o width suite s data_t a low in
    let (below, literal, _) = assessed-AtMost d o suite s data_t last in
    let overall_case : NonIidCase d = record {
      test_case_number = overall;
      data_word_size = some data_t.word_size;
      bits = run_if d (on_bits d s data_t) last.h_bitstring;
      original = run_if d s.initial_entropy last.h_original;
      h_assessed = some (assessed d suite s data_t last);
    } in
    (
      last.cases ++ overall_case ∷ [],
      rw started refl,
      record {
        tests = last.cases;
        overall_case = overall_case;
        h = assessed d suite s data_t last;
        split = refl;
        height = refl;
        width = below;
        literal = elim literal [
          | inl off ↦ inl off
          | inr under ↦ inr λ v l.
              o.transitive (assessed d suite s data_t last) last.h_original v under
                (low'.original.lower v l)
        ];
      },
    )
