-- ===== src/Assess/Restart/Tested.antt =====
-- cpp/restart_main.cpp: the tests behind the sanity check have results, which are judged.
use is_there_entropy_down_th.Common.{
  ℕ, ◌<◌, ◌≡◌, refl, Bool, true, false, some, List, [], ◌∷◌, if◌then◌else◌, ◌==◌, inl, inr,
  Bool-cases, length, map, AllBelow,
}
use is_there_entropy_down_th.Assess.Estimates.{Double}
use is_there_entropy_down_th.Assess.Minimum.{IsOrder}
use is_there_entropy_down_th.Assess.Samples.{DataT}
use is_there_entropy_down_th.Assess.Stats.Median.{calc_stats_total}
use is_there_entropy_down_th.Assess.Initial.Whole.{most_common_total}
use is_there_entropy_down_th.Assess.Restart.{
  Options, TestName, TestCase, Ending, Suite, Heights, no_result, take_both, take_valid,
}
use is_there_entropy_down_th.Assess.Restart.TestName.{
  most_common_value, collision, markov, compression, t_tuple, lrs, multi_mcw, lag, multi_mmc, lz78y,
  overall,
}
use is_there_entropy_down_th.Assess.Restart.Stages.{
  estimate_mode, estimate_bits, estimate_tuples, estimate_predictors, estimate_non_iid, test_iid,
}
use is_there_entropy_down_th.Assess.Restart.Lowest.{
  AreLowest, estimate_mode-AreLowest, estimate_non_iid-AreLowest,
}
use is_there_entropy_down_th.Assess.Restart.Program.{validate, assess}
use is_there_entropy_down_th.Assess.Restart.Document.{IsOverall, IsValidated, validate-IsValidated}

-- The tests of a run, in the order of their cases.
abbrev pub tests_of : (iid : Bool) → (alph_size : ℕ) → List TestName
tests_of true alph_size = most_common_value ∷ []
tests_of false alph_size =
    if alph_size == 2
    then most_common_value ∷ collision ∷ markov ∷ compression ∷ t_tuple ∷ lrs ∷ multi_mcw ∷ lag
      ∷ multi_mmc ∷ lz78y ∷ []
    else most_common_value ∷ t_tuple ∷ lrs ∷ multi_mcw ∷ lag ∷ multi_mmc ∷ lz78y ∷ []

abbrev pub names : (d : Double) → List (TestCase d) → List TestName
names d cases = map (λ c. c.test_case_number) cases

module _ (d : Double) (suite : Suite d) (data_t : DataT) (cdata : List ℕ) where
  open d use {Value, of_long}

  abbrev mode_heights : (rows columns : Value) → Heights d
  mode_heights rows columns = take_both d most_common_value data_t.word_size rows columns (record {
    height_r = of_long data_t.word_size;
    height_c = of_long data_t.word_size;
    cases = [];
  })

  names-estimate_non_iid :
      (rows columns : Value)
      → names d (estimate_non_iid d suite data_t cdata (mode_heights rows columns)).cases
        ≡ tests_of false data_t.alph_size
  unfolding take_both take_valid estimate_bits estimate_tuples estimate_predictors estimate_non_iid
  names-estimate_non_iid rows columns = elim (Bool-cases (data_t.alph_size == 2)) [
    | inl b ↦ rw b refl
    | inr b ↦ rw b refl
  ]

  estimate_mode_total :
      1 < data_t.alph_size
      → AllBelow data_t.alph_size data_t.symbols
      → AllBelow data_t.alph_size cdata
      → 1 < length data_t.symbols
      → 1 < length cdata
      → (rows : Value) × (columns : Value) × (estimate_mode d suite data_t cdata
          ≡ some (mode_heights rows columns))
  unfolding estimate_mode
  estimate_mode_total several below below' size size' =
      let (rows, e) = most_common_total d data_t.symbols data_t.alph_size below size in
      let (columns, e') = most_common_total d cdata data_t.alph_size below' size' in
      (rows, columns, rw (e, e') refl)

  test_iid-IsOverall :
      (o : Options) (rawmean median h_i : Value) (h : Heights d)
      → IsOverall d o h_i h (test_iid d suite data_t cdata rawmean median h_i h)
  unfolding test_iid
  test_iid-IsOverall o rawmean median h_i h = (refl, refl, refl, refl)

  -- Behind the sanity check the tests of the mode give heights, and these are judged.
  pub assess_total :
      (o : Options) (h_i : Value)
      → IsOrder d
      → 1 < data_t.alph_size
      → AllBelow data_t.alph_size data_t.symbols
      → AllBelow data_t.alph_size cdata
      → 1 < length data_t.symbols
      → 1 < length cdata
      → (e : Ending d) × (h : Heights d) × (assess d suite o h_i data_t cdata ≡ some e)
        × AreLowest d (of_long data_t.word_size) h
        × (names d h.cases ≡ tests_of o.iid data_t.alph_size)
        × IsValidated d o h_i h e
  unfolding assess take_both
  assess_total o h_i order several below below' size size' =
      let (stats, e) = calc_stats_total d data_t size in
      let (rows, columns, e') = estimate_mode_total several below below' size size' in
      let h = mode_heights rows columns in
      let low = estimate_mode-AreLowest d order suite data_t cdata h e' in
      elim (Bool-cases o.iid) [
        | inl b ↦
            let last = test_iid d suite data_t cdata stats.0 stats.1 h_i h in
            (
              validate d o h_i h.cases last h,
              h,
              rw (e, e', b) refl,
              low,
              rw b refl,
              validate-IsValidated d o order h_i h.cases last h
                  (λ yes_iid. (refl, test_iid-IsOverall o stats.0 stats.1 h_i h)),
            )
        | inr b ↦
            let h' = estimate_non_iid d suite data_t cdata h in
            (
              validate d o h_i h.cases (no_result d overall) h',
              h',
              rw (e, e', b) refl,
              estimate_non_iid-AreLowest d order suite data_t cdata h e',
              rw b (names-estimate_non_iid rows columns),
              validate-IsValidated d o order h_i h.cases (no_result d overall) h' (λ yes_iid. cc),
            )
      ]
