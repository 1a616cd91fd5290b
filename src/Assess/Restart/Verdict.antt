-- ===== src/Assess/Restart/Verdict.antt =====
-- What the IID tests mean for the restart test.
use is_there_entropy_down_th.Common.{
  ℕ, ◌≡◌, ◌∙◌, refl, sym, ap, true, Option, none, some, List, if◌then◌else◌, inl, inr, Bool-cases,
  Option-cases,
}
use is_there_entropy_down_th.Assess.Estimates.{Double}
use is_there_entropy_down_th.Assess.Estimates.Constant.{two}
use is_there_entropy_down_th.Assess.Minimum.{smaller}
use is_there_entropy_down_th.Assess.Samples.{DataT}
use is_there_entropy_down_th.Assess.Stats.{calc_stats}
use is_there_entropy_down_th.Assess.Restart.{Options, Exit, TestCase, Ending, Suite, Heights}
use is_there_entropy_down_th.Assess.Restart.Stages.{estimate_mode, test_iid}
use is_there_entropy_down_th.Assess.Restart.Program.{fail, validate, assess}

abbrev pub exit_of : (d : Double) → Option (Ending d) → Option Exit
exit_of d none = none
exit_of d (some e) = some e.exit

module _ (d : Double) where
  validate_exit :
      (o : Options) (h_i : d.Value) (cases cases' : List (TestCase d)) (c c' : TestCase d)
      (h : Heights d)
      → exit_of d (some (validate d o h_i cases c h))
        ≡ exit_of d (some (validate d o h_i cases' c' h))
  unfolding validate fail
  validate_exit o h_i cases cases' c c' h =
      elim (Bool-cases (d.less (smaller d h.height_r h.height_c) (d.divide h_i (d.literal two)))) [
        | inl b ↦ rw b refl
        | inr b ↦ rw b refl
      ]

  iid_exit :
      (o : Options) (h_i : d.Value) (cases : List (TestCase d)) (c c' : TestCase d)
      (h x x' : Heights d)
      → o.iid ≡ true
      → exit_of d (some (validate d o h_i cases c (if o.iid then h else x)))
        ≡ exit_of d (some (validate d o h_i cases c' (if o.iid then h else x')))
  iid_exit o h_i cases c c' h x x' e =
      ap (λ b. exit_of d (some (validate d o h_i cases c (if b then h else x)))) e
      ∙ validate_exit o h_i cases cases c c' h
      ∙ sym (ap (λ b. exit_of d (some (validate d o h_i cases c' (if b then h else x')))) e)

  same_mode :
      (suite suite' : Suite d) (data_t : DataT) (cdata : List ℕ)
      → estimate_mode d suite data_t cdata ≡ estimate_mode d suite' data_t cdata
  unfolding estimate_mode
  same_mode suite suite' data_t cdata = refl

  -- With `-i` the exit status rests on the most common value alone: whatever the chi-square, repeated
  -- substring and permutation tests give, the program ends the same way.
  pub assess_exit :
      (suite suite' : Suite d) (o : Options) (h_i : d.Value) (data_t : DataT) (cdata : List ℕ)
      → o.iid ≡ true
      → exit_of d (assess d suite o h_i data_t cdata)
        ≡ exit_of d (assess d suite' o h_i data_t cdata)
  unfolding assess
  assess_exit suite suite' o h_i data_t cdata e = elim (Option-cases (calc_stats d data_t)) [
    | inl k ↦ rw k refl
    | inr (stats, k) ↦ elim (Option-cases (estimate_mode d suite data_t cdata)) [
      | inl k' ↦ rw k (rw k' (rw (sym (same_mode suite suite' data_t cdata) ∙ k') refl))
      | inr (h, k') ↦ rw k (
          rw k' (
            rw (sym (same_mode suite suite' data_t cdata) ∙ k')
              (iid_exit o h_i h.cases _ _ h _ _ e)))
    ]
  ]

  -- The result of the permutation tests of an IID run does not depend on the columns: they are never
  -- tested.
  test_iid-permutation_tests :
      (suite : Suite d) (data_t : DataT) (cdata cdata' : List ℕ) (rawmean median h_i : d.Value)
      (h : Heights d)
      → (test_iid d suite data_t cdata rawmean median h_i h).passed_iid_permutation_tests
        ≡ (test_iid d suite data_t cdata' rawmean median h_i h).passed_iid_permutation_tests
  unfolding test_iid
  test_iid-permutation_tests suite data_t cdata cdata' rawmean median h_i h = refl
