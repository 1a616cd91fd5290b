-- ===== src/Assess/Restart/Document.antt =====
-- cpp/restart_main.cpp: the document that `main` writes, and the validation at its end.
use is_there_entropy_down_th.Common.{
  ◌≡◌, ◌⊎◌, refl, true, false, Option, none, some, List, [], ◌∷◌, ◌++◌, if◌then◌else◌, inl, inr,
  Bool-cases,
}
use is_there_entropy_down_th.Assess.Estimates.{Double}
use is_there_entropy_down_th.Assess.Estimates.Constant.{two}
use is_there_entropy_down_th.Assess.Minimum.{IsOrder, AtMost, smaller, smaller_left, smaller_right}
use is_there_entropy_down_th.Assess.Restart.{
  Options, Message, Exit, TestCase, Report, Ending, Heights, no_result,
}
use is_there_entropy_down_th.Assess.Restart.TestName.{overall}
use is_there_entropy_down_th.Assess.Restart.Message.{validation_failed}
use is_there_entropy_down_th.Assess.Restart.Exit.{failure, success}
use is_there_entropy_down_th.Assess.Restart.Program.{fail, validate}

module _ (d : Double) (o : Options) where
  open d use {Value, literal, of_long, divide, less}

  abbrev pub half : Value → Value
  half h_i = divide h_i (literal two)

  -- A document of the mode with the message and the cases, where one was asked for, or nothing.
  abbrev pub Writes : Ending d → Option Message → List (TestCase d) → Type 0
  Writes e error cases =
      ((o.json_output ≡ false) × (e.output ≡ none))
      ⊎ ((r : Report d) × (o.json_output ≡ true)
          × (e.output ≡ some r)
          × (r.is_iid ≡ o.iid)
          × (r.error ≡ error)
          × (r.test_cases ≡ cases))

  abbrev pub FailsWith : Ending d → Message → List (TestCase d) → Type 0
  FailsWith e m cases = (e.exit ≡ failure) × Writes e (some m) cases

  -- The case of the whole run.
  abbrev pub IsOverall : (h_i : Value) → Heights d → TestCase d → Type 0
  IsOverall h_i h c =
      (c.test_case_number ≡ overall)
      × (c.h_r ≡ some h.height_r)
      × (c.h_c ≡ some h.height_c)
      × (c.h_i ≡ some h_i)

  -- One height is below half the estimate and the validation fails, or none is and it succeeds.
  abbrev pub IsValidated : (h_i : Value) → Heights d → Ending d → Type 0
  IsValidated h_i h e =
      (((less h.height_r (half h_i) ≡ true) ⊎ (less h.height_c (half h_i) ≡ true))
        × FailsWith e validation_failed h.cases)
      ⊎ (AtMost d (half h_i) h.height_r
          × AtMost d (half h_i) h.height_c
          × (e.exit ≡ success)
          × (last : TestCase d) × IsOverall h_i h last
          × Writes e none (h.cases ++ last ∷ []))

  writes :
      (exit : Exit) (error : Option Message) (raw cases : List (TestCase d))
      → raw ≡ cases
      → Writes
          (record {
            exit = exit;
            output =
                if o.json_output
                then some (record { is_iid = o.iid; error = error; test_cases = raw })
                else none;
          })
          error
          cases
  writes exit error raw cases same = elim (Bool-cases o.json_output) [
    | inl b ↦
        inr (
          record { is_iid = o.iid; error = error; test_cases = raw },
          b,
          rw b refl,
          refl,
          refl,
          same,
        )
    | inr b ↦ inl (b, rw b refl)
  ]

  pub fail-FailsWith :
      (m : Message) (raw cases : List (TestCase d))
      → raw ≡ cases
      → FailsWith (fail d o failure m raw) m cases
  unfolding fail
  fail-FailsWith m raw cases same = (refl, writes failure (some m) raw cases same)

  below_half :
      (h_i : Value) (h : Heights d)
      → less (smaller d h.height_r h.height_c) (half h_i) ≡ true
      → (less h.height_r (half h_i) ≡ true) ⊎ (less h.height_c (half h_i) ≡ true)
  below_half h_i h e = elim (Bool-cases (less h.height_c h.height_r)) [
    | inl b ↦ inr (cc)
    | inr b ↦ inl (cc)
  ]

  pub validate-IsValidated :
      IsOrder d
      → (h_i : Value) (iid_cases : List (TestCase d)) (last : TestCase d) (h : Heights d)
      → (o.iid ≡ true → (iid_cases ≡ h.cases) × IsOverall h_i h last)
      → IsValidated h_i h (validate d o h_i iid_cases last h)
  unfolding validate
  validate-IsValidated order h_i iid_cases last h iid =
      let all = smaller d h.height_r h.height_c in
      let whole_run : TestCase d = record (no_result d overall) {
        h_r = some h.height_r;
        h_c = some h.height_c;
        h_i = some h_i;
      } in
      let tests : (if o.iid then iid_cases else h.cases) ≡ h.cases = elim (Bool-cases o.iid) [
        | inl b ↦ let (same, _) = iid b in rw (b, same) refl
        | inr b ↦ rw b refl
      ] in
      let written : (c : TestCase d) × IsOverall h_i h c
          × ((if o.iid then iid_cases ++ last ∷ [] else h.cases ++ whole_run ∷ [])
              ≡ h.cases ++ c ∷ []) =
        elim (Bool-cases o.iid) [
          | inl b ↦ let (same, shown) = iid b in (last, shown, rw (b, same) refl)
          | inr b ↦ (whole_run, (refl, refl, refl, refl), rw b refl)
        ] in
      let (c, shown, same) = written in
      elim (Bool-cases (less all (half h_i))) [
        | inl b ↦ rw b (inl (below_half h_i h b, fail-FailsWith validation_failed _ h.cases tests))
        | inr b ↦ rw b (
            inr (
              order.transitive (half h_i) all h.height_r b
                  (smaller_left d order h.height_r h.height_c),
              order.transitive (half h_i) all h.height_c b
                  (smaller_right d order h.height_r h.height_c),
              refl,
              c,
              shown,
              writes success none _ (h.cases ++ c ∷ []) same,
            ))
      ]
