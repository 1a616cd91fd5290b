-- ===== src/Assess/Restart/Lowest.antt =====
-- The heights of rows and columns are the lowest of the estimates that count.
use mathlib.Core.Path.{subst}
use is_there_entropy_down_th.Common.{
  ℕ, ◌≡◌, refl, Bool, true, false, Option, none, some, List, [], ◌∷◌, ◌++◌, if◌then◌else◌, ◌==◌,
  inl, >>=-eq-some,
}
use is_there_entropy_down_th.Assess.Estimates.{Double, most_common}
use is_there_entropy_down_th.Assess.Minimum.{smaller}
use is_there_entropy_down_th.Assess.Samples.{DataT}
use is_there_entropy_down_th.Assess.Restart.{
  TestName, TestCase, Suite, Heights, take_both, take_valid,
}
use is_there_entropy_down_th.Assess.Restart.Stages.{
  estimate_mode, estimate_bits, estimate_tuples, estimate_predictors, estimate_non_iid,
}
use is_there_entropy_down_th.Assess.Minimum.{IsOrder, IsLowest, with_result, without_result}

-- Rows and columns.
pub record AreLowest (d : Double) (limit : d.Value) (h : Heights d) : Type 0 where
  pub rows : IsLowest d (λ c. c.h_r) limit h.height_r h.cases
  pub columns : IsLowest d (λ c. c.h_c) limit h.height_c h.cases

module _ (d : Double) (o : IsOrder d) (limit : d.Value) where
  take_both-AreLowest :
      (name : TestName) (word_size : ℕ) (rows columns : d.Value) (h : Heights d)
      → AreLowest d limit h
      → AreLowest d limit (take_both d name word_size rows columns h)
  unfolding take_both
  take_both-AreLowest name word_size rows columns h k = record {
    rows = with_result d (λ c. c.h_r) o limit h.height_r rows h.cases _ k.rows refl;
    columns = with_result d (λ c. c.h_c) o limit h.height_c columns h.cases _ k.columns refl;
  }

  -- On one side of a case with the guard.
  if_valid :
      (side : TestCase d → Option d.Value) (b : Bool) (height result : d.Value)
      (cases : List (TestCase d)) (c : TestCase d)
      → IsLowest d side limit height cases
      → side c ≡ (if b then some result else none)
      → IsLowest d side limit (if b then smaller d result height else height) (cases ++ c ∷ [])
  if_valid side true height result cases c k e =
      with_result d side o limit height result cases c k e
  if_valid side false height result cases c k e = without_result d side limit height cases c k e

  take_valid-AreLowest :
      (name : TestName) (word_size : ℕ) (rows columns : d.Value) (h : Heights d)
      → AreLowest d limit h
      → AreLowest d limit (take_valid d name word_size rows columns h)
  unfolding take_valid
  take_valid-AreLowest name word_size rows columns h k = record {
    rows =
        if_valid (λ c. c.h_r) (d.at_least rows (d.of_long 0)) h.height_r rows h.cases _ k.rows refl;
    columns =
        if_valid (λ c. c.h_c) (d.at_least columns (d.of_long 0)) h.height_c columns h.cases _
          k.columns refl;
  }

  module _ (suite : Suite d) (rdata cdata : List ℕ) where
    estimate_bits-AreLowest :
        (h : Heights d)
        → AreLowest d limit h
        → AreLowest d limit (estimate_bits d suite rdata cdata h)
    unfolding estimate_bits
    estimate_bits-AreLowest h k =
        take_valid-AreLowest _ _ _ _ _
          (take_both-AreLowest _ _ _ _ _ (take_both-AreLowest _ _ _ _ _ k))

    estimate_tuples-AreLowest :
        (word_size alph_size : ℕ) (h : Heights d)
        → AreLowest d limit h
        → AreLowest d limit (estimate_tuples d suite word_size alph_size rdata cdata h)
    unfolding estimate_tuples
    estimate_tuples-AreLowest word_size alph_size h k =
        take_both-AreLowest _ _ _ _ _ (take_both-AreLowest _ _ _ _ _ k)

    estimate_predictors-AreLowest :
        (word_size alph_size : ℕ) (h : Heights d)
        → AreLowest d limit h
        → AreLowest d limit (estimate_predictors d suite word_size alph_size rdata cdata h)
    unfolding estimate_predictors
    estimate_predictors-AreLowest word_size alph_size h k = take_valid-AreLowest _ _ _ _ _ (
        take_valid-AreLowest _ _ _ _ _
          (take_valid-AreLowest _ _ _ _ _ (take_valid-AreLowest _ _ _ _ _ k)))

abbrev AreLowest? : (d : Double) → d.Value → Option (Heights d) → Type 0
AreLowest? d limit none = Unit
AreLowest? d limit (some h) = AreLowest d limit h

bits_or_not :
    (d : Double) (o : IsOrder d) (limit : d.Value) (suite : Suite d) (rdata cdata : List ℕ)
    (b : Bool) (h : Heights d)
    → AreLowest d limit h
    → AreLowest d limit (if b then estimate_bits d suite rdata cdata h else h)
bits_or_not d o limit suite rdata cdata true h k =
    estimate_bits-AreLowest d o limit suite rdata cdata h k
bits_or_not d o limit suite rdata cdata false h k = k

-- The estimates of both modes.
pub estimate_mode-AreLowest :
    (d : Double)
    → IsOrder d
    → (suite : Suite d) (data_t : DataT) (cdata : List ℕ) (h : Heights d)
    → estimate_mode d suite data_t cdata ≡ some h
    → AreLowest d (d.of_long data_t.word_size) h
unfolding estimate_mode
estimate_mode-AreLowest d o suite data_t cdata h e =
    let limit = d.of_long data_t.word_size in
    let (rows, found, e1) = >>=-eq-some (most_common d data_t.symbols data_t.alph_size) _ e in
    let (columns, found', e2) = >>=-eq-some (most_common d cdata data_t.alph_size) _ e1 in
    subst (AreLowest? d limit) e2 (
      take_both-AreLowest d o limit _ _ rows columns _
        (record { rows = no_cases (λ c. c.h_r); columns = no_cases (λ c. c.h_c) }))
  where
    no_cases :
        (side : TestCase d → Option d.Value)
        → IsLowest d side (d.of_long data_t.word_size) (d.of_long data_t.word_size) []
    no_cases side = record {
      lower = λ v l. absurd l;
      bounded = o.irreflexive (d.of_long data_t.word_size);
      attained = inl refl;
    }

-- Where doubles are numbers, the heights that the non-IID run ends with are at most the width of the
-- symbols and each result in the cases, and each is the width or one of the results of its side.
pub estimate_non_iid-AreLowest :
    (d : Double)
    → IsOrder d
    → (suite : Suite d) (data_t : DataT) (cdata : List ℕ) (h : Heights d)
    → estimate_mode d suite data_t cdata ≡ some h
    → AreLowest d (d.of_long data_t.word_size) (estimate_non_iid d suite data_t cdata h)
unfolding estimate_non_iid
estimate_non_iid-AreLowest d o suite data_t cdata h e =
    let limit = d.of_long data_t.word_size in
    let start = estimate_mode-AreLowest d o suite data_t cdata h e in
    estimate_predictors-AreLowest d o limit suite data_t.symbols cdata _ _ _ (
      estimate_tuples-AreLowest d o limit suite data_t.symbols cdata _ _ _
        (bits_or_not d o limit suite data_t.symbols cdata (data_t.alph_size == 2) h start))
