-- ===== src/Assess/Restart/Judged.antt =====
-- cpp/restart_main.cpp: the cause of each ending of `main` behind the read.
use is_there_entropy_down_th.Common.{
  ℕ, ◌≤◌, ◌<◌, ◌≡◌, ◌≢◌, ◌∙◌, refl, true, none, some, List, [], leb, ◌==◌, inl, inr, arith,
  Bool-cases, Option-cases, length, AllBelow,
}
use is_there_entropy_down_th.Assess.Estimates.{Double}
use is_there_entropy_down_th.Assess.Minimum.{IsOrder, AtMost}
use is_there_entropy_down_th.Assess.Samples.{DataT}
use is_there_entropy_down_th.Assess.Samples.Width.{AllBelow-le}
use is_there_entropy_down_th.Assess.Matrix.Columns.{IsTransposed}
use is_there_entropy_down_th.Assess.Matrix.Transposed.{IsTransposed-AllBelow}
use is_there_entropy_down_th.Assess.Restart.{Options, Ending, Heights}
use is_there_entropy_down_th.Assess.Restart.Message.{
  h_i_too_large, one_symbol, wrong_size, no_memory_columns, sanity_check_failed,
}
use is_there_entropy_down_th.Assess.Restart.Lowest.{AreLowest}
use is_there_entropy_down_th.Assess.Restart.Endings.{Balanced, Unbalanced, check_counts_lem}
use is_there_entropy_down_th.Assess.Restart.Program.{
  Machine, restarts, min_size, check_counts, check_data,
}
use is_there_entropy_down_th.Assess.Restart.Document.{FailsWith, IsValidated, fail-FailsWith}
use is_there_entropy_down_th.Assess.Restart.Tested.{tests_of, names, assess_total}

-- Symbols of an alphabet that bytes have.
pub record IsMapped (data_t : DataT) : Type 0 where
  pub symbols_below : AllBelow data_t.alph_size data_t.symbols
  pub alphabet : data_t.alph_size ≤ 256
  pub size : length data_t.symbols ≡ data_t.len

-- Neither refused for its estimate nor for its alphabet.
abbrev pub IsAdmitted : (d : Double) → (h_i : d.Value) → DataT → Type 0
IsAdmitted d h_i data_t = AtMost d h_i (d.of_long data_t.word_size) × (1 < data_t.alph_size)

-- The endings, each with its cause.
pub data IsJudged (d : Double) (machine : Machine d) (o : Options) (h_i : d.Value) (data_t : DataT)
    (e : Ending d) : Type 0 where
  above_width :
      d.less (d.of_long data_t.word_size) h_i ≡ true
      → FailsWith d o e h_i_too_large []
      → IsJudged d machine o h_i data_t e
  no_alphabet :
      AtMost d h_i (d.of_long data_t.word_size)
      → data_t.alph_size ≤ 1
      → FailsWith d o e one_symbol []
      → IsJudged d machine o h_i data_t e
  other_size :
      IsAdmitted d h_i data_t
      → data_t.len ≢ min_size
      → FailsWith d o e wrong_size []
      → IsJudged d machine o h_i data_t e
  no_memory :
      IsAdmitted d h_i data_t
      → data_t.len ≡ min_size
      → machine.malloc min_size ≡ none
      → FailsWith d o e no_memory_columns []
      → IsJudged d machine o h_i data_t e
  insane :
      (memory : List ℕ)
      → IsAdmitted d h_i data_t
      → data_t.len ≡ min_size
      → machine.malloc min_size ≡ some memory
      → Unbalanced (machine.suite.simulate_bound data_t.alph_size h_i) data_t.symbols
      → FailsWith d o e sanity_check_failed []
      → IsJudged d machine o h_i data_t e
  tested :
      (memory cdata : List ℕ) (h : Heights d)
      → IsAdmitted d h_i data_t
      → data_t.len ≡ min_size
      → machine.malloc min_size ≡ some memory
      → IsTransposed restarts data_t.symbols cdata
      → Balanced (machine.suite.simulate_bound data_t.alph_size h_i) data_t.symbols
      → AreLowest d (d.of_long data_t.word_size) h
      → names d h.cases ≡ tests_of o.iid data_t.alph_size
      → IsValidated d o h_i h e
      → IsJudged d machine o h_i data_t e

module _ (d : Double) (order : IsOrder d) (machine : Machine d) (o : Options) (h_i : d.Value)
    (data_t : DataT) (mapped : IsMapped data_t) where
  check_counts-IsJudged :
      (memory : List ℕ)
      → IsAdmitted d h_i data_t
      → data_t.len ≡ min_size
      → machine.malloc min_size ≡ some memory
      → length memory ≡ min_size
      → (e : Ending d) × (check_counts d machine.suite o h_i data_t memory ≡ some e)
        × IsJudged d machine o h_i data_t e
  check_counts-IsJudged memory (wide, several) size given room =
      let bytes =
        AllBelow-le data_t.alph_size 256 data_t.symbols mapped.alphabet mapped.symbols_below in
      let full : length data_t.symbols ≡ min_size = mapped.size ∙ size in
      elim (check_counts_lem d machine.suite o h_i data_t memory bytes full room) [
        | inl (e, above) ↦ (
          _,
          e,
          insane memory (wide, several) size given above
              (fail-FailsWith d o sanity_check_failed [] [] refl),
        )
        | inr (cdata, t, e, within) ↦
            let below =
              IsTransposed-AllBelow data_t.alph_size (omega arith) restarts data_t.symbols cdata
                mapped.symbols_below t in
            let (e', h, ended, low, listed, judged) =
              assess_total d machine.suite data_t cdata o h_i order several mapped.symbols_below
                below (omega (arith, full)) (omega (arith, t.size)) in
            (
              e',
              e ∙ ended,
              tested memory cdata h (wide, several) size given t within low listed judged,
            )
      ]

  -- Where doubles are numbers and `malloc` gives memory of the size, samples in an alphabet of at most
  -- 256 symbols end the restart test, in one of these ways. It fails if the estimate is above their
  -- width, if their alphabet has one symbol at most, if they are not 1000000, if there is no memory for
  -- the columns, or if a symbol is in a row or column more often than the bound, each with its own
  -- message and no case. Otherwise it has a case for each test of the mode: it fails with them if the
  -- lowest result of rows or of columns is below half the estimate, and succeeds with them and a case of
  -- the whole run if neither is. A document is written exactly if JSON was asked for.
  pub check_data-IsJudged :
      ((bytes : ℕ) (memory : List ℕ) → machine.malloc bytes ≡ some memory → length memory ≡ bytes)
      → (e : Ending d) × (check_data d machine o h_i data_t ≡ some e)
        × IsJudged d machine o h_i data_t e
  unfolding check_data
  check_data-IsJudged room = elim (Bool-cases (d.less (d.of_long data_t.word_size) h_i)) [
    | inl b ↦ (_, rw b refl, above_width b (fail-FailsWith d o h_i_too_large [] [] refl))
    | inr b ↦ elim (Bool-cases (leb data_t.alph_size 1)) [
      | inl b1 ↦ (
        _,
        rw (b, b1) refl,
        no_alphabet b (ground arith) (fail-FailsWith d o one_symbol [] [] refl),
      )
      | inr b1 ↦
          let admitted : IsAdmitted d h_i data_t = (b, ground arith) in
          elim (Bool-cases (data_t.len == min_size)) [
            | inr b2 ↦ (
              _,
              rw (b, b1, b2) refl,
              other_size admitted (ground arith) (fail-FailsWith d o wrong_size [] [] refl),
            )
            | inl b2 ↦
                let size : data_t.len ≡ min_size = ground arith in
                elim (Option-cases (machine.malloc min_size)) [
                  | inl b3 ↦ (
                    _,
                    rw (b, b1, b2, size, b3) refl,
                    no_memory admitted size b3 (fail-FailsWith d o no_memory_columns [] [] refl),
                  )
                  | inr (memory, b3) ↦
                      let (e, ended, judged) =
                        check_counts-IsJudged memory admitted size b3 (room min_size memory b3) in
                      (e, rw (b, b1, b2, size, b3) ended, judged)
                ]
          ]
    ]
  ]
