-- ===== src/Assess/Restart/Endings.antt =====
-- cpp/restart_main.cpp: where the sanity check sends `main`.
use is_there_entropy_down_th.Common.{
  ℕ, ◌≤◌, ◌<◌, ◌≡◌, ◌⊎◌, refl, some, List, [], ltb, inl, inr, arith, Bool-cases, length, AllBelow,
}
use is_there_entropy_down_th.Assess.Estimates.{Double}
use is_there_entropy_down_th.Assess.Samples.{DataT}
use is_there_entropy_down_th.Assess.Matrix.{larger}
use is_there_entropy_down_th.Assess.Matrix.Rows.{in_row, max_row_count-Largest}
use is_there_entropy_down_th.Assess.Matrix.Columns.{
  in_column, IsTransposed, max_column_count-IsTransposed,
}
use is_there_entropy_down_th.Assess.Restart.{Options, Suite}
use is_there_entropy_down_th.Assess.Restart.Message.{sanity_check_failed}
use is_there_entropy_down_th.Assess.Restart.Exit.{failure}
use is_there_entropy_down_th.Assess.Restart.Program.{restarts, min_size, fail, assess, check_counts}

-- Every symbol is at most `bound` times in each row and in each column.
abbrev pub Balanced : (bound : ℕ) → List ℕ → Type 0
Balanced bound samples =
    ((i s : ℕ) → i < restarts → s < 256 → in_row restarts samples i s ≤ bound)
    × ((j s : ℕ) → j < restarts → s < 256 → in_column restarts samples j s ≤ bound)

-- Some symbol is more often in a row or in a column.
abbrev pub Unbalanced : (bound : ℕ) → List ℕ → Type 0
Unbalanced bound samples =
    ((i : ℕ) × (s : ℕ) × (i < restarts) × (bound < in_row restarts samples i s))
    ⊎ ((j : ℕ) × (s : ℕ) × (j < restarts) × (bound < in_column restarts samples j s))

module _ (d : Double) where
  -- On 1000 rows of 1000 bytes the sanity check fails exactly where some symbol is in a row or in a
  -- column more often than the simulated bound allows; otherwise the tests go on with the columns.
  pub check_counts_lem :
      (suite : Suite d) (o : Options) (h_i : d.Value) (data_t : DataT) (memory : List ℕ)
      → AllBelow 256 data_t.symbols
      → length data_t.symbols ≡ min_size
      → length memory ≡ min_size
      → ((check_counts d suite o h_i data_t memory ≡ some (fail d o failure sanity_check_failed []))
          × Unbalanced (suite.simulate_bound data_t.alph_size h_i) data_t.symbols)
        ⊎ ((cdata : List ℕ) × IsTransposed restarts data_t.symbols cdata
            × (check_counts d suite o h_i data_t memory ≡ assess d suite o h_i data_t cdata)
            × Balanced (suite.simulate_bound data_t.alph_size h_i) data_t.symbols)
  unfolding check_counts
  check_counts_lem suite o h_i data_t memory small size room =
      let bound = suite.simulate_bound data_t.alph_size h_i in
      let (x_r, e, rows) =
        max_row_count-Largest restarts data_t.symbols small (omega (arith, size)) in
      let (cdata, x_c, e', t, columns) =
        max_column_count-IsTransposed restarts data_t.symbols memory small (omega (arith, size))
          room in
      elim (Bool-cases (ltb bound (larger x_r x_c))) [
        | inl above ↦ inl (
          rw e (rw e' (rw above refl)),
          elim (Bool-cases (ltb x_c x_r)) [
            | inl r ↦ elim rows.attained [
              | inl z ↦ absurd (ground arith)
              | inr (i, s, hi, k) ↦ inl (i, s, hi, ground arith)
            ]
            | inr c ↦ elim columns.attained [
              | inl z ↦ absurd (ground arith)
              | inr (j, s, hj, k) ↦ inr (j, s, hj, ground arith)
            ]
          ],
        )
        | inr within ↦ inr (
          cdata,
          t,
          rw e (rw e' (rw within refl)),
          (
            λ i s hi hs. ground (arith, within, rows.upper i s hi hs),
            λ j s hj hs. ground (arith, within, columns.upper j s hj hs),
          ),
        )
      ]
