-- ===== src/Assess/Matrix/Rows.antt =====
-- The largest count of a row of the restart matrix.
use mathlib.Core.Path.{subst}
use native.Mathlib.Decide.{ℕ_discrete}
use is_there_entropy_down_th.Common.{
  ℕ, zero, suc, ◌+◌, ◌*◌, ◌≤◌, ◌<◌, ◌≡◌, ◌⊎◌, refl, some, List, length, get_or, AllBelow, inl, inr,
  arith, ltb, Bool-cases,
}
use is_there_entropy_down_th.Assess.Matrix.{
  Tally, no_counts, larger, count_row, count_rows, max_row_count,
}
use is_there_entropy_down_th.Assess.Matrix.Largest.{
  times, Counts, get_elem?-get_or, count-Counts, no_counts-Counts,
}

-- The cell in row i and column j of n rows of n samples.
abbrev pub cell : (n : ℕ) → List ℕ → (i j : ℕ) → ℕ
cell n rdata i j = get_or rdata (i * n + j) 0

-- How often s is in row i.
abbrev pub in_row : (n : ℕ) → List ℕ → (i s : ℕ) → ℕ
in_row n rdata i s = times (cell n rdata i) n s

-- x is the largest of the numbers f i s with i < n, or 0 where there are none.
pub record Largest (f : ℕ → ℕ → ℕ) (n x : ℕ) : Type 0 where
  pub upper : (i s : ℕ) → i < n → s < 256 → f i s ≤ x
  pub attained : (x ≡ 0) ⊎ (i : ℕ) × (s : ℕ) × (i < n) × (f i s ≡ x)

pub row_inside : (i r n : ℕ) → i < r → i * n + n ≤ r * n
row_inside i zero n h = absurd (omega arith)
row_inside zero (suc r) n h = grind arith
row_inside (suc i) (suc r) n h = grind (arith, row_inside i r n (omega arith))

pub Largest-larger :
    (f : ℕ → ℕ → ℕ) (i x : ℕ) (t : Tally)
    → Largest f i x
    → ((s : ℕ) → s < 256 → f i s ≤ t.x_i)
    → (t.x_i ≡ 0) ⊎ ((s : ℕ) × (f i s ≡ t.x_i))
    → Largest f (suc i) (larger t.x_i x)
Largest-larger f i x t h upper attained = record {
  upper = λ k s hk hs. elim (ℕ_discrete i k) [
    | yes same ↦ subst (λ u. f u s ≤ larger t.x_i x) same (ground (arith, upper s hs))
    | no ne ↦ ground (arith, h.upper k s (omega arith) hs)
  ];
  attained = elim (Bool-cases (ltb x t.x_i)) [
    | inl b ↦ elim attained [
      | inl e ↦ absurd (ground arith)
      | inr (s, e) ↦ inr (i, s, omega arith, ground arith)
    ]
    | inr b ↦ elim h.attained [
      | inl e ↦ inl (ground arith)
      | inr (k, s, hk, e) ↦ inr (k, s, omega arith, ground arith)
    ]
  ];
}

module _ (n : ℕ) (rdata : List ℕ) (small : AllBelow 256 rdata) where
  count_row-Counts :
      (i left j : ℕ) (t : Tally)
      → j + left ≡ n
      → i * n + n ≤ length rdata
      → Counts (times (cell n rdata i) j) t
      → (t' : Tally) × (count_row n n rdata i left j t ≡ some t') × Counts (in_row n rdata i) t'
  unfolding count_row times
  count_row-Counts i zero j t e fits h =
      (t, refl, subst (λ k. Counts (times (cell n rdata i) k) t) (omega arith) h)
  count_row-Counts i (suc left) j t e fits h =
      let (read, hx) = get_elem?-get_or rdata (i * n + j) small (omega arith) in
      let (t', counted, h') = count-Counts _ (cell n rdata i j) t h hx in
      let (t'', rest, h'') = count_row-Counts i left (suc j) t' (omega arith) fits h' in
      (t'', rw read (rw counted rest), h'')

  count_rows-Largest :
      (left i x : ℕ)
      → i + left ≡ n
      → n * n ≤ length rdata
      → Largest (in_row n rdata) i x
      → (x_r : ℕ) × (count_rows n n rdata left i x ≡ some x_r) × Largest (in_row n rdata) n x_r
  unfolding count_rows
  count_rows-Largest zero i x e fits h =
      (x, refl, subst (λ k. Largest (in_row n rdata) k x) (omega arith) h)
  count_rows-Largest (suc left) i x e fits h =
      let inside = row_inside i n n (omega arith) in
      let (t, counted, k) =
        count_row-Counts i n 0 no_counts (omega arith) (omega (arith, inside))
          (no_counts-Counts (cell n rdata i)) in
      let (x_r, rest, h') =
        count_rows-Largest left (suc i) (larger t.x_i x) (omega arith) fits
          (Largest-larger (in_row n rdata) i x t h k.upper k.attained) in
      (x_r, rw counted rest, h')

  -- On n rows of n samples the loops are defined, and X_r is the largest number of times that a
  -- symbol is in a row.
  pub max_row_count-Largest :
      n * n ≤ length rdata
      → (x_r : ℕ) × (max_row_count n n rdata ≡ some x_r) × Largest (in_row n rdata) n x_r
  unfolding max_row_count
  max_row_count-Largest fits =
      count_rows-Largest n 0 0 (omega arith) fits
        (record { upper = λ i s hi hs. absurd (omega arith); attained = inl refl })
