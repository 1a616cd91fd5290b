-- ===== src/Assess/Matrix/Columns.antt =====
-- The columns of the restart matrix: the copy of the samples by columns, and the largest count.
use mathlib.Core.Path.{subst}
use native.Mathlib.Decide.{ℕ_discrete}
use is_there_entropy_down_th.Common.{
  ℕ, zero, suc, ◌+◌, ◌*◌, ◌≤◌, ◌<◌, ◌≡◌, ◌∙◌, refl, some, List, [], ◌∷◌, length, get_or, set,
  get_elem?, AllBelow, inl, arith, length-set, get_or-set_self, get_or-set_ne,
}
use is_there_entropy_down_th.Assess.Matrix.{
  Tally, no_counts, larger, store, count_column, count_columns, max_column_count,
}
use is_there_entropy_down_th.Assess.Matrix.Largest.{
  times, Counts, get_elem?-get_or, count-Counts, no_counts-Counts,
}
use is_there_entropy_down_th.Assess.Matrix.Rows.{cell, Largest, Largest-larger, row_inside}

-- How often s is in column j.
abbrev pub in_column : (n : ℕ) → List ℕ → (j s : ℕ) → ℕ
in_column n rdata j s = times (λ i. cell n rdata i j) n s

-- The rows of cdata before row j, and the first i cells of row j, are the columns of rdata.
record Copied (n : ℕ) (rdata : List ℕ) (j i : ℕ) (cdata : List ℕ) : Type 0 where
  size : length cdata ≡ n * n
  rows : (j' i' : ℕ) → j' < j → i' < n → cell n cdata j' i' ≡ cell n rdata i' j'
  row : (i' : ℕ) → i' < i → cell n cdata j i' ≡ cell n rdata i' j

get_elem?-set_here : (xs : List ℕ) (k x : ℕ) → k < length xs → get_elem? (set xs k x) k ≡ some x
get_elem?-set_here [] k x h = absurd (omega arith)
get_elem?-set_here (y ∷ xs) zero x h = refl
get_elem?-set_here (y ∷ xs) (suc k) x h = get_elem?-set_here xs k x (omega arith)

pub store_inside : (xs : List ℕ) (k x : ℕ) → k < length xs → store xs k x ≡ some (set xs k x)
unfolding store
store_inside xs k x h = ground arith

-- Two cells of different places have different numbers.
apart : (n j j' i i' : ℕ) → j' < j → i' < n → j' * n + i' < j * n + i
apart n j j' i i' h hi = omega (arith, row_inside j' j n h)

Copied-set :
    (n : ℕ) (rdata : List ℕ) (j i : ℕ) (cdata : List ℕ)
    → j < n
    → i < n
    → Copied n rdata j i cdata
    → Copied n rdata j (suc i) (set cdata (j * n + i) (cell n rdata i j))
Copied-set n rdata j i cdata hj hi h =
    let x = cell n rdata i j in
    let inside : j * n + i < length cdata = omega (arith, row_inside j n n hj, h.size) in
    record {
      size = length-set cdata (j * n + i) x ∙ h.size;
      rows = λ j' i' below hi'.
          get_or-set_ne cdata (j * n + i) (j' * n + i') x 0
            (λ e. omega (arith, e, apart n j j' i i' below hi'))
          ∙ h.rows j' i' below hi';
      row = λ i' hi'. elim (ℕ_discrete i i') [
        | yes same ↦
            subst (λ u. get_or (set cdata (j * n + i) x) (j * n + u) 0 ≡ cell n rdata u j) same
              (get_or-set_self cdata (j * n + i) x 0 inside)
        | no ne ↦
            get_or-set_ne cdata (j * n + i) (j * n + i') x 0 (λ e. ne (omega arith))
            ∙ h.row i' (omega arith)
      ];
    }

module _ (n : ℕ) (rdata : List ℕ) (small : AllBelow 256 rdata) (fits : n * n ≤ length rdata) where
  count_column-Copied :
      (j left i : ℕ) (cdata : List ℕ) (t : Tally)
      → i + left ≡ n
      → j < n
      → Copied n rdata j i cdata
      → Counts (times (λ k. cell n rdata k j) i) t
      → (cdata' : List ℕ) × (t' : Tally) × (count_column n n rdata j left i (cdata, t)
          ≡ some (cdata', t'))
        × Copied n rdata j n cdata'
        × Counts (in_column n rdata j) t'
  unfolding count_column times
  count_column-Copied j zero i cdata t e hj k h =
      let last : i ≡ n = omega arith in
      (
        cdata,
        t,
        refl,
        subst (λ u. Copied n rdata j u cdata) last k,
        subst (λ u. Counts (times (λ k. cell n rdata k j) u) t) last h,
      )
  count_column-Copied j (suc left) i cdata t e hj k h =
      let (read, hx) =
        get_elem?-get_or rdata (i * n + j) small (omega (arith, row_inside i n n (omega arith))) in
      let inside : j * n + i < length cdata = omega (arith, row_inside j n n hj, k.size) in
      let (t', counted, h') = count-Counts _ (cell n rdata i j) t h hx in
      let (cdata', t'', rest, k', h'') =
        count_column-Copied j left (suc i) (set cdata (j * n + i) (cell n rdata i j)) t'
          (omega arith) hj (Copied-set n rdata j i cdata hj (omega arith) k) h' in
      (
        cdata',
        t'',
        rw read (
            rw (store_inside cdata (j * n + i) (cell n rdata i j) inside) (
              rw (get_elem?-set_here cdata (j * n + i) (cell n rdata i j) inside)
                (rw counted rest))),
        k',
        h'',
      )

  next_column : (j : ℕ) (cdata : List ℕ) → Copied n rdata j n cdata → Copied n rdata (suc j) 0 cdata
  next_column j cdata k = record {
    size = k.size;
    rows = λ j' i' below hi'. elim (ℕ_discrete j j') [
      | yes same ↦ subst (λ u. cell n cdata u i' ≡ cell n rdata i' u) same (k.row i' hi')
      | no ne ↦ k.rows j' i' (omega arith) hi'
    ];
    row = λ i' none_yet. absurd (omega arith);
  }

  count_columns-Copied :
      (left j : ℕ) (cdata : List ℕ) (x : ℕ)
      → j + left ≡ n
      → Copied n rdata j 0 cdata
      → Largest (in_column n rdata) j x
      → (cdata' : List ℕ) × (x_c : ℕ) × (count_columns n n rdata left j (cdata, x)
          ≡ some (cdata', x_c))
        × Copied n rdata n 0 cdata'
        × Largest (in_column n rdata) n x_c
  unfolding count_columns
  count_columns-Copied zero j cdata x e k h =
      let last : j ≡ n = omega arith in
      (
        cdata,
        x,
        refl,
        subst (λ u. Copied n rdata u 0 cdata) last k,
        subst (λ u. Largest (in_column n rdata) u x) last h,
      )
  count_columns-Copied (suc left) j cdata x e k h =
      let (cdata', t, counted, k', h') =
        count_column-Copied j n 0 cdata no_counts (omega arith) (omega arith) k
          (no_counts-Counts (λ i. cell n rdata i j)) in
      let (cdata'', x_c, rest, k'', h'') =
        count_columns-Copied left (suc j) cdata' (larger t.x_i x) (omega arith)
          (next_column j cdata' k')
          (Largest-larger (in_column n rdata) j x t h h'.upper h'.attained) in
      (cdata'', x_c, rw counted rest, k'', h'')

-- The rows of the array are the columns of the samples.
pub record IsTransposed (n : ℕ) (samples array : List ℕ) : Type 0 where
  pub size : length array ≡ n * n
  pub cells : (i j : ℕ) → i < n → j < n → cell n array j i ≡ cell n samples i j

-- On n rows of n samples the loops are defined in any memory of that size: cdata is the
-- transposition of the samples, and X_c is the largest number of times that a symbol is in a column.
pub max_column_count-IsTransposed :
    (n : ℕ) (rdata memory : List ℕ)
    → AllBelow 256 rdata
    → n * n ≤ length rdata
    → length memory ≡ n * n
    → (cdata : List ℕ) × (x_c : ℕ) × (max_column_count n n rdata memory ≡ some (cdata, x_c))
      × IsTransposed n rdata cdata
      × Largest (in_column n rdata) n x_c
unfolding max_column_count
max_column_count-IsTransposed n rdata memory small fits size =
    let (cdata, x_c, e, k, h) =
      count_columns-Copied n rdata small fits n 0 memory 0 (omega arith)
        (record {
          size = size;
          rows = λ j i hj hi. absurd (omega arith);
          row = λ i hi. absurd (omega arith);
        })
        (record { upper = λ i s hi hs. absurd (omega arith); attained = inl refl }) in
    (cdata, x_c, e, record { size = k.size; cells = λ i j hi hj. k.rows j i hj hi }, h)
