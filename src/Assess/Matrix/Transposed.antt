-- ===== src/Assess/Matrix/Transposed.antt =====
-- cpp/transpose_main.cpp writes the transposition that cpp/restart_main.cpp computes.
use mathlib.Core.Path.{subst}
use native.Mathlib.Nat.{div-add-mod, div-add-mod', mod-lt, lt_of_mul-lt-mul_left}
use is_there_entropy_down_th.Common.{
  ℕ, zero, suc, ◌+◌, ◌*◌, ◌/◌, ◌%◌, ◌≤◌, ◌<◌, ◌≡◌, ◌∙◌, refl, sym, ap, some, List, [], ◌∷◌, ◌++◌,
  length, get_or, AllBelow, arith, length-append, length-map, map,
}
use is_there_entropy_down_th.Assess.Matrix.{write_column, write_columns, max_column_count}
use is_there_entropy_down_th.Assess.Matrix.Largest.{get_elem?-get_or}
use is_there_entropy_down_th.Assess.Matrix.Rows.{cell, row_inside}
use is_there_entropy_down_th.Assess.Matrix.Columns.{IsTransposed, max_column_count-IsTransposed}

ext :
    (xs ys : List ℕ)
    → length xs ≡ length ys
    → ((k : ℕ) → k < length xs → get_or xs k 0 ≡ get_or ys k 0)
    → xs ≡ ys
ext [] [] e h = refl
ext [] (y ∷ ys) e h = absurd (omega arith)
ext (x ∷ xs) [] e h = absurd (omega arith)
ext (x ∷ xs) (y ∷ ys) e h =
    let head : x ≡ y = h 0 (omega arith) in
    let tail = ext xs ys (omega arith) (λ k hk. h (suc k) (omega arith)) in rw (head, tail) refl

row_of : (n k : ℕ) → 0 < n → k < n * n → k / n < n
row_of n k positive h = lt_of_mul-lt-mul_left n (omega (arith, div-add-mod k n))

-- Each place of the array is a cell.
place : (n k : ℕ) → k < n * n → (i : ℕ) × (j : ℕ) × (i < n) × (j < n) × (i * n + j ≡ k)
place n k h =
    let positive : 0 < n = grind (arith, h) in
    (k / n, k % n, row_of n k positive h, mod-lt k positive, div-add-mod' k n)

-- Arrays of n rows of n samples with the same cells are the same.
cells_ext :
    (n : ℕ) (xs ys : List ℕ)
    → length xs ≡ n * n
    → length ys ≡ n * n
    → ((i j : ℕ) → i < n → j < n → cell n xs i j ≡ cell n ys i j)
    → xs ≡ ys
cells_ext n xs ys ex ey h = ext xs ys (omega arith) λ k hk.
    let (i, j, hi, hj, e) = place n k (omega arith) in
    subst (λ u. get_or xs u 0 ≡ get_or ys u 0) e (h i j hi hj)

pub IsTransposed-unique :
    (n : ℕ) (samples a b : List ℕ) → IsTransposed n samples a → IsTransposed n samples b → a ≡ b
IsTransposed-unique n samples a b ha hb =
    cells_ext n a b ha.size hb.size (λ i j hi hj. ha.cells j i hj hi ∙ sym (hb.cells j i hj hi))

IsTransposed-sym :
    (n : ℕ) (a b : List ℕ) → length a ≡ n * n → IsTransposed n a b → IsTransposed n b a
IsTransposed-sym n a b size h = record { size = size; cells = λ i j hi hj. sym (h.cells j i hj hi) }

get_or-append_left :
    (xs ys : List ℕ) (k : ℕ) → k < length xs → get_or (xs ++ ys) k 0 ≡ get_or xs k 0
get_or-append_left [] ys k h = absurd (omega arith)
get_or-append_left (x ∷ xs) ys zero h = refl
get_or-append_left (x ∷ xs) ys (suc k) h = get_or-append_left xs ys k (omega arith)

get_or-append_right :
    (xs ys : List ℕ) (k m : ℕ) → length xs + k ≡ m → get_or (xs ++ ys) m 0 ≡ get_or ys k 0
get_or-append_right [] ys k m e = ap (λ u. get_or ys u 0) (omega arith)
get_or-append_right (x ∷ xs) ys k zero e = absurd (omega arith)
get_or-append_right (x ∷ xs) ys k (suc m) e = get_or-append_right xs ys k m (omega arith)

module _ (n : ℕ) (raw : List ℕ) (small : AllBelow 256 raw) (fits : n * n ≤ length raw) where
  write_column_lem :
      (i left j : ℕ)
      → j + left ≡ n
      → i < n
      → (column : List ℕ) × (write_column n n raw i left j ≡ some column)
        × (length column ≡ left)
        × ((k : ℕ) → k < left → get_or column k 0 ≡ cell n raw (j + k) i)
  unfolding write_column
  write_column_lem i zero j e hi = ([], refl, refl, λ k hk. absurd (omega arith))
  write_column_lem i (suc left) j e hi =
      let inside : n * j + i < length raw = grind (arith, row_inside j n n (omega arith)) in
      let (read, hx) = get_elem?-get_or raw (n * j + i) small inside in
      let (column, rest, size, cells) = write_column_lem i left (suc j) (omega arith) hi in
      let same : n * j + i ≡ j * n + i = grind arith in
      (
        get_or raw (n * j + i) 0 ∷ column,
        rw read (rw rest refl),
        omega (arith, size),
        each i left j column same cells,
      )
    where
      each :
          (i left j : ℕ) (column : List ℕ)
          → n * j + i ≡ j * n + i
          → ((k : ℕ) → k < left → get_or column k 0 ≡ cell n raw (suc j + k) i)
          → (k : ℕ) → k < suc left
          → get_or (get_or raw (n * j + i) 0 ∷ column) k 0 ≡ cell n raw (j + k) i
      each i left j column same cells zero hk = ap (λ u. get_or raw u 0) (omega (arith, same))
      each i left j column same cells (suc k) hk =
          cells k (omega arith) ∙ ap (λ u. cell n raw u i) (omega arith)

  write_columns_lem :
      (left i : ℕ)
      → i + left ≡ n
      → (out : List ℕ) × (write_columns n n raw left i ≡ some out)
        × (length out ≡ left * n)
        × ((m k : ℕ) → m < left → k < n → get_or out (m * n + k) 0 ≡ cell n raw k (i + m))
  unfolding write_columns
  write_columns_lem zero i e = ([], refl, omega arith, λ m k hm hk. absurd (omega arith))
  write_columns_lem (suc left) i e =
      let (column, written, size, read) = write_column_lem i n 0 (omega arith) (omega arith) in
      let cells : (k : ℕ) → k < n → get_or column k 0 ≡ cell n raw k i =
        λ k hk. read k hk ∙ ap (λ u. cell n raw u i) (omega arith) in
      let (out, rest, size', cells') = write_columns_lem left (suc i) (omega arith) in
      (
        column ++ out,
        rw written (rw rest refl),
        grind (arith, length-append column out, size, size'),
        each left i column out size cells cells',
      )
    where
      each :
          (left i : ℕ) (column out : List ℕ)
          → length column ≡ n
          → ((k : ℕ) → k < n → get_or column k 0 ≡ cell n raw k i)
          → ((m k : ℕ) → m < left → k < n → get_or out (m * n + k) 0 ≡ cell n raw k (suc i + m))
          → (m k : ℕ) → m < suc left
          → k < n
          → get_or (column ++ out) (m * n + k) 0 ≡ cell n raw k (i + m)
      each left i column out size cells cells' zero k hm hk =
          ap (λ u. get_or (column ++ out) u 0) (omega arith)
          ∙ get_or-append_left column out k (omega arith)
          ∙ cells k hk
          ∙ ap (λ u. cell n raw k u) (omega arith)
      each left i column out size cells cells' (suc m) k hm hk =
          get_or-append_right column out (m * n + k) (suc m * n + k) (grind arith)
          ∙ cells' m k (omega arith) hk
          ∙ ap (λ u. cell n raw k u) (omega arith)

-- The file that the transposition writes has the columns of the samples as its rows.
pub write_columns-IsTransposed :
    (n : ℕ) (raw : List ℕ)
    → AllBelow 256 raw
    → n * n ≤ length raw
    → (out : List ℕ) × (write_columns n n raw n 0 ≡ some out) × IsTransposed n raw out
write_columns-IsTransposed n raw small fits =
    let (out, e, size, cells) = write_columns_lem n raw small fits n 0 (omega arith) in
    (
      out,
      e,
      record {
        size = size;
        cells = λ i j hi hj. cells j i hj hi ∙ ap (λ u. cell n raw i u) (omega arith);
      },
    )

get_or-map :
    (f : ℕ → ℕ) (xs : List ℕ) (k : ℕ) → k < length xs → get_or (map f xs) k 0 ≡ f (get_or xs k 0)
get_or-map f [] k h = absurd (omega arith)
get_or-map f (x ∷ xs) zero h = refl
get_or-map f (x ∷ xs) (suc k) h = get_or-map f xs k (omega arith)

-- A mapping of the values goes along with the transposition.
IsTransposed-map :
    (n : ℕ) (f : ℕ → ℕ) (raw out : List ℕ)
    → length raw ≡ n * n
    → IsTransposed n raw out
    → IsTransposed n (map f raw) (map f out)
IsTransposed-map n f raw out size t =
    let total = t.size in
    record {
      size = length-map out f ∙ t.size;
      cells = λ i j hi hj.
          get_or-map f out (j * n + i) (omega (arith, row_inside j n n hj))
          ∙ ap f (t.cells i j hi hj)
          ∙ sym (get_or-map f raw (i * n + j) (omega (arith, row_inside i n n hi)));
    }

-- On n rows of n samples, whose symbols are the raw symbols under any mapping of the values, the file
-- that the transposition writes is the array of columns that the restart test makes of the symbols,
-- before that mapping: of symbols that are not mapped down it is the array itself.
pub write_columns-max_column_count :
    (n : ℕ) (f : ℕ → ℕ) (rawsymbols symbols memory : List ℕ)
    → symbols ≡ map f rawsymbols
    → AllBelow 256 rawsymbols
    → AllBelow 256 symbols
    → length rawsymbols ≡ n * n
    → length memory ≡ n * n
    → (file : List ℕ) × (x_c : ℕ) × (write_columns n n rawsymbols n 0 ≡ some file)
      × (max_column_count n n symbols memory ≡ some (map f file, x_c))
write_columns-max_column_count n f rawsymbols symbols memory mapped small_raw small size room =
    let as_many : length symbols ≡ n * n = ap length mapped ∙ length-map rawsymbols f ∙ size in
    let (cdata, x_c, e, t, _) =
      max_column_count-IsTransposed n symbols memory small (omega arith) room in
    let (file, written, t') = write_columns-IsTransposed n rawsymbols small_raw (omega arith) in
    let image : IsTransposed n symbols (map f file) =
      subst (λ l. IsTransposed n l (map f file)) (sym mapped)
        (IsTransposed-map n f rawsymbols file size t') in
    let same = IsTransposed-unique n symbols cdata (map f file) t image in
    (file, x_c, written, e ∙ ap (λ l. some (l, x_c)) same)

module _ (bound : ℕ) (positive : 0 < bound) where
  AllBelow_of :
      (xs : List ℕ) → ((k : ℕ) → k < length xs → get_or xs k 0 < bound) → AllBelow bound xs
  AllBelow_of [] h = tt
  AllBelow_of (x ∷ xs) h = (h 0 (omega arith), AllBelow_of xs (λ k hk. h (suc k) (omega arith)))

  get_or-lt : (xs : List ℕ) (k : ℕ) → AllBelow bound xs → get_or xs k 0 < bound
  get_or-lt [] k h = positive
  get_or-lt (x ∷ xs) zero (hx, h) = hx
  get_or-lt (x ∷ xs) (suc k) (hx, h) = get_or-lt xs k h

  pub IsTransposed-AllBelow :
      (n : ℕ) (samples out : List ℕ)
      → AllBelow bound samples
      → IsTransposed n samples out
      → AllBelow bound out
  IsTransposed-AllBelow n samples out small t = AllBelow_of out λ k hk.
      let (j, i, hj, hi, e) = place n k (omega (arith, hk, t.size)) in
      subst (λ u. get_or out u 0 < bound) e
        (subst (λ v. v < bound) (sym (t.cells i j hi hj)) (get_or-lt samples (i * n + j) small))

-- The transposition of a transposed file gives the samples back.
pub write_columns-write_columns :
    (n : ℕ) (samples : List ℕ)
    → AllBelow 256 samples
    → length samples ≡ n * n
    → (out : List ℕ) × (write_columns n n samples n 0 ≡ some out)
      × (write_columns n n out n 0 ≡ some samples)
write_columns-write_columns n samples small size =
    let (out, e, t) = write_columns-IsTransposed n samples small (omega (arith, size)) in
    let small' = IsTransposed-AllBelow 256 (omega arith) n samples out small t in
    let (back, e', t') = write_columns-IsTransposed n out small' (omega (arith, t.size)) in
    let same = IsTransposed-unique n out samples back (IsTransposed-sym n samples out size t) t' in
    (out, e, e' ∙ ap some (sym same))
