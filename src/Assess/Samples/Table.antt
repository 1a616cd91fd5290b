-- ===== src/Assess/Samples/Table.antt =====
-- The table that maps symbols down holds their ranks among those that occur.
use mathlib.Core.Path.{subst}
use native.Mathlib.Decide.{ℕ_discrete}
use is_there_entropy_down_th.Common.{
  ℕ, zero, suc, ◌+◌, ◌≤◌, ◌<◌, ◌≡◌, ◌≢◌, ◌∙◌, refl, ap, Bool, true, List, [], ◌∷◌, if◌then◌else◌,
  ◌==◌, length, set, get_or, replicate, arith, occurs, get_or-set_self, get_or-set_ne,
  get_or-replicate, Bool-cases, inl, inr, length-set, length-replicate,
}
use is_there_entropy_down_th.Common.Words.{u8}
use is_there_entropy_down_th.Assess.Samples.{mark_symbols, number_table}

-- The number of values below v that occur.
abbrev pub rank : List ℕ → ℕ → ℕ
rank ms zero = 0
rank ms (suc v) = rank ms v + (if occurs v ms then 1 else 0)

pub rank_le : (ms : List ℕ) (v : ℕ) → rank ms v ≤ v
rank_le ms zero = omega arith
rank_le ms (suc v) = ground (arith, rank_le ms v)

abbrev nonzero : ℕ → ℕ
nonzero x = if x == 0 then 1 else x

abbrev marked : ℕ → List ℕ → List ℕ
marked s table = if get_or table s 0 == 0 then set table s 1 else table

length-marked : (s : ℕ) (table : List ℕ) → length (marked s table) ≡ length table
length-marked s table = elim (Bool-cases (get_or table s 0 == 0)) [
  | inl e ↦ rw e (length-set table s 1)
  | inr e ↦ rw e refl
]

marked_self :
    (s : ℕ) (table : List ℕ)
    → s < length table
    → get_or (marked s table) s 0 ≡ nonzero (get_or table s 0)
marked_self s table h = elim (Bool-cases (get_or table s 0 == 0)) [
  | inl e ↦ rw e (get_or-set_self table s 1 0 h)
  | inr e ↦ rw e refl
]

marked_ne : (s v : ℕ) (table : List ℕ) → s ≢ v → get_or (marked s table) v 0 ≡ get_or table v 0
marked_ne s v table ne = elim (Bool-cases (get_or table s 0 == 0)) [
  | inl e ↦ rw e (get_or-set_ne table s v 1 0 ne)
  | inr e ↦ rw e refl
]

-- With the value's own entry and whether the value occurs.
abbrev as_marked : Bool → ℕ → ℕ
as_marked b x = if b then nonzero x else x

mark_symbols-get_or :
    (ms table : List ℕ) (v : ℕ)
    → v < length table
    → get_or (mark_symbols ms table) v 0 ≡ as_marked (occurs v ms) (get_or table v 0)
unfolding mark_symbols
mark_symbols-get_or [] table v h = refl
mark_symbols-get_or (s ∷ ms) table v h =
    let ih = mark_symbols-get_or ms (marked s table) v (omega (arith, length-marked s table)) in
    elim (ℕ_discrete s v) [
      | yes same ↦
          let here = marked_self s table (omega (arith, same)) in
          let here' : get_or (marked s table) v 0 ≡ nonzero (get_or table v 0) =
            subst (λ u. get_or (marked s table) u 0 ≡ nonzero (get_or table u 0)) same here in
          ih ∙ ap (as_marked (occurs v ms)) here' ∙ ground (arith, same)
      | no ne ↦ ih ∙ ap (as_marked (occurs v ms)) (marked_ne s v table ne) ∙ ground (arith, ne)
    ]

length-mark_symbols : (ms table : List ℕ) → length (mark_symbols ms table) ≡ length table
unfolding mark_symbols
length-mark_symbols [] table = refl
length-mark_symbols (s ∷ ms) table = length-mark_symbols ms (marked s table) ∙ length-marked s table

-- The entries before j that are not 0.
abbrev used_before : List ℕ → ℕ → ℕ
used_before [] j = 0
used_before (m ∷ table) zero = 0
used_before (m ∷ table) (suc j) = (if m == 0 then 0 else 1) + used_before table j

used_before-suc :
    (table : List ℕ) (j : ℕ)
    → j < length table
    → used_before table (suc j) ≡ used_before table j + (if get_or table j 0 == 0 then 0 else 1)
used_before-suc [] j h = absurd (omega (arith, h))
used_before-suc (m ∷ []) zero h = omega arith
used_before-suc (m ∷ n ∷ table) zero h = omega arith
used_before-suc (m ∷ table) (suc j) h = omega (arith, used_before-suc table j (omega arith))

number_table-get_or :
    (size : ℕ) (table : List ℕ) (j : ℕ)
    → j < length table
    → get_or (number_table size table).0 j 0
      ≡ (if get_or table j 0 == 0 then 0 else u8 (size + used_before table j))
unfolding number_table
number_table-get_or size [] j h = absurd (omega (arith, h))
number_table-get_or size (m ∷ table) zero h = ground arith
number_table-get_or size (m ∷ table) (suc j) h =
    ground (arith, number_table-get_or (if m == 0 then size else suc size) table j (omega arith))

number_table_size :
    (size : ℕ) (table : List ℕ)
    → (number_table size table).1 ≡ size + used_before table (length table)
unfolding number_table
number_table_size size [] = omega arith
number_table_size size (m ∷ table) =
    ground (arith, number_table_size (if m == 0 then size else suc size) table)

-- After the marking, n entries long.
module _ (ms : List ℕ) (n : ℕ) where
  abbrev pub marks : List ℕ
  marks = mark_symbols ms (replicate n zero)

  length-marks : length marks ≡ n
  length-marks = length-mark_symbols ms (replicate n zero) ∙ length-replicate n zero

  marks-get_or : (v : ℕ) → v < n → get_or marks v 0 ≡ (if occurs v ms then 1 else 0)
  marks-get_or v h =
      mark_symbols-get_or ms (replicate n zero) v (omega (arith, length-replicate n zero))
      ∙ ap (as_marked (occurs v ms)) (get_or-replicate n zero v)
      ∙ refl

  used_before-zero : (table : List ℕ) → used_before table 0 ≡ zero
  used_before-zero [] = refl
  used_before-zero (m ∷ table) = refl

  used_before-rank : (j : ℕ) → j ≤ n → used_before marks j ≡ rank ms j
  used_before-rank zero h = used_before-zero marks
  used_before-rank (suc j) h =
      used_before-suc marks j (omega (arith, length-marks))
      ∙ ground (arith, used_before-rank j (omega arith), marks-get_or j (omega arith))

  pub alph_size-rank : (number_table 0 marks).1 ≡ rank ms n
  alph_size-rank =
      number_table_size 0 marks
      ∙ omega (arith, ap (used_before marks) length-marks, used_before-rank n (omega arith))

  pub table-rank :
      (v : ℕ)
      → n ≤ 256
      → v < n
      → occurs v ms ≡ true
      → u8 (get_or (number_table 0 marks).0 v 0) ≡ rank ms v
  table-rank v small h e =
      let numbered = number_table-get_or 0 marks v (omega (arith, length-marks)) in
      ground (arith, numbered, marks-get_or v h, used_before-rank v (omega arith), rank_le ms v)
