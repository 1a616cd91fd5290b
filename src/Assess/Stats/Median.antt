-- ===== src/Assess/Stats/Median.antt =====
-- The baseline statistics do not depend on the order of the samples.
use mathlib.Core.List.{Perm, foldr}
use mathlib.Core.List.Perm
use mathlib.Core.List
use native.Mathlib.Nat.{ℕ_set}
use is_there_entropy_down_th.Common.{
  ℕ, suc, ◌+◌, ◌-◌, ◌/◌, ◌%◌, ◌<◌, ◌≡◌, ◌∙◌, refl, sym, ap, some, List, [], ◌∷◌, arith, length, leb,
  ◌==◌, Bool-cases, inl, inr, get_elem?_total,
}
use is_there_entropy_down_th.Assess.Estimates.{Double}
use is_there_entropy_down_th.Assess.Estimates.Constant.{half, two}
use is_there_entropy_down_th.Assess.Samples.{DataT}
use is_there_entropy_down_th.Assess.Stats.{sum, insert, sort, median_of, calc_stats}

sum-foldr : (xs : List ℕ) → foldr (λ x s. x + s) 0 xs ≡ sum xs
unfolding sum
sum-foldr [] = refl
sum-foldr (x ∷ xs) = ap (λ s. x + s) (sum-foldr xs)

sort-foldr : (xs : List ℕ) → foldr insert [] xs ≡ sort xs
unfolding sort
sort-foldr [] = refl
sort-foldr (x ∷ xs) = ap (insert x) (sort-foldr xs)

-- Two insertions may change places.
insert-insert : (x y : ℕ) (v : List ℕ) → insert x (insert y v) ≡ insert y (insert x v)
unfolding insert
insert-insert x y [] = grind arith
insert-insert x y (z ∷ v) = ground (arith, insert-insert x y v)

pub sum-Perm : (xs ys : List ℕ) → Perm xs ys → sum xs ≡ sum ys
sum-Perm xs ys p =
    sym (sum-foldr xs)
    ∙ Perm.foldr-eq ℕ_set (λ x s. x + s) (λ a b s. omega arith) p 0
    ∙ sum-foldr ys

pub sort-Perm : (xs ys : List ℕ) → Perm xs ys → sort xs ≡ sort ys
sort-Perm xs ys p =
    sym (sort-foldr xs)
    ∙ Perm.foldr-eq (List.is_set ℕ_set) insert insert-insert p []
    ∙ sort-foldr ys

-- Reordered samples have the same mean and the same median.
pub calc_stats-Perm :
    (d : Double) (dp dp' : DataT)
    → Perm dp.rawsymbols dp'.rawsymbols
    → Perm dp.symbols dp'.symbols
    → dp.alph_size ≡ dp'.alph_size
    → dp.len ≡ dp'.len
    → calc_stats d dp ≡ calc_stats d dp'
unfolding calc_stats
calc_stats-Perm d dp dp' raw symbols size len =
    rw (sum-Perm dp.rawsymbols dp'.rawsymbols raw)
      (rw (sort-Perm dp.symbols dp'.symbols symbols) (rw size (rw len refl)))

length-insert : (x : ℕ) (v : List ℕ) → length (insert x v) ≡ suc (length v)
unfolding insert
length-insert x [] = refl
length-insert x (y ∷ v) = elim (Bool-cases (leb x y)) [
  | inl e ↦ rw e refl
  | inr e ↦ rw e (ap suc (length-insert x v))
]

length-sort : (v : List ℕ) → length (sort v) ≡ length v
unfolding sort
length-sort [] = refl
length-sort (x ∷ v) = length-insert x (sort v) ∙ ap suc (length-sort v)

median_of_total :
    (d : Double) (alph_size : ℕ) (v : List ℕ)
    → 1 < length v
    → (m : d.Value) × (median_of d alph_size v ≡ some m)
unfolding median_of
median_of_total d alph_size v h =
    let (m, e) = get_elem?_total v (length v / 2) (omega arith) in
    let (l, e') = get_elem?_total v (length v / 2 - 1) (omega arith) in
    elim (Bool-cases (alph_size == 2)) [
      | inl b ↦ (d.literal half, rw b refl)
      | inr b ↦ elim (Bool-cases (length v % 2 == 1)) [
        | inl b' ↦ (d.of_long m, rw (b, b', e) refl)
        | inr b' ↦ (d.divide (d.of_long (m + l)) (d.literal two), rw (b, b', e, e') refl)
      ]
    ]

-- At least two samples have statistics.
pub calc_stats_total :
    (d : Double) (dp : DataT)
    → 1 < length dp.symbols
    → (stats : d.Value × d.Value) × (calc_stats d dp ≡ some stats)
unfolding calc_stats
calc_stats_total d dp h =
    let (m, e) =
      median_of_total d dp.alph_size (sort dp.symbols) (omega (arith, length-sort dp.symbols)) in
    ((d.divide (d.of_long (sum dp.rawsymbols)) (d.of_long dp.len), m), rw e refl)
