-- ===== src/Assess/Samples/Rank.antt =====
-- The symbols after mapping down are the ranks of the values among those that occur.
use mathlib.Core.Path.{ap₂}
use native.Mathlib.Decide.{ℕ_discrete}
use is_there_entropy_down_th.Common.{
  ℕ, zero, suc, ◌+◌, ◌-◌, ◌^◌, ◌≤◌, ◌<◌, ◌≡◌, ◌∙◌, refl, sym, ap, true, false, List, [], ◌∷◌,
  if◌then◌else◌, ltb, map, arith, occurs, AllBelow, Bool-cases, inl, inr,
}
use is_there_entropy_down_th.Assess.Samples.{max_symbol, number_table, map_down}
use is_there_entropy_down_th.Assess.Samples.Table.{rank, rank_le, marks, alph_size-rank, table-rank}

-- If every value below n occurs, a value up to n is its own rank.
rank_full : (ms : List ℕ) (n v : ℕ) → rank ms n ≡ n → v ≤ n → rank ms v ≡ v
rank_full ms zero zero e h = refl
rank_full ms zero (suc v) e h = absurd (omega (arith, h))
rank_full ms (suc n) v e h = elim (ℕ_discrete v (suc n)) [
  | yes same ↦ rw same e
  | no ne ↦ rank_full ms n v (ground (arith, rank_le ms n)) (omega arith)
]

max_symbol_ge : (m : ℕ) (ms : List ℕ) → m ≤ max_symbol m ms
unfolding max_symbol
max_symbol_ge m [] = omega arith
max_symbol_ge m (s ∷ ms) = ground (arith, max_symbol_ge (if ltb m s then s else m) ms)

max_symbol-occurs : (m : ℕ) (ms : List ℕ) (v : ℕ) → occurs v ms ≡ true → v ≤ max_symbol m ms
unfolding max_symbol
max_symbol-occurs m [] v e = cc
max_symbol-occurs m (s ∷ ms) v e = elim (ℕ_discrete v s) [
  | yes same ↦ ground (arith, max_symbol_ge (if ltb m s then s else m) ms)
  | no ne ↦ max_symbol-occurs (if ltb m s then s else m) ms v (ground arith)
]

rank_above :
    (ms : List ℕ) (n j : ℕ) → ((u : ℕ) → n ≤ u → occurs u ms ≡ false) → rank ms (n + j) ≡ rank ms n
rank_above ms n zero h = ap (rank ms) (omega arith)
rank_above ms n (suc j) h =
    let step : n + suc j ≡ suc (n + j) = omega arith in
    ap (rank ms) step ∙ ground (arith, rank_above ms n j h, h (n + j) (omega arith))

map_eq :
    (f g : ℕ → ℕ) (xs : List ℕ) → ((x : ℕ) → occurs x xs ≡ true → f x ≡ g x) → map f xs ≡ map g xs
map_eq f g [] h = refl
map_eq f g (x ∷ xs) h =
    ap₂ (λ y l. y ∷ l) (h x (ground arith)) (map_eq f g xs (λ y e. h y (ground arith)))

map_self : (xs : List ℕ) → map (λ x. x) xs ≡ xs
map_self [] = refl
map_self (x ∷ xs) = ap (λ l. x ∷ l) (map_self xs)

AllBelow-occurs : (n : ℕ) (xs : List ℕ) (x : ℕ) → AllBelow n xs → occurs x xs ≡ true → x < n
AllBelow-occurs n [] x h e = cc
AllBelow-occurs n (y ∷ xs) x (h, hs) e = elim (ℕ_discrete x y) [
  | yes same ↦ omega arith
  | no ne ↦ AllBelow-occurs n xs x hs (ground arith)
]

absent : (ms : List ℕ) (u : ℕ) → max_symbol 0 ms + 1 ≤ u → occurs u ms ≡ false
absent ms u h = elim (Bool-cases (occurs u ms)) [
  | inl e ↦ absurd (omega (arith, max_symbol-occurs 0 ms u e))
  | inr e ↦ e
]

-- If as many values occur as there are up to the largest, each is its own rank.
own_rank :
    (ms : List ℕ) (n v : ℕ) → max_symbol 0 ms + 1 ≤ rank ms n → occurs v ms ≡ true → v ≡ rank ms v
own_rank ms n v h e =
    let top = max_symbol 0 ms + 1 in
    let parts : top + (n - top) ≡ n = omega (arith, rank_le ms n) in
    let above = rank_above ms top (n - top) (absent ms) in
    let full : rank ms top ≡ top = omega (arith, ap (rank ms) parts, above, rank_le ms top) in
    sym (rank_full ms top v full (omega (arith, max_symbol-occurs 0 ms v e)))

pow_small : (w : ℕ) → w ≤ 8 → 2 ^ w ≤ 256
pow_small zero h = omega arith
pow_small (suc zero) h = omega arith
pow_small (suc (suc zero)) h = omega arith
pow_small (suc (suc (suc zero))) h = omega arith
pow_small (suc (suc (suc (suc zero)))) h = omega arith
pow_small (suc (suc (suc (suc (suc zero))))) h = omega arith
pow_small (suc (suc (suc (suc (suc (suc zero)))))) h = omega arith
pow_small (suc (suc (suc (suc (suc (suc (suc zero))))))) h = omega arith
pow_small (suc (suc (suc (suc (suc (suc (suc (suc zero)))))))) h = omega arith
pow_small (suc (suc (suc (suc (suc (suc (suc (suc (suc w))))))))) h = absurd (omega (arith, h))

-- For symbols that fit a width of 8 bits at most, each is mapped to the number of values below it
-- that occur, whether the table was needed or not, and the alphabet's size is the number of values
-- that occur: the symbols are dense and keep their order.
pub map_down-rank :
    (raw masked : List ℕ) (word_size : ℕ)
    → word_size ≤ 8
    → AllBelow (2 ^ word_size) masked
    → let d = map_down raw word_size masked in
      (d.symbols ≡ map (rank masked) masked) × (d.alph_size ≡ rank masked (2 ^ word_size))
unfolding map_down
map_down-rank raw masked word_size h fits =
    let n = 2 ^ word_size in
    let size = alph_size-rank masked n in
    (
      elim (Bool-cases (ltb (number_table 0 (marks masked n)).1 (max_symbol 0 masked + 1))) [
        | inl e ↦ rw e (
            map_eq _ (rank masked) masked (λ v o.
              table-rank masked n v (pow_small word_size h) (AllBelow-occurs n masked v fits o) o))
        | inr e ↦ rw e (
            sym (map_self masked)
            ∙ map_eq (λ v. v) (rank masked) masked
                (λ v o. own_rank masked n v (ground (arith, size)) o))
      ],
      size,
    )
