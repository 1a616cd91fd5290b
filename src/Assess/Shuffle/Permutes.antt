-- ===== src/Assess/Shuffle/Permutes.antt =====
-- The shuffle permutes the samples, and the raw samples along with them.
use native.Mathlib.Decide.{ℕ_discrete}
use mathlib.Core.List.{Perm}
use mathlib.Core.List.Perm
use is_there_entropy_down_th.Common.{
  ℕ, zero, suc, ◌+◌, ◌-◌, ◌%◌, ◌^◌, ◌≤◌, ◌<◌, ◌≡◌, ◌⊎◌, ◌∙◌, refl, sym, ap, Option, none, some,
  List, [], ◌∷◌, length, set, get_elem?, inl, inr, arith, length-set, get_elem?-set_self,
  get_elem?-set_ne, get_elem?_total,
}
use is_there_entropy_down_th.Assess.Shuffle.{
  Xoshiro, xoshiro256starstar, random_range64, swap, shuffle_from, fy_shuffle,
}
use is_there_entropy_down_th.Common.Words.{u64}
use is_there_entropy_down_th.Assess.Shuffle.Range.{AllRejected, random_range64-InRange}

module _ {ℓ} {A : Type ℓ} where
  -- A value put in the place of another.
  exchange :
      (xs : List A) (i : ℕ) (a v : A) → get_elem? xs i ≡ some a → Perm (v ∷ xs) (a ∷ set xs i v)
  exchange [] i a v e = cc
  exchange (x ∷ xs) zero a v e = let same : x ≡ a = cc in rw same (Perm.swap a v xs)
  exchange (x ∷ xs) (suc i) a v e =
      Perm.trans (Perm.swap x v xs)
        (Perm.trans (Perm.cons x (exchange xs i a v e)) (Perm.swap a x (set xs i v)))

  get_elem?_bound : (xs : List A) (i : ℕ) (a : A) → get_elem? xs i ≡ some a → i < length xs
  get_elem?_bound [] i a e = cc
  get_elem?_bound (x ∷ xs) zero a e = omega arith
  get_elem?_bound (x ∷ xs) (suc i) a e = omega (arith, get_elem?_bound xs i a e)

  other_place :
      (xs : List A) (r i : ℕ) (x y : A)
      → get_elem? xs r ≡ some x
      → get_elem? xs i ≡ some y
      → get_elem? (set xs r y) i ≡ some y
  other_place xs r i x y ex ey = elim (ℕ_discrete r i) [
    | yes same ↦ rw same (get_elem?-set_self xs i y (get_elem?_bound xs i y ey))
    | no ne ↦ get_elem?-set_ne xs y ne ∙ ey
  ]

  swapped-Perm :
      (xs : List A) (r i : ℕ) (x y : A)
      → get_elem? xs r ≡ some x
      → get_elem? xs i ≡ some y
      → Perm (set (set xs r y) i x) xs
  swapped-Perm xs r i x y ex ey = Perm.symm (
      Perm.cons_inv {a = y} (
        Perm.trans (exchange xs r x y ex)
          (exchange (set xs r y) i y x (other_place xs r i x y ex ey))))

module _ {ℓ} {A B : Type ℓ} where
  abbrev pub pairs : List A → List B → List (A × B)
  pairs [] ys = []
  pairs (x ∷ xs) [] = []
  pairs (x ∷ xs) (y ∷ ys) = (x, y) ∷ pairs xs ys

  pairs-set :
      (xs : List A) (ys : List B) (i : ℕ) (x : A) (y : B)
      → pairs (set xs i x) (set ys i y) ≡ set (pairs xs ys) i (x, y)
  pairs-set [] ys i x y = refl
  pairs-set (a ∷ xs) [] zero x y = refl
  pairs-set (a ∷ xs) [] (suc i) x y = refl
  pairs-set (a ∷ xs) (b ∷ ys) zero x y = refl
  pairs-set (a ∷ xs) (b ∷ ys) (suc i) x y = ap (λ l. (a, b) ∷ l) (pairs-set xs ys i x y)

  get_elem?-pairs :
      (xs : List A) (ys : List B) (i : ℕ) (x : A) (y : B)
      → get_elem? xs i ≡ some x
      → get_elem? ys i ≡ some y
      → get_elem? (pairs xs ys) i ≡ some (x, y)
  get_elem?-pairs [] ys i x y ex ey = cc
  get_elem?-pairs (a ∷ xs) [] i x y ex ey = cc
  get_elem?-pairs (a ∷ xs) (b ∷ ys) zero x y ex ey =
      let same : a ≡ x = cc in let same' : b ≡ y = cc in rw (same, same') refl
  get_elem?-pairs (a ∷ xs) (b ∷ ys) (suc i) x y ex ey = get_elem?-pairs xs ys i x y ex ey

-- From the range i and the generator g on, a number is drawn for each range above j, and g' is the
-- generator then.
pub data DrawsTo (fuel j : ℕ) (g' : Xoshiro) : (i : ℕ) → Xoshiro → Type 0 where
  no_more : DrawsTo fuel j g' j g'
  draw :
      {i r : ℕ} {g g1 : Xoshiro}
      → random_range64 fuel (suc i) g ≡ some (r, g1)
      → DrawsTo fuel j g' i g1
      → DrawsTo fuel j g' (suc i) g

-- The first draw for the range j and those that the fuel allows behind it are rejected.
abbrev pub Exhausted : (fuel j : ℕ) → Xoshiro → Type 0
Exhausted fuel j g =
    let (x, g') = xoshiro256starstar g in
    AllRejected fuel (j + 1) (u64 (2 ^ 64 - (j + 1)) % (j + 1)) x g'

-- The outcomes of a shuffle from the place i on: a permutation of the pairs, or none, where the draws
-- of this generator come to a range for which every draw is rejected.
abbrev pub Shuffles :
    (fuel i : ℕ) (samples raw : List ℕ) (g : Xoshiro) → Option (List ℕ × List ℕ × Xoshiro) → Type 0
Shuffles fuel i samples raw g o =
    ((samples' : List ℕ) × (raw' : List ℕ) × (g' : Xoshiro) × (o ≡ some (samples', raw', g'))
      × Perm (pairs samples' raw') (pairs samples raw))
    ⊎ ((o ≡ none)
        × (j : ℕ) × (g' : Xoshiro) × DrawsTo fuel j g' i g
        × (0 < j)
        × Exhausted fuel j g')

shuffle_from-Shuffles :
    (fuel i : ℕ) (samples raw : List ℕ) (g : Xoshiro)
    → i ≤ length samples - 1
    → length raw ≡ length samples
    → length samples < 2 ^ 31
    → Shuffles fuel i samples raw g (shuffle_from fuel i samples raw g)
unfolding shuffle_from swap
shuffle_from-Shuffles fuel zero samples raw g h size small =
    inl (samples, raw, g, refl, Perm.refl (pairs samples raw))
shuffle_from-Shuffles fuel (suc i) samples raw g h size small =
    elim (random_range64-InRange fuel (suc i) g (omega arith)) [
      | inr (e, all) ↦ inr (rw e refl, suc i, g, no_more, omega arith, all)
      | inl (r, g', e, le) ↦
          let (x, ex) = get_elem?_total samples r (omega arith) in
          let (y, ey) = get_elem?_total samples (suc i) (omega arith) in
          let (x', ex') = get_elem?_total raw r (omega (arith, size)) in
          let (y', ey') = get_elem?_total raw (suc i) (omega (arith, size)) in
          let samples' = set (set samples r y) (suc i) x in
          let raw' = set (set raw r y') (suc i) x' in
          let size1 : length samples' ≡ length samples =
            length-set (set samples r y) (suc i) x ∙ length-set samples r y in
          let size2 : length raw' ≡ length raw =
            length-set (set raw r y') (suc i) x' ∙ length-set raw r y' in
          elim (shuffle_from-Shuffles fuel i samples' raw' g' (omega (arith, size1))
            (size2 ∙ size ∙ sym size1) (omega (arith, size1))) [
              | inr (e2, j, g2, draws, above, all) ↦
                  inr (rw (e, ex, ey, ex', ey') e2, j, g2, draw e draws, above, all)
              | inl (s2, raw2, g2, e2, p) ↦
                  let paired =
                    pairs-set (set samples r y) (set raw r y') (suc i) x x'
                    ∙ ap (λ l. set l (suc i) (x, x')) (pairs-set samples raw r y y') in
                  inl (
                    s2,
                    raw2,
                    g2,
                    rw (e, ex, ey, ex', ey') e2,
                    Perm.trans p (
                        rw paired (
                          swapped-Perm (pairs samples raw) r (suc i) (x, x') (y, y')
                            (get_elem?-pairs samples raw r x x' ex ex')
                            (get_elem?-pairs samples raw (suc i) y y' ey ey'))),
                  )
            ]
    ]

-- Samples and raw samples of the same number, below 2 ^ 31, are permuted together: each pair of them
-- stands in the result as often as before. The shuffle has no result only if the draws of its own
-- generator come to a range for which every draw that the fuel allows is rejected.
pub fy_shuffle-Shuffles :
    (fuel : ℕ) (samples raw : List ℕ) (g : Xoshiro)
    → length raw ≡ length samples
    → length samples < 2 ^ 31
    → Shuffles fuel (length samples - 1) samples raw g (fy_shuffle fuel samples raw g)
unfolding fy_shuffle
fy_shuffle-Shuffles fuel samples raw g size small =
    shuffle_from-Shuffles fuel (length samples - 1) samples raw g (omega arith) size small
