-- ===== src/Assess/Permutation/Lagged.antt =====
-- The statistics on samples a lag apart.
use mathlib.Core.Path.{ap₂, subst}
use is_there_entropy_down_th.Common.{
  ℕ, zero, suc, ◌+◌, ◌-◌, ◌*◌, ◌^◌, ◌≤◌, ◌<◌, ◌≡◌, ◌↔◌, ◌∙◌, refl, sym, true, some, List, [], ◌∷◌,
  if◌then◌else◌, leb, ◌==◌, length, take, drop, map, Bool-cases, inl, inr, arith, length-drop,
  length-map,
}
use is_there_entropy_down_th.Common.Words.{u64}
use is_there_entropy_down_th.Assess.Permutation.{matches, periodicity, products, covariance}

-- The first samples are those a lag later.
abbrev pub IsPeriodic : ℕ → List ℕ → Type 0
IsPeriodic p samples = take (length samples - p) samples ≡ drop p samples

matches_le : (xs ys : List ℕ) → matches xs ys ≤ length ys
unfolding matches
matches_le (x ∷ xs) (y ∷ ys) = ground (arith, matches_le xs ys)
matches_le [] ys = omega arith
matches_le (x ∷ xs) [] = omega arith

take-matches : (xs ys : List ℕ) → matches xs ys ≡ length ys → take (length ys) xs ≡ ys
unfolding matches
take-matches xs [] h = refl
take-matches [] (y ∷ ys) h = absurd (omega (arith, h))
take-matches (x ∷ xs) (y ∷ ys) h =
    let le = matches_le xs ys in
    elim (Bool-cases (x == y)) [
      | inl e ↦
          let same : x ≡ y = ground arith in
          ap₂ (λ z l. z ∷ l) same (take-matches xs ys (ground arith))
      | inr e ↦ absurd (ground arith)
    ]

matches-take : (xs ys : List ℕ) → take (length ys) xs ≡ ys → matches xs ys ≡ length ys
unfolding matches
matches-take [] [] h = refl
matches-take (x ∷ xs) [] h = refl
matches-take [] (y ∷ ys) h = cc
matches-take (x ∷ xs) (y ∷ ys) h =
    let same : x ≡ y = cc in
    let same' : take (length ys) xs ≡ ys = cc in ground (arith, matches-take xs ys same')

-- With a lag up to the number of samples the count is defined and at most the number of pairs, and
-- it is all of them exactly for samples with that period.
pub periodicity-IsPeriodic :
    (samples : List ℕ) (p : ℕ)
    → p ≤ length samples
    → (t : ℕ) × (periodicity samples p ≡ some t)
      × (t ≤ length samples - p)
      × ((t ≡ length samples - p) ↔ IsPeriodic p samples)
unfolding periodicity
periodicity-IsPeriodic samples p h =
    let fits : leb p (length samples) ≡ true = ground arith in
    let size = length-drop p samples in
    let le = matches_le samples (drop p samples) in
    (
      matches samples (drop p samples),
      rw fits refl,
      omega (arith, le, size),
      (
        λ e.
            subst (λ n. take n samples ≡ drop p samples) size
              (take-matches samples (drop p samples) (e ∙ sym size)),
        λ e.
            matches-take samples (drop p samples)
              (subst (λ n. take n samples ≡ drop p samples) (sym size) e)
            ∙ size,
      ),
    )

abbrev pub AllBits : List ℕ → Type 0
AllBits [] = Unit
AllBits (x ∷ xs) = (x < 2) × AllBits xs

abbrev pub flip : ℕ → ℕ
flip x = 1 - x

-- Of two bits, or of their complements, both are 1 exactly if the bits are the same.
bits_agree :
    (x y : ℕ)
    → x < 2
    → y < 2
    → (x * y + flip x * flip y ≡ (if x == y then 1 else 0)) × (x * y ≤ 1) × (flip x * flip y ≤ 1)
bits_agree zero zero hx hy = (refl, omega arith, omega arith)
bits_agree zero (suc zero) hx hy = (refl, omega arith, omega arith)
bits_agree (suc zero) zero hx hy = (refl, omega arith, omega arith)
bits_agree (suc zero) (suc zero) hx hy = (refl, omega arith, omega arith)
bits_agree (suc (suc x)) y hx hy = absurd (omega (arith, hx))
bits_agree zero (suc (suc y)) hx hy = absurd (omega (arith, hy))
bits_agree (suc zero) (suc (suc y)) hx hy = absurd (omega (arith, hy))

products_from :
    (t u : ℕ) (xs ys : List ℕ)
    → AllBits xs
    → AllBits ys
    → t + length xs < 2 ^ 64
    → u + length xs < 2 ^ 64
    → products t xs ys + products u (map flip xs) (map flip ys) ≡ t + u + matches xs ys
unfolding products matches
products_from t u (x ∷ xs) (y ∷ ys) (hx, hxs) (hy, hys) ht hu =
    let (agree, le, le') = bits_agree x y hx hy in
    let ih =
      products_from (u64 (t + x * y)) (u64 (u + flip x * flip y)) xs ys hxs hys (omega arith)
        (omega arith) in
    omega (arith, ih, agree)
products_from t u [] ys hx hy ht hu = omega arith
products_from t u (x ∷ xs) [] hx hy ht hu = omega arith

drop-AllBits : (p : ℕ) (xs : List ℕ) → AllBits xs → AllBits (drop p xs)
drop-AllBits zero xs h = h
drop-AllBits (suc p) [] h = tt
drop-AllBits (suc p) (x ∷ xs) (h, hs) = drop-AllBits p xs hs

drop-map : (p : ℕ) (xs : List ℕ) → drop p (map flip xs) ≡ map flip (drop p xs)
drop-map zero xs = refl
drop-map (suc p) [] = refl
drop-map (suc p) (x ∷ xs) = drop-map p xs

-- On fewer than 2 ^ 32 bits the periodicity is the covariance of the bits and that of their
-- complements together, with no overflow in either.
pub periodicity-covariance :
    (samples : List ℕ) (p : ℕ)
    → AllBits samples
    → length samples < 2 ^ 32
    → p ≤ length samples
    → (t u v : ℕ) × (periodicity samples p ≡ some t)
      × (covariance samples p ≡ some u)
      × (covariance (map flip samples) p ≡ some v)
      × (t ≡ u + v)
unfolding periodicity covariance
periodicity-covariance samples p bits small h =
    let fits : leb p (length samples) ≡ true = ground arith in
    let flipped : leb p (length (map flip samples)) ≡ true = rw (length-map samples flip) fits in
    let sums =
      products_from 0 0 samples (drop p samples) bits (drop-AllBits p samples bits) (omega arith)
        (omega arith) in
    (
      matches samples (drop p samples),
      products 0 samples (drop p samples),
      products 0 (map flip samples) (map flip (drop p samples)),
      rw fits refl,
      rw fits refl,
      rw (flipped, drop-map p samples) refl,
      omega (arith, sums),
    )
