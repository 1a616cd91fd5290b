-- ===== src/Assess/Shuffle/Range.antt =====
-- The range of the random numbers.
use is_there_entropy_down_th.Common.{
  ℕ, zero, suc, ◌+◌, ◌-◌, ◌*◌, ◌/◌, ◌%◌, ◌^◌, ◌≤◌, ◌<◌, ◌≡◌, ◌⊎◌, refl, Option, none, some, ltb,
  ◌==◌, Bool-cases, inl, inr, arith,
}
use is_there_entropy_down_th.Common.Words.{u64}
use is_there_entropy_down_th.Assess.Shuffle.{Xoshiro, xoshiro256starstar, redraw, random_range64}

xoshiro256starstar_fits : (g : Xoshiro) → (xoshiro256starstar g).0 < 2 ^ 64
unfolding xoshiro256starstar
xoshiro256starstar_fits g = omega arith

mul_le : (a b s : ℕ) → a ≤ b → a * s ≤ b * s
mul_le a b zero h = omega arith
mul_le a b (suc s) h = omega (arith, mul_le a b s h)

-- The high word of the product is below the factor.
high_word : (x s : ℕ) → x < 2 ^ 64 → x * (s + 1) / 2 ^ 64 ≤ s
high_word x s h = omega (arith, mul_le x (2 ^ 64 - 1) (s + 1) (omega arith))

-- The draw x and n more are all rejected: the low word of their product is below t.
abbrev pub AllRejected : (n s t x : ℕ) → Xoshiro → Type 0
AllRejected zero s t x g = u64 (x * s) < t
AllRejected (suc n) s t x g =
    let (x', g') = xoshiro256starstar g in (u64 (x * s) < t) × AllRejected n s t x' g'

abbrev pub InRange : (s : ℕ) → Option (ℕ × Xoshiro) → Type 0
InRange s o = (r : ℕ) × (g : Xoshiro) × (o ≡ some (r, g)) × (r ≤ s)

redraw-InRange :
    (n s t x : ℕ) (g : Xoshiro)
    → x < 2 ^ 64
    → InRange s (redraw n (s + 1) t x g)
      ⊎ (redraw n (s + 1) t x g ≡ none) × AllRejected n (s + 1) t x g
unfolding redraw
redraw-InRange zero s t x g h = elim (Bool-cases (ltb (u64 (x * (s + 1))) t)) [
  | inl e ↦ inr (rw e refl, ground arith)
  | inr e ↦ inl (x * (s + 1) / 2 ^ 64, g, rw e refl, high_word x s h)
]
redraw-InRange (suc n) s t x g h =
    let (x', g') = xoshiro256starstar g in
    elim (Bool-cases (ltb (u64 (x * (s + 1))) t)) [
      | inl e ↦ elim (redraw-InRange n s t x' g' (xoshiro256starstar_fits g)) [
        | inl (r, g2, e2, le) ↦ inl (r, g2, rw (e, redraw) e2, le)
        | inr (e2, all) ↦ inr (rw (e, redraw) e2, (ground arith, all))
      ]
      | inr e ↦ inl (x * (s + 1) / 2 ^ 64, g, rw (e, redraw) refl, high_word x s h)
    ]

-- The number drawn is in [0, s]. There is none only if every draw that the fuel allows is rejected.
pub random_range64-InRange :
    (fuel s : ℕ) (g : Xoshiro)
    → s < 2 ^ 64
    → let (x, g') = xoshiro256starstar g in
      InRange s (random_range64 fuel s g)
      ⊎ (random_range64 fuel s g ≡ none)
        × AllRejected fuel (s + 1) (u64 (2 ^ 64 - (s + 1)) % (s + 1)) x g'
unfolding random_range64
random_range64-InRange fuel s g h =
    let (x, g') = xoshiro256starstar g in
    elim (Bool-cases (s == 2 ^ 64 - 1)) [
      | inl e ↦
          let top : s ≡ 2 ^ 64 - 1 = ground arith in
          inl (x, g', rw e refl, omega (arith, xoshiro256starstar_fits g))
      | inr e ↦ elim (Bool-cases (ltb (u64 (x * (s + 1))) (s + 1))) [
        | inl e' ↦
            rw (e, e')
              (redraw-InRange fuel s (u64 (2 ^ 64 - (s + 1)) % (s + 1)) x g'
                (xoshiro256starstar_fits g))
        | inr e' ↦
            inl
              (x * (s + 1) / 2 ^ 64, g', rw (e, e') refl, high_word x s (xoshiro256starstar_fits g))
      ]
    ]
