-- ===== src/Assess/Shuffle/Tests.antt =====
-- The shuffle of a few samples, and the jump taken once and twice.
use is_there_entropy_down_th.Common.{
  ℕ, ◌-◌, ◌%◌, ◌^◌, ◌≡◌, ◌⊎◌, refl, false, Option, none, some, List, [], ◌∷◌, ◌==◌, arith,
}
use is_there_entropy_down_th.Common.Words.{u64}
use is_there_entropy_down_th.Assess.Shuffle.{
  Xoshiro, xoshiro256starstar, xoshiro_jump, random_range64, fy_shuffle,
}
use is_there_entropy_down_th.Assess.Shuffle.Range.{InRange, AllRejected, random_range64-InRange}
use is_there_entropy_down_th.Assess.Shuffle.Permutes.{Shuffles, fy_shuffle-Shuffles}

abbrev seeded : Xoshiro
seeded = record { s0 = 1; s1 = 0x9e37_79b9_7f4a_7c15; s2 = 3; s3 = 0xbf58_476d_1ce4_e5b9 }

abbrev of_three : Option (List ℕ × List ℕ × Xoshiro) → List ℕ
of_three (some (samples, raw, g)) = samples
of_three none = []

-- One call for two jumps is not two calls for one.
jump_twice : ((xoshiro_jump 2 seeded).s0 == (xoshiro_jump 1 (xoshiro_jump 1 seeded)).s0) ≡ false
unfolding xoshiro_jump
jump_twice = refl

random_range64-InRange_example :
    let (x, g') = xoshiro256starstar seeded in
    InRange 5 (random_range64 4 5 seeded)
    ⊎ (random_range64 4 5 seeded ≡ none) × AllRejected 4 6 (u64 (2 ^ 64 - 6) % 6) x g'
random_range64-InRange_example = random_range64-InRange 4 5 seeded (omega arith)

fy_shuffle-Shuffles_example :
    Shuffles 3 2
      (7 ∷ 8 ∷ 9 ∷ [])
      (17 ∷ 18 ∷ 19 ∷ [])
      seeded
      (fy_shuffle 3 (7 ∷ 8 ∷ 9 ∷ []) (17 ∷ 18 ∷ 19 ∷ []) seeded)
fy_shuffle-Shuffles_example =
    fy_shuffle-Shuffles 3 (7 ∷ 8 ∷ 9 ∷ []) (17 ∷ 18 ∷ 19 ∷ []) seeded refl (omega arith)
