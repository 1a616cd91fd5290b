-- ===== src/Assess/Permutation/Blocks.antt =====
-- The conversions of bits to blocks of eight.
use mathlib.Core.Path.{subst}
use native.Mathlib.Decide.{ℕ_discrete}
use is_there_entropy_down_th.Common.{
  get_or-set_self, get_or-set_ne, get_or-replicate, ℕ, zero, suc, ◌+◌, ◌/◌, ◌<◌, ◌≡◌, List, [], ◌∷◌,
  if◌then◌else◌, ◌==◌, length, set, get_or, replicate, arith, length-set, length-replicate,
}
use is_there_entropy_down_th.Common.Words.{u8}
use is_there_entropy_down_th.Assess.Permutation.{
  block_count, add_to_blocks, count_weight, shift_weight, conversion1, conversion2,
}

-- What the samples from index i on give to block b, as a whole number.
abbrev pub block_sum : (weight : (i x : ℕ) → ℕ) (i b : ℕ) → List ℕ → ℕ
block_sum weight i b [] = 0
block_sum weight i b (x ∷ samples) =
    (if i / 8 == b then weight i x else 0) + block_sum weight (suc i) b samples

add_to_blocks-block_sum :
    (weight : (i x : ℕ) → ℕ) (i : ℕ) (samples ret : List ℕ) (b : ℕ)
    → b < length ret
    → u8 (get_or (add_to_blocks weight i samples ret) b 0)
      ≡ u8 (get_or ret b 0 + block_sum weight i b samples)
unfolding add_to_blocks
add_to_blocks-block_sum weight i [] ret b h = omega arith
add_to_blocks-block_sum weight i (x ∷ samples) ret b h =
    let ret' = set ret (i / 8) (u8 (get_or ret (i / 8) 0 + weight i x)) in
    let size = length-set ret (i / 8) (u8 (get_or ret (i / 8) 0 + weight i x)) in
    let ih = add_to_blocks-block_sum weight (suc i) samples ret' b (omega (arith, size)) in
    elim (ℕ_discrete (i / 8) b) [
      | yes e ↦
          let here : get_or ret' b 0 ≡ u8 (get_or ret b 0 + weight i x) =
            subst (λ c. get_or ret' c 0 ≡ u8 (get_or ret c 0 + weight i x)) e
              (get_or-set_self ret (i / 8) _ 0 (omega (arith, e))) in
          ground (arith, ih, here, e)
      | no ne ↦
          let here : get_or ret' b 0 ≡ get_or ret b 0 = get_or-set_ne ret (i / 8) b _ 0 ne in
          ground (arith, ih, here)
    ]

-- Each block of either conversion is, modulo 2 ^ 8, what its eight bits give: their number in the
-- first, and in the second their sum with the first bit at the top.
pub conversion-block_sum :
    (samples : List ℕ) (b : ℕ)
    → b < block_count (length samples)
    → (u8 (get_or (conversion1 samples) b 0) ≡ u8 (block_sum count_weight 0 b samples))
      × (u8 (get_or (conversion2 samples) b 0) ≡ u8 (block_sum shift_weight 0 b samples))
unfolding conversion1 conversion2
conversion-block_sum samples b h =
    let size = length-replicate (block_count (length samples)) zero in
    let empty = get_or-replicate (block_count (length samples)) zero b in
    let zeros = replicate (block_count (length samples)) zero in
    let first = add_to_blocks-block_sum count_weight 0 samples zeros b (omega (arith, size)) in
    let second = add_to_blocks-block_sum shift_weight 0 samples zeros b (omega (arith, size)) in
    (omega (arith, first, empty), omega (arith, second, empty))
