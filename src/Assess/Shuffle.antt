-- ===== src/Assess/Shuffle.antt =====
-- cpp/shared/utils.h: the random numbers of the permutation tests, and the shuffle they drive.
use Prim.Native.Nat.{bit_or, bit_xor, bit_and}
use is_there_entropy_down_th.Common.{
  ℕ, zero, suc, ◌+◌, ◌-◌, ◌*◌, ◌/◌, ◌%◌, ◌^◌, Bool, true, false, Option, none, some, List, [], ◌∷◌,
  if◌then◌else◌, ltb, ◌==◌, ◌>>=◌, length, set, get_elem?,
}
use is_there_entropy_down_th.Common.Words.{u64}
pub mod Range
pub mod Permutes
pub mod Tests

-- `uint64_t xoshiro256starstarState[4]`
pub record Xoshiro : Type 0 where
  pub s0 : ℕ
  pub s1 : ℕ
  pub s2 : ℕ
  pub s3 : ℕ

-- `(x << k) | (x >> (64 - k))`
pub rotl : (x k : ℕ) → ℕ
rotl x k = bit_or (u64 (x * 2 ^ k)) (x / 2 ^ (64 - k))

pub xoshiro256starstar : Xoshiro → ℕ × Xoshiro
unfolding rotl
xoshiro256starstar g =
    let result = u64 (rotl (u64 (g.s1 * 5)) 7 * 9) in
    let t = u64 (g.s1 * 2 ^ 17) in
    let s2 = bit_xor g.s2 g.s0 in
    let s3 = bit_xor g.s3 g.s1 in
    let s1 = bit_xor g.s1 s2 in
    let s0 = bit_xor g.s0 s3 in
    (result, record { s0 = s0; s1 = s1; s2 = bit_xor s2 t; s3 = rotl s3 45 })

abbrev pub xor_all : Xoshiro → Xoshiro → Xoshiro
xor_all a g = record {
  s0 = bit_xor a.s0 g.s0;
  s1 = bit_xor a.s1 g.s1;
  s2 = bit_xor a.s2 g.s2;
  s3 = bit_xor a.s3 g.s3;
}

-- `for(b = 0; b < 64; b++)` for one word of JUMP: the sums so far, and the generator.
pub jump_bits : (left b word : ℕ) → Xoshiro → Xoshiro → Xoshiro × Xoshiro
unfolding xoshiro256starstar
jump_bits zero b word sums g = (sums, g)
jump_bits (suc left) b word sums g =
    jump_bits left (suc b) word (if bit_and word (2 ^ b) == 0 then sums else xor_all sums g)
      (xoshiro256starstar g).1

pub jump_words : List ℕ → Xoshiro → Xoshiro → Xoshiro × Xoshiro
unfolding jump_bits
jump_words [] sums g = (sums, g)
jump_words (word ∷ words) sums g =
    let (sums', g') = jump_bits 64 0 word sums g in jump_words words sums' g'

abbrev pub jump_table : List ℕ
jump_table = 0x180ec6d33cfd0aba ∷ 0xd5a61266f0c9392c ∷ 0xa9582618e03fc9aa ∷ 0x39abdc4529b1661c ∷ []

-- The rounds of the outer loop: the sums of one round are the generator of the next, and also what
-- its sums begin with.
pub jump_rounds : (rounds : ℕ) → (sums g : Xoshiro) → Xoshiro
unfolding jump_words
jump_rounds zero sums g = g
jump_rounds (suc rounds) sums g =
    let (sums', _) = jump_words jump_table sums g in jump_rounds rounds sums' sums'

pub xoshiro_jump : (jump_count : ℕ) → Xoshiro → Xoshiro
unfolding jump_rounds
xoshiro_jump jump_count g = jump_rounds jump_count (record { s0 = 0; s1 = 0; s2 = 0; s3 = 0 }) g

-- `while(l < t)`, with the draws left; `none` if they run out.
pub redraw : (fuel s t x : ℕ) → Xoshiro → Option (ℕ × Xoshiro)
unfolding xoshiro256starstar
redraw zero s t x g = if ltb (u64 (x * s)) t then none else some (x * s / 2 ^ 64, g)
redraw (suc fuel) s t x g = elim (ltb (u64 (x * s)) t) [
  | true ↦ let (x', g') = xoshiro256starstar g in redraw fuel s t x' g'
  | false ↦ some (x * s / 2 ^ 64, g)
]

-- With s + 1 numbers to draw from; `((uint64_t)(-s)) % s` is the bound of what is rejected.
abbrev range_of : (fuel s : ℕ) → (x : ℕ) → Xoshiro → Option (ℕ × Xoshiro)
range_of fuel s x g =
    if ltb (u64 (x * s)) s
    then redraw fuel s (u64 (2 ^ 64 - s) % s) x g
    else some (x * s / 2 ^ 64, g)

-- The loop may draw `fuel` times more.
pub random_range64 : (fuel s : ℕ) → Xoshiro → Option (ℕ × Xoshiro)
unfolding xoshiro256starstar redraw
random_range64 fuel s g =
    let (x, g') = xoshiro256starstar g in
    if s == 2 ^ 64 - 1 then some (x, g') else range_of fuel (s + 1) x g'

module _ {ℓ} {A : Type ℓ} where
  -- `SWAP(data[r], data[i])`; out of the array it is undefined.
  pub swap : List A → (r i : ℕ) → Option (List A)
  swap xs r i = do x ← get_elem? xs r; y ← get_elem? xs i; some (set (set xs r y) i x)

-- `for (i = sample_size - 1; i > 0; --i)`, with i left.
pub shuffle_from :
    (fuel i : ℕ) → (samples raw : List ℕ) → Xoshiro → Option (List ℕ × List ℕ × Xoshiro)
unfolding random_range64 swap
shuffle_from fuel zero samples raw g = some (samples, raw, g)
shuffle_from fuel (suc i) samples raw g = do
  (r, g') ← random_range64 fuel (suc i) g
  samples' ← swap samples r (suc i)
  raw' ← swap raw r (suc i)
  shuffle_from fuel i samples' raw' g'

pub fy_shuffle : (fuel : ℕ) → (samples raw : List ℕ) → Xoshiro → Option (List ℕ × List ℕ × Xoshiro)
unfolding shuffle_from
fy_shuffle fuel samples raw g = shuffle_from fuel (length samples - 1) samples raw g
