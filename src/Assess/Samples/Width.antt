-- ===== src/Assess/Samples/Width.antt =====
-- The width of the samples: the one that is asked for, or the least one that holds them all.
use Prim.Native.Nat.{bit_and, bit_or, min}
use is_there_entropy_down_th.Common.{
  ℕ, zero, suc, ◌+◌, ◌-◌, ◌*◌, ◌/◌, ◌%◌, ◌^◌, ◌≤◌, ◌<◌, ◌≡◌, ◌≢◌, ◌⊎◌, refl, true, false, none,
  some, List, [], ◌∷◌, ◌==◌, ltb, arith, AllBelow, Bool-cases, inl, inr,
}
use is_there_entropy_down_th.Common.BitAnd.{bit_and-half, bit_and_bit}
use is_there_entropy_down_th.Common.BitOr.{bit_or-half, bit_or-zero}
use is_there_entropy_down_th.Assess.Samples.{data_mask, width_from, establish_width}

pub AllBelow-le : (a b : ℕ) (xs : List ℕ) → a ≤ b → AllBelow a xs → AllBelow b xs
AllBelow-le a b [] le h = tt
AllBelow-le a b (x ∷ xs) le (h, hs) = (omega arith, AllBelow-le a b xs le hs)

pow_le : (a d : ℕ) → 2 ^ a ≤ 2 ^ (a + d)
pow_le a zero = let same : a + 0 ≡ a = omega arith in rw same (omega arith)
pow_le a (suc d) =
    let same : a + suc d ≡ suc (a + d) = omega arith in
    let double : 2 ^ suc (a + d) ≡ 2 * 2 ^ (a + d) = omega arith in
    rw same (omega (arith, pow_le a d))

pow_mono : (a b : ℕ) → a ≤ b → 2 ^ a ≤ 2 ^ b
pow_mono a b h = let same : a + (b - a) ≡ b = omega arith in rw (← same) (pow_le a (b - a))

bit_or-lt : (k a b : ℕ) → a < 2 ^ k → b < 2 ^ k → bit_or a b < 2 ^ k
bit_or-lt zero a b h h' =
    let za : a ≡ 0 = omega arith in
    let zb : b ≡ 0 = omega arith in rw (za, zb) (omega (arith, bit_or-zero 0 0 (omega arith)))
bit_or-lt (suc k) a b h h' =
    let double : 2 ^ suc k ≡ 2 * 2 ^ k = omega arith in
    omega (arith, bit_or-half a b, bit_or-lt k (a / 2) (b / 2) (omega arith) (omega arith))

le-bit_or : (n a b : ℕ) → a ≤ n → a ≤ bit_or a b
le-bit_or n zero b h = omega arith
le-bit_or zero (suc a) b h = absurd (omega arith)
le-bit_or (suc n) (suc a) b h =
    omega (arith, bit_or-half (suc a) b, le-bit_or n (suc a / 2) (b / 2) (omega arith))

le-bit_or_right : (n a b : ℕ) → b ≤ n → b ≤ bit_or a b
le-bit_or_right n a zero h = omega arith
le-bit_or_right zero a (suc b) h = absurd (omega arith)
le-bit_or_right (suc n) a (suc b) h =
    omega (arith, bit_or-half a (suc b), le-bit_or_right n (a / 2) (suc b / 2) (omega arith))

data_mask-lt :
    (k mask : ℕ) (symbols : List ℕ)
    → mask < 2 ^ k
    → AllBelow (2 ^ k) symbols
    → data_mask mask symbols < 2 ^ k
unfolding data_mask
data_mask-lt k mask [] h hs = h
data_mask-lt k mask (s ∷ symbols) h (hs, rest) =
    data_mask-lt k (bit_or mask s) symbols (bit_or-lt k mask s h hs) rest

le-data_mask : (mask : ℕ) (symbols : List ℕ) → mask ≤ data_mask mask symbols
unfolding data_mask
le-data_mask mask [] = omega arith
le-data_mask mask (s ∷ symbols) =
    omega (arith, le-data_mask (bit_or mask s) symbols, le-bit_or mask mask s (omega arith))

data_mask-AllBelow :
    (bound mask : ℕ) (symbols : List ℕ) → data_mask mask symbols < bound → AllBelow bound symbols
unfolding data_mask
data_mask-AllBelow bound mask [] h = tt
data_mask-AllBelow bound mask (s ∷ symbols) h = (
  omega (arith, le-data_mask (bit_or mask s) symbols, le-bit_or_right s mask s (omega arith)),
  data_mask-AllBelow bound (bit_or mask s) symbols h,
)

-- The top bit of a number.
top_bit :
    (i mask : ℕ)
    → mask < 2 ^ suc i
    → (bit_and mask (2 ^ i) ≡ 0) × (mask < 2 ^ i) ⊎ (bit_and mask (2 ^ i) ≡ 2 ^ i) × (2 ^ i ≤ mask)
top_bit zero mask h =
    let bit = bit_and_bit mask in
    elim (Bool-cases (mask == 0)) [
      | inl e ↦ inl (ground (arith, bit), ground arith)
      | inr e ↦ inr (ground (arith, bit), ground arith)
    ]
top_bit (suc i) mask h =
    let double : 2 ^ suc i ≡ 2 * 2 ^ i = omega arith in
    let half : 2 ^ suc i / 2 ≡ 2 ^ i = omega arith in
    let parts = bit_and-half mask (2 ^ suc i) in
    let halves : bit_and mask (2 ^ suc i)
        ≡ bit_and (mask / 2) (2 ^ i) * 2 + min (mask % 2) (2 ^ suc i % 2) =
      rw half at parts in
    elim (top_bit i (mask / 2) (omega arith)) [
      | inl (e, lt) ↦ inl (omega arith, omega arith)
      | inr (e, le) ↦ inr (omega arith, omega arith)
    ]

-- All samples have at most w bits, and some of them that many.
pub record IsLeast (samples : List ℕ) (w : ℕ) : Type 0 where
  pub small : w ≤ 8
  pub holds : AllBelow (2 ^ w) samples
  pub needed : (w ≡ 0) ⊎ ¬ AllBelow (2 ^ (w - 1)) samples

width_from_lem :
    (i curbit mask : ℕ)
    → curbit ≡ 2 ^ i / 2
    → mask < 2 ^ i
    → (width_from i curbit mask ≤ i)
      × (mask < 2 ^ width_from i curbit mask)
      × ((width_from i curbit mask ≡ 0) ⊎ (2 ^ (width_from i curbit mask - 1) ≤ mask))
unfolding width_from
width_from_lem zero curbit mask e h = (omega arith, h, inl refl)
width_from_lem (suc i) curbit mask e h =
    let double : 2 ^ suc i ≡ 2 * 2 ^ i = omega arith in
    let top : curbit ≡ 2 ^ i = omega arith in
    let less : suc i - 1 ≡ i = omega arith in
    elim (top_bit i mask h) [
      | inl (clear, lt) ↦
          let unset : (bit_and mask curbit == 0) ≡ true = rw (top, clear) refl in
          let (small, holds, needed) = width_from_lem i (curbit / 2) mask (omega arith) lt in
          rw unset (omega arith, holds, needed)
      | inr (set, le) ↦
          let one : bit_and mask curbit ≡ 2 ^ i = rw top set in
          let positive : 1 ≤ 2 ^ i = omega (arith, pow_mono 0 i (omega arith)) in
          let is_set : (bit_and mask curbit == 0) ≡ false = rw one (ground arith) in
          rw is_set (omega arith, h, inr (rw less le))
    ]

own_width-IsLeast :
    (samples : List ℕ)
    → AllBelow 256 samples
    → IsLeast samples (width_from 8 0x80 (data_mask 0 samples))
own_width-IsLeast samples h =
    let mask = data_mask 0 samples in
    let (small, holds, needed) =
      width_from_lem 8 0x80 mask refl (data_mask-lt 8 0 samples (omega arith) h) in
    record {
      small = small;
      holds = data_mask-AllBelow (2 ^ width_from 8 0x80 mask) 0 samples holds;
      needed = elim needed [
        | inl e ↦ inl e
        | inr le ↦ inr λ all.
            let w = width_from 8 0x80 mask in
            let positive : 1 ≤ 2 ^ (w - 1) = omega (arith, pow_mono 0 (w - 1) (omega arith)) in
            let below = data_mask-lt (w - 1) 0 samples (omega arith) all in omega arith
      ];
    }

-- The width that samples are to have: the one that is asked for, if it holds them, or their least.
abbrev pub HasWidth : (word_size : ℕ) → (samples : List ℕ) → (w : ℕ) → Type 0
HasWidth word_size samples w =
    ((word_size ≡ 0) × IsLeast samples w)
    ⊎ ((word_size ≢ 0) × (w ≡ word_size) × AllBelow (2 ^ w) samples)

pub establish_width_lem :
    (word_size : ℕ) (samples : List ℕ)
    → AllBelow 256 samples
    → ((establish_width word_size samples ≡ none)
        × (word_size ≢ 0)
        × ¬ AllBelow (2 ^ word_size) samples)
      ⊎ ((w : ℕ) × (establish_width word_size samples ≡ some w) × HasWidth word_size samples w)
unfolding establish_width
establish_width_lem word_size samples h =
    let w = width_from 8 0x80 (data_mask 0 samples) in
    let least = own_width-IsLeast samples h in
    elim (Bool-cases (word_size == 0)) [
      | inl e ↦ inr (w, rw e refl, inl (ground arith, least))
      | inr e ↦ elim (Bool-cases (ltb word_size w)) [
        | inl e' ↦
            let less : word_size < w = ground arith in
            inl (
              rw (e, e') refl,
              ground arith,
              λ all. elim least.needed [
                | inl z ↦ omega arith
                | inr short ↦ short (
                    AllBelow-le (2 ^ word_size) (2 ^ (w - 1)) samples
                      (pow_mono word_size (w - 1) (omega arith)) all)
              ],
            )
        | inr e' ↦
            let enough : w ≤ word_size = ground arith in
            inr (
              word_size,
              rw (e, e') refl,
              inr (
                ground arith,
                refl,
                AllBelow-le (2 ^ w) (2 ^ word_size) samples (pow_mono w word_size enough)
                    least.holds,
              ),
            )
      ]
    ]
