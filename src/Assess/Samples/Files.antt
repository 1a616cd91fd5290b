-- ===== src/Assess/Samples/Files.antt =====
-- The two functions that read a file, and what they give.
use Prim.Native.Nat.{bit_and}
use native.Mathlib.Decide.{ℕ_discrete}
use is_there_entropy_down_th.Common.{
  ℕ, zero, suc, ◌-◌, ◌*◌, ◌/◌, ◌^◌, ◌≤◌, ◌<◌, ◌≡◌, ◌≢◌, ◌⊎◌, ◌∙◌, refl, ap, true, false, List, [],
  ◌∷◌, ◌==◌, length, map, arith, length-append, length-map, AllBelow, Bool-cases, inl, inr,
}
use is_there_entropy_down_th.Common.BitAnd.{bit_and-half, bit_and-zero}
use is_there_entropy_down_th.Assess.Samples.{
  DataT, done, failed, does_not_fit, no_memory_bsymbols, Host, bits_from, all_bits, map_down,
  finish, read_file_subset, read_file,
}
use is_there_entropy_down_th.Assess.Samples.Table.{rank}
use is_there_entropy_down_th.Assess.Samples.Rank.{map_down-rank}
use is_there_entropy_down_th.Assess.Samples.Width.{HasWidth, establish_width_lem}

-- The whole file, read as the subset of size 0, is what read_file gives: each error is the same, and
-- so are the data.
pub read_file_subset-read_file :
    (index word_size : ℕ) (h : Host) → read_file_subset index 0 word_size h ≡ read_file word_size h
unfolding read_file_subset read_file
read_file_subset-read_file index word_size h = refl

bit_and_le : (w a : ℕ) → bit_and a (2 ^ w - 1) < 2 ^ w
bit_and_le zero a = omega (arith, bit_and-zero a a (omega arith))
bit_and_le (suc w) a =
    let double : 2 ^ suc w ≡ 2 * 2 ^ w = omega arith in
    let positive : 1 ≤ 2 ^ w = omega (arith, bit_and_le w 0) in
    let half : (2 ^ suc w - 1) / 2 ≡ 2 ^ w - 1 = omega arith in
    let parts = bit_and-half a (2 ^ suc w - 1) in
    let above : bit_and (a / 2) ((2 ^ suc w - 1) / 2) < 2 ^ w = rw half (bit_and_le w (a / 2)) in
    omega (arith, parts, above)

masked-AllBelow : (w : ℕ) (raw : List ℕ) → AllBelow (2 ^ w) (map (λ s. bit_and s (2 ^ w - 1)) raw)
masked-AllBelow w [] = tt
masked-AllBelow w (s ∷ raw) = (bit_and_le w s, masked-AllBelow w raw)

length-bits_from : (w s : ℕ) → length (bits_from w s) ≡ w
unfolding bits_from
length-bits_from zero s = refl
length-bits_from (suc w) s = ap suc (length-bits_from w s)

length-all_bits : (w : ℕ) (ms : List ℕ) → length (all_bits w ms) ≡ length ms * w
unfolding all_bits
length-all_bits w [] = omega arith
length-all_bits w (s ∷ ms) =
    length-append (bits_from w s) (all_bits w ms)
    ∙ omega (arith, length-bits_from w s, length-all_bits w ms)

-- What a successful read of the bytes leaves, with the width that it found.
pub record IsRead (raw : List ℕ) (w : ℕ) (d : DataT) : Type 0 where
  pub width : (d.word_size ≡ w) × (w ≤ 8)
  pub rawsymbols : d.rawsymbols ≡ raw
  pub symbols :
      let masked = map (λ s. bit_and s (2 ^ w - 1)) raw in d.symbols ≡ map (rank masked) masked
  pub alph_size : d.alph_size ≡ rank (map (λ s. bit_and s (2 ^ w - 1)) raw) (2 ^ w)
  pub bits : length d.bsymbols ≡ d.blen
  pub aliased : (w ≢ 1) ⊎ (d.bsymbols ≡ d.symbols)

map_down-IsRead :
    (raw : List ℕ) (w : ℕ)
    → w ≤ 8
    → IsRead raw w (map_down raw w (map (λ s. bit_and s (2 ^ w - 1)) raw))
unfolding map_down
map_down-IsRead raw w h =
    let masked = map (λ s. bit_and s (2 ^ w - 1)) raw in
    let (symbols, size) = map_down-rank raw masked w h (masked-AllBelow w raw) in
    let as_many =
      ap length symbols
      ∙ length-map masked (rank masked)
      ∙ length-map raw (λ s. bit_and s (2 ^ w - 1)) in
    record {
      width = (refl, h);
      rawsymbols = refl;
      symbols = symbols;
      alph_size = size;
      bits = elim (ℕ_discrete w 1) [
        | yes one ↦
            let e : (w == 1) ≡ true = ground arith in
            let times : length raw * w ≡ length raw = ap (λ n. length raw * n) one ∙ omega arith in
            rw (e, times) as_many
        | no ne ↦
            let e : (w == 1) ≡ false = ground arith in
            rw e (
              length-all_bits w masked
              ∙ ap (λ n. n * w) (length-map raw (λ s. bit_and s (2 ^ w - 1))))
      ];
      aliased = elim (ℕ_discrete w 1) [
        | yes one ↦ let e : (w == 1) ≡ true = ground arith in inr (rw e refl)
        | no ne ↦ inl ne
      ];
    }

HasWidth-le :
    (word_size : ℕ) (raw : List ℕ) (w : ℕ) → word_size ≤ 8 → HasWidth word_size raw w → w ≤ 8
HasWidth-le word_size raw w h (inl (_, least)) = least.small
HasWidth-le word_size raw w h (inr (_, same, _)) = omega arith

-- Bytes that are read are refused exactly if a width was asked for that does not hold them all. If
-- not, they have that width, or the least that holds them where none was asked for. They then fail
-- only for want of memory for the bits, which samples of one bit do not need; otherwise the samples
-- are the ranks of the bytes cut to the width, with an alphabet of the values that occur. There is a
-- bit for each place of the width, but samples of one bit are their own bits, after the mapping.
pub finish-IsRead :
    (word_size : ℕ) (h : Host) (raw : List ℕ)
    → word_size ≤ 8
    → AllBelow 256 raw
    → ((finish word_size h raw ≡ failed does_not_fit)
        × (word_size ≢ 0)
        × ¬ AllBelow (2 ^ word_size) raw)
      ⊎ ((w : ℕ) × HasWidth word_size raw w
          × (((finish word_size h raw ≡ failed no_memory_bsymbols)
                × (w ≢ 1)
                × (h.allocates (length raw * w) ≡ false))
              ⊎ ((d : DataT) × (finish word_size h raw ≡ done d)
                  × IsRead raw w d
                  × ((w ≡ 1) ⊎ (h.allocates (length raw * w) ≡ true)))))
unfolding finish
finish-IsRead word_size h raw small bytes = elim (establish_width_lem word_size raw bytes) [
  | inl (e, asked, wide) ↦ inl (rw e refl, asked, wide)
  | inr (w, e, width) ↦
      let d = map_down-IsRead raw w (HasWidth-le word_size raw w small width) in
      inr (
        w,
        width,
        rw e (elim (ℕ_discrete w 1) [
          | yes one ↦ let t : (w == 1) ≡ true = ground arith in inr (_, rw t refl, d, inl one)
          | no ne ↦
              let t : (w == 1) ≡ false = ground arith in
              elim (Bool-cases (h.allocates (length raw * w))) [
                | inl b ↦ inr (_, rw (t, b) refl, d, inr b)
                | inr b ↦ inl (rw (t, b) refl, ne, b)
              ]
        ]),
      )
]
