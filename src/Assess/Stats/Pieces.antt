-- ===== src/Assess/Stats/Pieces.antt =====
-- Substrings, bit patterns and the command line, against independent descriptions.
use Prim.Native.Nat.{bit_or, bit_and}
use native.Mathlib.Nat.{
  div-div-eq-div-mul, div-le_self, div-eq_of_lt, pow-le-pow_right, lt_of_le_of_lt, lt_of_lt_of_le,
}
use mathlib.Core.List.{append-nil, append_assoc}
use is_there_entropy_down_th.Common.{
  ℕ, zero, suc, ◌+◌, ◌-◌, ◌*◌, ◌/◌, ◌%◌, ◌^◌, ◌≤◌, ◌<◌, ◌≡◌, ◌∙◌, refl, sym, ap, some, List, [],
  ◌∷◌, ◌++◌, leb, ltb, arith, Bool-cases, inl, inr, length, take, drop, set, get_elem?, replicate,
  length-append, length-drop, true, false,
}
use is_there_entropy_down_th.Common.Words.{u32}
use is_there_entropy_down_th.Common.BitAnd.{bit_and_bit}
use is_there_entropy_down_th.Common.BitOr.{bit_or_bit}
use is_there_entropy_down_th.Assess.Samples.{bits_from}
use is_there_entropy_down_th.Assess.Stats.{
  copy_from, substr, store_from, fast_substr, compress_from, compressed_bit_symbols,
}

drop_at :
    (xs : List ℕ) (k : ℕ)
    → k < length xs
    → (x : ℕ) × (get_elem? xs k ≡ some x) × (drop k xs ≡ x ∷ drop (suc k) xs)
drop_at [] k h = absurd (omega arith)
drop_at (x ∷ xs) zero h = (x, refl, refl)
drop_at (x ∷ xs) (suc k) h = drop_at xs k (omega arith)

copy_from_lem :
    (text : List ℕ) (pos left : ℕ)
    → pos + left ≤ length text
    → copy_from text pos left ≡ some (take left (drop pos text))
unfolding copy_from
copy_from_lem text pos zero h = refl
copy_from_lem text pos (suc left) h =
    let (x, read, here) = drop_at text pos (omega arith) in
    rw read (rw here (rw (copy_from_lem text (suc pos) left (omega arith)) refl))

take_all : (n : ℕ) (xs : List ℕ) → length xs ≤ n → take n xs ≡ xs
take_all zero [] h = refl
take_all zero (x ∷ xs) h = absurd (omega arith)
take_all (suc n) [] h = refl
take_all (suc n) (x ∷ xs) h = ap (λ u. x ∷ u) (take_all n xs (omega arith))

drop_past : (n : ℕ) (xs : List ℕ) → length xs ≤ n → drop n xs ≡ []
drop_past zero [] h = refl
drop_past zero (x ∷ xs) h = absurd (omega arith)
drop_past (suc n) [] h = refl
drop_past (suc n) (x ∷ xs) h = drop_past n xs (omega arith)

abbrev no_symbols : List ℕ
no_symbols = []

take-nil : (n : ℕ) → take n no_symbols ≡ no_symbols
take-nil zero = refl
take-nil (suc n) = refl

leb-false : (a b : ℕ) → b < a → leb a b ≡ false
leb-false a b h = ground arith

leb-true : (a b : ℕ) → a ≤ b → leb a b ≡ true
leb-true a b h = ground arith

-- Within int, `substr` gives the symbols from pos on, at most len of them and none past the end.
pub substr-take :
    (text : List ℕ) (pos len : ℕ)
    → pos + len < 2 ^ 31
    → substr text pos len (length text) ≡ some (take len (drop pos text))
unfolding substr copy_from
substr-take text pos len h = elim (Bool-cases (ltb (length text) (pos + len))) [
  | inr fits ↦
      rw (leb-false (2 ^ 31) (pos + len) h) (rw fits (copy_from_lem text pos len (ground arith)))
  | inl clipped ↦ rw (leb-false (2 ^ 31) (pos + len) h) (
      rw clipped (elim (Bool-cases (leb pos (length text))) [
        | inl inside ↦
            let size = length-drop pos text in
            copy_from_lem text pos (length text - pos) (ground arith)
            ∙ ap some (
                take_all (length text - pos) (drop pos text) (omega (arith, size))
                ∙ sym (take_all len (drop pos text) (ground (arith, size))))
        | inr past ↦
            let none_left : length text - pos ≡ 0 = ground arith in
            rw none_left (rw (drop_past pos text (ground arith)) (ap some (sym (take-nil len))))
      ]))
]

set-append :
    (pre rest : List ℕ) (a x i : ℕ)
    → i ≡ length pre
    → set (pre ++ a ∷ rest) i x ≡ (pre ++ x ∷ []) ++ rest
set-append [] rest a x zero e = refl
set-append [] rest a x (suc i) e = absurd (omega arith)
set-append (p ∷ pre) rest a x zero e = absurd (omega arith)
set-append (p ∷ pre) rest a x (suc i) e = ap (λ u. p ∷ u) (set-append pre rest a x i (omega arith))

get_elem?-append :
    (pre rest : List ℕ) (a i : ℕ) → i ≡ length pre → get_elem? (pre ++ a ∷ rest) i ≡ some a
get_elem?-append [] rest a zero e = refl
get_elem?-append [] rest a (suc i) e = absurd (omega arith)
get_elem?-append (p ∷ pre) rest a zero e = absurd (omega arith)
get_elem?-append (p ∷ pre) rest a (suc i) e = get_elem?-append pre rest a i (omega arith)

store_from_lem :
    (text pre : List ℕ) (pos left m i : ℕ)
    → i ≡ length pre
    → left ≤ m
    → pos + i + left ≤ length text
    → store_from text (pre ++ replicate m 0) pos left i
      ≡ some (pre ++ take left (drop (pos + i) text) ++ replicate (m - left) 0)
unfolding store_from
store_from_lem text pre pos zero m i e h inside =
    let all_left : m ≡ m - 0 = omega arith in
    rw (append-nil pre) (ap (λ k. some (pre ++ replicate k 0)) all_left)
store_from_lem text pre pos (suc left) zero i e h inside = absurd (omega arith)
store_from_lem text pre pos (suc left) (suc m) i e h inside =
    let (x, read, here) = drop_at text (pos + i) (omega arith) in
    let next : pos + suc i ≡ suc (pos + i) = omega arith in
    let fewer : m - left ≡ suc m - suc left = omega arith in
    let rest =
      store_from_lem text (pre ++ x ∷ []) pos left m (suc i)
        (omega (arith, length-append pre (x ∷ []))) (omega arith) (omega arith) in
    rw read (
      rw (get_elem?-append pre (replicate m 0) 0 i e) (
        rw (set-append pre (replicate m 0) 0 x i e) (
          rw here (
            rest
            ∙ ap (λ u. some (u ++ replicate (m - left) 0))
                (append_assoc pre (x ∷ []) _ ∙ ap (λ k. pre ++ x ∷ take left (drop k text)) next)
            ∙ ap (λ k. some (pre ++ x ∷ take left (drop (suc (pos + i)) text) ++ replicate k 0))
                fewer))))

-- The substring of up to 16 symbols inside the text, filled up with 0.
pub fast_substr-take :
    (text : List ℕ) (pos len : ℕ)
    → len ≤ 16
    → pos + len ≤ length text
    → fast_substr text pos len ≡ some (take len (drop pos text) ++ replicate (16 - len) 0)
unfolding fast_substr
fast_substr-take text pos len h inside =
    store_from_lem text [] pos len 16 0 refl h (omega arith)
    ∙ ap (λ k. some (take len (drop k text) ++ replicate (16 - len) 0)) (omega arith)

compress_from-bits_from :
    (w s p : ℕ) → s < 2 ^ 32 → p ≡ s / 2 ^ w → compress_from p (bits_from w s) ≡ some s
unfolding compress_from bits_from
compress_from-bits_from zero s p hs e = ap some (omega (arith, e))
compress_from-bits_from (suc w) s p hs e =
    let bit = bit_and_bit (s / 2 ^ w) in
    let next : bit_or (u32 (p * 2)) (bit_and (s / 2 ^ w) 1) ≡ s / 2 ^ w =
      let q = s / 2 ^ w in
      let power : 2 ^ suc w ≡ 2 ^ w * 2 = omega arith in
      let half : p ≡ q / 2 = e ∙ ap (λ k. s / k) power ∙ sym (div-div-eq-div-mul s (2 ^ w) 2) in
      let small : q < 2 ^ 32 = lt_of_le_of_lt (div-le_self s (2 ^ w)) hs in
      let whole : u32 (p * 2) ≡ p * 2 = omega (arith, half, small) in
      (λ i. bit_or (whole i) (bit i)) ∙ bit_or_bit p (q % 2) (omega arith) ∙ omega (arith, half) in
    rw (leb-true (bit_and (s / 2 ^ w) 1) 1 (omega (arith, bit)))
      (compress_from-bits_from w s _ hs next)

length-bits_from : (w s : ℕ) → length (bits_from w s) ≡ w
unfolding bits_from
length-bits_from zero s = refl
length-bits_from (suc w) s = ap suc (length-bits_from w s)

-- The pattern of the bits of a symbol is the symbol.
pub compress-bits_from :
    (w s : ℕ) → w ≤ 32 → s < 2 ^ w → compressed_bit_symbols (bits_from w s) ≡ some s
unfolding compressed_bit_symbols
compress-bits_from w s h hs =
    rw (leb-true (length (bits_from w s)) 32 (omega (arith, length-bits_from w s))) (
      compress_from-bits_from w s 0 (lt_of_lt_of_le hs (pow-le-pow_right (omega arith) h))
        (sym (div-eq_of_lt hs)))
