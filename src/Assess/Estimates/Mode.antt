-- ===== src/Assess/Estimates/Mode.antt =====
-- The mode of the most common value estimate.
use mathlib.Core.Path.{subst}
use native.Mathlib.Decide.{ℕ_discrete, dec_lt}
use is_there_entropy_down_th.Common.{
  ℕ, zero, suc, ◌+◌, ◌≤◌, ◌<◌, ◌≡◌, ◌⊎◌, ◌∙◌, refl, sym, Option, some, List, [], ◌∷◌, if◌then◌else◌,
  ltb, ◌==◌, length, set, get_elem?, get_or, replicate, AllBelow, Bool-cases, inl, inr, arith,
  length-set, length-replicate, get_elem?_total, get_or-set_self, get_or-set_ne, get_or-replicate,
}
use is_there_entropy_down_th.Assess.Estimates.{count_symbols, mode_from, mode_of}

abbrev pub occurrences : ℕ → List ℕ → ℕ
occurrences c [] = 0
occurrences c (x ∷ samples) = (if x == c then 1 else 0) + occurrences c samples

get_or-get_elem? : (xs : List ℕ) (i n : ℕ) → get_elem? xs i ≡ some n → get_or xs i 0 ≡ n
get_or-get_elem? [] i n e = cc
get_or-get_elem? (x ∷ xs) zero n e = cc
get_or-get_elem? (x ∷ xs) (suc i) n e = get_or-get_elem? xs i n e

record Counted (samples counts : List ℕ) (r : Option (List ℕ)) : Type 0 where
  counts' : List ℕ
  result : r ≡ some counts'
  size : length counts' ≡ length counts
  entries :
      (c : ℕ) → c < length counts → get_or counts' c 0 ≡ get_or counts c 0 + occurrences c samples

count_symbols-Counted :
    (samples counts : List ℕ)
    → AllBelow (length counts) samples
    → Counted samples counts (count_symbols samples counts)
unfolding count_symbols
count_symbols-Counted [] counts h = record {
  counts' = counts;
  result = refl;
  size = refl;
  entries = λ c hc. omega arith;
}
count_symbols-Counted (x ∷ samples) counts (hx, h) =
    let (n, e) = get_elem?_total counts x hx in
    let size = length-set counts x (suc n) in
    let r =
      count_symbols-Counted samples (set counts x (suc n))
        (subst (λ k. AllBelow k samples) (sym size) h) in
    record {
      counts' = r.counts';
      result = rw e r.result;
      size = r.size ∙ size;
      entries = λ c hc. r.entries c (omega (arith, size)) ∙ (elim (ℕ_discrete x c) [
        | yes same ↦
            let here = get_or-set_self counts x (suc n) 0 hx in
            let here' : get_or (set counts x (suc n)) c 0 ≡ suc n =
              subst (λ u. get_or (set counts x (suc n)) u 0 ≡ suc n) same here in
            let before : get_or counts c 0 ≡ n =
              subst (λ u. get_or counts u 0 ≡ n) same (get_or-get_elem? counts x n e) in
            ground (arith, here', before, same)
        | no ne ↦ ground (arith, get_or-set_ne counts x c (suc n) 0 ne, ne)
      ]);
    }

-- The mode is at least each count, and one of them or where it began.
mode_from_lem :
    (m : ℕ) (counts : List ℕ)
    → (m ≤ mode_from m counts)
      × ((c : ℕ) → c < length counts → get_or counts c 0 ≤ mode_from m counts)
      × ((mode_from m counts ≡ m)
          ⊎ (c : ℕ) × (c < length counts) × (get_or counts c 0 ≡ mode_from m counts))
unfolding mode_from
mode_from_lem m [] = (omega arith, λ c h. absurd (omega (arith, h)), inl refl)
mode_from_lem m (n ∷ counts) =
    let m' = if ltb m n then n else m in
    let (up, all, which) = mode_from_lem m' counts in
    (
      ground (arith, up),
      mode_cases n counts m m' (ground arith) up all,
      elim which [
        | inr (c, hc, e) ↦ inr (suc c, omega arith, e)
        | inl e ↦ elim (Bool-cases (ltb m n)) [
          | inl b ↦ inr (zero, omega arith, ground (arith, e))
          | inr b ↦ inl (ground (arith, e))
        ]
      ],
    )
  where
    mode_cases :
        (n : ℕ) (counts : List ℕ) (m m' : ℕ)
        → n ≤ m'
        → m' ≤ mode_from m' counts
        → ((c : ℕ) → c < length counts → get_or counts c 0 ≤ mode_from m' counts)
        → (c : ℕ) → c < length (n ∷ counts)
        → get_or (n ∷ counts) c 0 ≤ mode_from m' counts
    mode_cases n counts m m' h up all zero hc = omega arith
    mode_cases n counts m m' h up all (suc c) hc = all c (omega arith)

occurrences-zero :
    (c n : ℕ) (samples : List ℕ) → n ≤ c → AllBelow n samples → occurrences c samples ≡ zero
occurrences-zero c n [] h hs = refl
occurrences-zero c n (x ∷ samples) h (hx, hs) = ground (arith, occurrences-zero c n samples h hs)

-- On symbols of the alphabet the mode is defined, no symbol occurs more often, and one occurs as
-- often, unless there are no samples and it is 0.
pub mode_of-occurrences :
    (samples : List ℕ) (alph_size : ℕ)
    → AllBelow alph_size samples
    → (mode : ℕ) × (mode_of samples alph_size ≡ some mode)
      × ((c : ℕ) → occurrences c samples ≤ mode)
      × ((mode ≡ 0) ⊎ (c : ℕ) × (c < alph_size) × (occurrences c samples ≡ mode))
unfolding mode_of
mode_of-occurrences samples alph_size h =
    let size = length-replicate alph_size zero in
    let r =
      count_symbols-Counted samples (replicate alph_size zero)
        (subst (λ k. AllBelow k samples) (sym size) h) in
    let (_, all, which) = mode_from_lem 0 r.counts' in
    let counted : (c : ℕ) → c < alph_size → get_or r.counts' c 0 ≡ occurrences c samples =
      λ c hc. omega (arith, r.entries c (omega (arith, size)), get_or-replicate alph_size zero c) in
    (
      mode_from 0 r.counts',
      rw r.result refl,
      λ c. elim (dec_lt c alph_size) [
        | yes hc ↦ omega (arith, counted c hc, all c (omega (arith, r.size, size)))
        | no above ↦ omega (arith, occurrences-zero c alph_size samples (omega arith) h)
      ],
      elim which [
        | inl e ↦ inl e
        | inr (c, hc, e) ↦
            let below : c < alph_size = omega (arith, r.size, size) in
            inr (c, below, sym (counted c below) ∙ e)
      ],
    )
