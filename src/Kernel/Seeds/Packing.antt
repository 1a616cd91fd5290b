-- ===== src/Kernel/Seeds/Packing.antt =====
-- What eight sampled calls leave in the seed, and where the ninth stores it.
use native.Mathlib.Nat.{pow-suc}
use is_there_entropy_down_th.Common.{
  ℕ, zero, suc, ◌+◌, ◌*◌, ◌%◌, ◌^◌, ◌≤◌, ◌<◌, ◌≡◌, ◌≢◌, ◌∙◌, refl, ap, some, List, [], ◌∷◌, ◌++◌,
  arith, length, get_elem?, get_elem?-set_self, get_elem?-set_ne, length-set, inl, inr, ◌>>=◌,
  Option-cases,
}
use is_there_entropy_down_th.Common.Words.{sign_extend32, sub64, minus_one64}
use is_there_entropy_down_th.Kernel.Seeds.{KhState, run, try_timer_kh, add_bits}
use is_there_entropy_down_th.Kernel.Seeds.Bits.{add_bits-eq}
use is_there_entropy_down_th.Kernel.Seeds.Branches.{
  IsFar, sampled, stored, call_within, call_boundary,
}

-- The low four bits of each delta from `start`, the first call's lowest.
abbrev pub pack : (start : ℕ) → List ℕ → ℕ
pack start [] = 0
pack start (t ∷ ts) = sub64 t start % 16 + 16 * pack start ts

abbrev pub AllFar : (start : ℕ) → List ℕ → Type 0
AllFar start [] = Unit
AllFar start (t ∷ ts) = IsFar start t × AllFar start ts

-- Below the eighth digit there is no sign bit to carry.
digit_bound : (j : ℕ) → j < 7 → 16 ^ j ≤ 16 ^ 6
digit_bound zero h = omega arith
digit_bound (suc zero) h = omega arith
digit_bound (suc (suc zero)) h = omega arith
digit_bound (suc (suc (suc zero))) h = omega arith
digit_bound (suc (suc (suc (suc zero)))) h = omega arith
digit_bound (suc (suc (suc (suc (suc zero))))) h = omega arith
digit_bound (suc (suc (suc (suc (suc (suc zero)))))) h = omega arith
digit_bound (suc (suc (suc (suc (suc (suc (suc j))))))) h = absurd (omega arith)

module _ (j seed d : ℕ) (below : j < 7) (fits : seed < 16 ^ j) where
  digit_fits : seed + d % 16 * 16 ^ j < 16 ^ suc j
  digit_fits = rw pow-suc (grind arith)

  add_bits_low : add_bits seed d j ≡ seed + d % 16 * 16 ^ j
  add_bits_low =
      add_bits-eq seed d j (omega arith) fits
      ∙ ground (arith, digit_fits, digit_bound j, pow-suc 16 j)

pub run-append : (s : KhState) (ts us : List ℕ) → run s (ts ++ us) ≡ (run s ts >>= λ s'. run s' us)
unfolding run
run-append s [] us = refl
run-append s (t ∷ ts) us = elim (Option-cases (try_timer_kh s t)) [
  | inl e ↦ rw e
  | inr (s', e) ↦ rw e (run-append s' ts us)
]

run_around :
    (s s1 s2 s3 : KhState) (t : ℕ) (us : List ℕ) (last : ℕ)
    → try_timer_kh s t ≡ some s1
    → run s1 us ≡ some s2
    → try_timer_kh s2 last ≡ some s3
    → run s ((t ∷ us) ++ last ∷ []) ≡ some s3
unfolding run
run_around s s1 s2 s3 t us last first middle end =
    rw (first, run-append s1 us (last ∷ []), middle, end)

-- Sampling calls inside one seed: the digits pile up, and nothing is stored.
record IsCollected (j : ℕ) (s s' : KhState) (ts : List ℕ) : Type 0 where
  seed : s'.seed ≡ sign_extend32 (s.seed + 16 ^ j * pack s.last_timestamp ts)
  times : s'.global_times ≡ s.global_times + length ts
  index : s'.seeds_index ≡ s.seeds_index
  start : s'.last_timestamp ≡ s.last_timestamp
  seeds : s'.timer_seeds ≡ s.timer_seeds

module _ (s : KhState) (t j : ℕ) (at : s.global_times % 8 ≡ j) (bound : s.seed < 16 ^ j) where
  abbrev digit : ℕ
  digit = sub64 t s.last_timestamp % 16

  last_digit : j < 8 → (sampled s t s).seed ≡ sign_extend32 (s.seed + digit * 16 ^ j)
  last_digit below = rw at (add_bits-eq s.seed (sub64 t s.last_timestamp) j below bound)

  low_digit : j < 7 → (sampled s t s).seed ≡ s.seed + digit * 16 ^ j
  low_digit below = rw at (add_bits_low j s.seed (sub64 t s.last_timestamp) below bound)

  low_digit_fits : j < 7 → (sampled s t s).seed < 16 ^ suc j
  low_digit_fits below =
      rw (low_digit below) (digit_fits j s.seed (sub64 t s.last_timestamp) below bound)

regroup : (seed d w p : ℕ) → seed + d * w + w * 16 * p ≡ seed + w * (d + 16 * p)
regroup seed d w p = omega arith

carry :
    (s : KhState) (t j : ℕ)
    → s.global_times % 8 ≡ j
    → s.seed < 16 ^ j
    → j < 7
    → (p : ℕ)
    → (sampled s t s).seed + 16 ^ suc j * p
      ≡ s.seed + 16 ^ j * (sub64 t s.last_timestamp % 16 + 16 * p)
carry s t j at bound below p =
    rw (low_digit s t j at bound below, pow-suc 16 j) (regroup s.seed _ (16 ^ j) p)

one_digit : (seed d w : ℕ) → seed + d * w ≡ seed + w * (d + 16 * 0)
one_digit seed d w = omega arith

run_within :
    (ts : List ℕ) (t : ℕ) (s : KhState) (j : ℕ)
    → AllFar s.last_timestamp (t ∷ ts)
    → s.seeds_index < 20
    → s.last_timestamp ≢ minus_one64
    → s.global_times + length (t ∷ ts) < 2 ^ 31
    → s.global_times % 8 ≡ j
    → 0 < j
    → j + length (t ∷ ts) ≤ 8
    → s.seed < 16 ^ j
    → (s' : KhState) × (run s (t ∷ ts) ≡ some s') × IsCollected j s s' (t ∷ ts)
unfolding run
run_within [] t s j far room started small at pos fits bound = (
  sampled s t s,
  rw (call_within s t room started (omega arith) far.0 (inl (omega arith))),
  record {
    seed = last_digit s t j at bound (omega arith) ∙ ap sign_extend32 (one_digit s.seed _ (16 ^ j));
    times = omega arith;
    index = refl;
    start = refl;
    seeds = refl;
  },
)
run_within (u ∷ ts) t s j far room started small at pos fits bound =
    let s1 = sampled s t s in
    let (s2, e2, c) =
      run_within ts u s1 (suc j) far.1 room started (omega arith) (omega arith) (omega arith)
        (omega arith) (low_digit_fits s t j at bound (omega arith)) in
    (
      s2,
      rw (call_within s t room started (omega arith) far.0 (inl (omega arith))) e2,
      record {
        seed =
            c.seed
            ∙ ap sign_extend32
                (carry s t j at bound (omega arith) (pack s.last_timestamp (u ∷ ts)));
        times = omega (arith, c.times);
        index = c.index;
        start = c.start;
        seeds = c.seeds;
      },
    )

first_digit :
    (s : KhState) (t : ℕ)
    → s.global_times % 8 ≡ 0
    → (sampled s t (stored s)).seed ≡ sub64 t s.last_timestamp % 16
first_digit s t complete =
    rw complete
      (add_bits_low 0 0 (sub64 t s.last_timestamp) (omega arith) (omega arith) ∙ omega arith)

module _ (s : KhState) (room : s.seeds_index < 19) (full_size : length s.timer_seeds ≡ 20)
    (started : s.last_timestamp ≢ minus_one64) (called : 0 < s.global_times)
    (complete : s.global_times % 8 ≡ 0) (small : s.global_times + 9 < 2 ^ 31) where
  -- When a seed is complete and the next nine deltas are all over 1000, the complete seed goes to
  -- the index and the next one after it: the low four bits of the eight deltas, the first call's
  -- lowest, as a 32-bit pattern widened with its sign.
  pub run-timer_seeds :
      (t u : ℕ) (ts : List ℕ) (last : ℕ)
      → length ts ≡ 6
      → AllFar s.last_timestamp (t ∷ u ∷ ts)
      → IsFar s.last_timestamp last
      → (s' : KhState) × (run s ((t ∷ u ∷ ts) ++ last ∷ []) ≡ some s')
        × (get_elem? s'.timer_seeds s.seeds_index ≡ some s.seed)
        × (get_elem? s'.timer_seeds (s.seeds_index + 1)
            ≡ some (sign_extend32 (pack s.last_timestamp (t ∷ u ∷ ts))))
        × (s'.seeds_index ≡ s.seeds_index + 2)
  run-timer_seeds t u ts last six far far_last =
      let s1 = sampled s t (stored s) in
      let low = first_digit s t complete in
      let (s2, e2, c) =
        run_within ts u s1 1 far.1 (omega arith) started (omega arith) (omega arith) (omega arith)
          (omega arith) (omega arith) in
      let size2 : length s2.timer_seeds ≡ 20 =
        ap length c.seeds ∙ length-set s.timer_seeds s.seeds_index s.seed ∙ full_size in
      let index2 : s2.seeds_index ≡ s.seeds_index + 1 = c.index in
      let last_call : try_timer_kh s2 last ≡ some (sampled s2 last (stored s2)) =
        call_boundary s2 last (omega arith) (rw c.start started) (omega (arith, c.times))
          (rw c.start far_last) (omega (arith, c.times)) (omega (arith, c.times)) in
      let packed : s2.seed ≡ sign_extend32 (pack s.last_timestamp (t ∷ u ∷ ts)) =
        c.seed ∙ ap sign_extend32 (two_digits _ low) in
      (
        sampled s2 last (stored s2),
        run_around s s1 s2 _ t (u ∷ ts) last
            (call_boundary s t (omega arith) started (omega arith) far.0 complete called) e2
            last_call,
        get_elem?-set_ne s2.timer_seeds s2.seed (omega arith)
            ∙ ap (λ l. get_elem? l s.seeds_index) c.seeds
            ∙ get_elem?-set_self s.timer_seeds s.seeds_index s.seed (omega arith),
        rw (← index2) (
            get_elem?-set_self s2.timer_seeds s2.seeds_index s2.seed (omega arith)
            ∙ ap some packed),
        omega arith,
      )
    where
      two_digits : {x d : ℕ} (p : ℕ) → x ≡ d → x + 16 ^ 1 * p ≡ d + 16 * p
      two_digits p e = omega arith
