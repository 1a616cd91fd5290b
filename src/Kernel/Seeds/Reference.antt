-- ===== src/Kernel/Seeds/Reference.antt =====
-- What the deltas are measured from, and what a delta that is not over 1000 does to a complete seed.
use is_there_entropy_down_th.Common.{
  ℕ, ◌+◌, ◌-◌, ◌*◌, ◌%◌, ◌^◌, ◌≤◌, ◌<◌, ◌≡◌, ◌≢◌, ◌∙◌, refl, ap, some, List, [], ◌∷◌, arith, length,
  inl, inr, ◌⊎◌, false,
}
use native.Mathlib.Decide.{dec_lt}
use is_there_entropy_down_th.Common.Words.{sub64, minus_one64, gt_signed64}
use is_there_entropy_down_th.Kernel.Seeds.{
  KhState, kh_initial, run, try_timer_kh, count_call, add_bits,
}
use is_there_entropy_down_th.Kernel.Seeds.Branches.{
  IsFar, with_delta, sampled, call_first, call_near, call_within,
}
use is_there_entropy_down_th.Kernel.Seeds.Step.{
  Call, full, first, near, within, boundary, try_timer_kh-Call,
}
use is_there_entropy_down_th.Kernel.Seeds.Valid.{IsValid, initial-IsValid, Call-IsValid}
use is_there_entropy_down_th.Kernel.Seeds.Runs.{run-IsValid, Call-global_times}

-- From any boot sequence the seeds stored are at most one for eight calls, the first call not
-- counted: the index times eight is at most the number of calls less one.
pub run-seeds_index-le :
    (ts : List ℕ)
    → length ts < 2 ^ 31
    → (s' : KhState) × (run kh_initial ts ≡ some s')
      × (s'.seeds_index * 8 ≤ length ts - 1)
      × (s'.seeds_index ≤ 20)
run-seeds_index-le ts small =
    let (s', e, v, b) = run-IsValid ts kh_initial initial-IsValid (omega arith) in
    (s', e, omega (arith, v.paced), v.index)

Call-last_timestamp :
    {s : KhState} {t : ℕ} {s' : KhState}
    → s.last_timestamp ≢ minus_one64
    → Call s t s'
    → s'.last_timestamp ≡ s.last_timestamp
Call-last_timestamp st (full _) = refl
Call-last_timestamp st (first _ e) = absurd (st e)
Call-last_timestamp st (near _ _ _) = refl
Call-last_timestamp st (within _ _ _ _) = refl
Call-last_timestamp st (boundary _ _ _ _ _) = refl

Call-last_delta :
    {s : KhState} {t : ℕ} {s' : KhState}
    → s.last_timestamp ≢ minus_one64
    → Call s t s'
    → s.seeds_index < 20
    → s'.last_delta ≡ sub64 t s.last_timestamp
Call-last_delta st (full h) r = absurd (omega arith)
Call-last_delta st (first _ e) r = absurd (st e)
Call-last_delta st (near _ _ _) r = refl
Call-last_delta st (within _ _ _ _) r = refl
Call-last_delta st (boundary _ _ _ _ _) r = refl

run-last_timestamp :
    (ts : List ℕ) (s : KhState)
    → IsValid s
    → s.global_times + length ts < 2 ^ 31
    → s.last_timestamp ≢ minus_one64
    → (s' : KhState) × (run s ts ≡ some s')
      × IsValid s'
      × (s'.global_times ≤ s.global_times + length ts)
      × (s'.last_timestamp ≡ s.last_timestamp)
unfolding run
run-last_timestamp [] s v h st = (s, refl, v, omega arith, refl)
run-last_timestamp (t ∷ ts) s v h st =
    let (s1, e1, c) = try_timer_kh-Call s t (omega arith) (omega (arith, v.index)) in
    let small : s.global_times + 1 < 2 ^ 32 = omega arith in
    let paced = Call-global_times small c in
    let same = Call-last_timestamp st c in
    let (s2, e2, v2, b, l) =
      run-last_timestamp ts s1 (Call-IsValid small c v) (omega arith) (rw same st) in
    (s2, rw e1 e2, v2, omega arith, l ∙ same)

-- From boot, with a first call at `begin`, fewer than 2 ^ 31 calls leave LAST_TIMESTAMP at `begin`,
-- and the last of them stores in LAST_DELTA its distance from `begin`, not from the call before it,
-- unless the array is full.
pub run-last_delta :
    (begin : ℕ) (ts : List ℕ) (t : ℕ)
    → begin ≢ minus_one64
    → length ts + 1 < 2 ^ 31
    → (s1 s2 : KhState) × (run kh_initial (begin ∷ ts) ≡ some s1)
      × (try_timer_kh s1 t ≡ some s2)
      × (s2.last_timestamp ≡ begin)
      × ((20 ≤ s1.seeds_index) ⊎ (s2.last_delta ≡ sub64 t begin))
unfolding run
run-last_delta begin ts t ne small =
    let s0 = record kh_initial { last_timestamp = begin } in
    let v0 : IsValid s0 = record {
      size = initial-IsValid.size;
      index = initial-IsValid.index;
      unused = initial-IsValid.unused;
      paced = initial-IsValid.paced;
    } in
    let (s1, e1, v1, b1, l1) = run-last_timestamp ts s0 v0 (omega arith) ne in
    let (s2, e2, c) = try_timer_kh-Call s1 t (omega arith) (omega (arith, v1.index)) in
    (
      s1,
      s2,
      rw (call_first kh_initial begin (omega arith) refl) e1,
      e2,
      Call-last_timestamp (rw l1 ne) c ∙ l1,
      elim (dec_lt s1.seeds_index 20) [
        | yes room ↦ inr (Call-last_delta (rw l1 ne) c room ∙ ap (sub64 t) l1)
        | no end ↦ inl (omega arith)
      ],
    )

-- A complete seed is not stored if the next delta is not over 1000: the call after it adds its bits
-- to the second digit of that seed, and the array and the index stay as they were.
pub run-missed :
    (s : KhState) (t u : ℕ)
    → s.seeds_index < 20
    → s.last_timestamp ≢ minus_one64
    → s.global_times + 2 < 2 ^ 31
    → s.global_times % 8 ≡ 0
    → gt_signed64 (sub64 t s.last_timestamp) 1000 ≡ false
    → IsFar s.last_timestamp u
    → (s' : KhState) × (run s (t ∷ u ∷ []) ≡ some s')
      × (s'.seed ≡ add_bits s.seed (sub64 u s.last_timestamp) 1)
      × (s'.timer_seeds ≡ s.timer_seeds)
      × (s'.seeds_index ≡ s.seeds_index)
unfolding run
run-missed s t u room st small complete not_far far =
    let s1 = count_call (with_delta s t) in
    let one : s1.global_times % 8 ≡ 1 = omega arith in
    (
      sampled s1 u s1,
      rw (
        call_near s t room st not_far,
        call_within s1 u room st (omega arith) far (inl (omega arith)),
      ),
      rw one,
      refl,
      refl,
    )
