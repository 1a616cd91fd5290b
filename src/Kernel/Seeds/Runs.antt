-- ===== src/Kernel/Seeds/Runs.antt =====
-- Sequences of calls from any valid state: they are defined, keep the invariant, and freeze once the
-- array is full.
use is_there_entropy_down_th.Common.{
  ℕ, ◌+◌, ◌^◌, ◌≤◌, ◌<◌, ◌≡◌, refl, some, List, [], ◌∷◌, length, arith,
}
use is_there_entropy_down_th.Kernel.Seeds.{KhState, run}
use is_there_entropy_down_th.Kernel.Seeds.Branches
use is_there_entropy_down_th.Kernel.Seeds.Step.{
  Call, full, first, near, within, boundary, try_timer_kh-Call,
}
use is_there_entropy_down_th.Kernel.Seeds.Valid.{IsValid, Call-IsValid}

pub Call-global_times :
    {s : KhState} {t : ℕ} {s' : KhState}
    → s.global_times + 1 < 2 ^ 32
    → Call s t s'
    → s'.global_times ≤ s.global_times + 1
Call-global_times h (full _) = omega arith
Call-global_times h (first _ _) = omega arith
Call-global_times h (near _ _ _) = omega arith
Call-global_times h (within _ _ _ _) = omega arith
Call-global_times h (boundary _ _ _ _ _) = omega arith

-- Fewer than 2 ^ 31 calls are all defined, whatever the timer shows: no write leaves the array, no
-- shift amount is negative, and the invariant holds after them.
pub run-IsValid :
    (ts : List ℕ) (s : KhState)
    → IsValid s
    → s.global_times + length ts < 2 ^ 31
    → (s' : KhState) × (run s ts ≡ some s')
      × IsValid s'
      × (s'.global_times ≤ s.global_times + length ts)
unfolding run
run-IsValid [] s v h = (s, refl, v, omega arith)
run-IsValid (t ∷ ts) s v h =
    let (s1, e1, c) = try_timer_kh-Call s t (omega arith) (omega (arith, v.index)) in
    let small : s.global_times + 1 < 2 ^ 32 = omega arith in
    let paced = Call-global_times small c in
    let (s2, e2, v2, b) = run-IsValid ts s1 (Call-IsValid small c v) (omega arith) in
    (s2, rw e1 e2, v2, omega arith)

-- Once twenty seeds are stored, calls change nothing any more.
pub run-full :
    (ts : List ℕ) (s : KhState) → 20 ≤ s.seeds_index → s.seeds_index < 2 ^ 31 → run s ts ≡ some s
unfolding run
run-full [] s h small = refl
run-full (t ∷ ts) s h small = rw (Branches.call_full s t h small) (run-full ts s h small)
