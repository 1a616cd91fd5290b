-- ===== src/Kernel/Seeds/Count.antt =====
-- How many seeds a boot collects, and what the deltas are measured from.
use Prim.Native.Nat.{min}
use is_there_entropy_down_th.Common.{
  ℕ, ◌+◌, ◌-◌, ◌/◌, ◌≤◌, ◌≡◌, ◌≢◌, refl, some, List, [], ◌∷◌, arith, length,
}
use is_there_entropy_down_th.Common.Words.{minus_one64}
use is_there_entropy_down_th.Kernel.Seeds.{KhState, kh_initial, run}
use is_there_entropy_down_th.Kernel.Seeds.Branches.{IsFar, call_first}
use is_there_entropy_down_th.Kernel.Seeds.Step.{
  Call, full, first, near, within, boundary, try_timer_kh-Call,
}
use is_there_entropy_down_th.Kernel.Seeds.Packing.{AllFar}

-- The index follows the call counter, which stops at 161 with the array full.
record IsPaced (s : KhState) : Type 0 where
  calls : s.global_times ≤ 161
  index : s.seeds_index ≡ (s.global_times - 1) / 8
  started : s.last_timestamp ≢ minus_one64

module _ {s : KhState} {t : ℕ} where
  Call-IsPaced :
      {s' : KhState}
      → Call s t s'
      → IsFar s.last_timestamp t
      → IsPaced s
      → IsPaced s'
        × (s'.global_times ≡ min (s.global_times + 1) 161)
        × (s'.last_timestamp ≡ s.last_timestamp)
  Call-IsPaced (full h) far p = (p, omega arith, refl)
  Call-IsPaced (first r e) far p = absurd (p.started e)
  Call-IsPaced (near r st n) far p = absurd (ground arith)
  Call-IsPaced (within r st f w) far p =
      (record { calls = omega arith; index = omega arith; started = p.started }, omega arith, refl)
  Call-IsPaced (boundary r st f b pos) far p =
      (record { calls = omega arith; index = omega arith; started = p.started }, omega arith, refl)

run-IsPaced :
    (ts : List ℕ) (s : KhState)
    → IsPaced s
    → AllFar s.last_timestamp ts
    → (s' : KhState) × (run s ts ≡ some s')
      × IsPaced s'
      × (s'.global_times ≡ min (s.global_times + length ts) 161)
unfolding run
run-IsPaced [] s p far = (s, refl, p, omega (arith, p.calls))
run-IsPaced (t ∷ ts) s p (far, fars) =
    let (s1, e1, c) =
      try_timer_kh-Call s t (omega (arith, p.calls)) (omega (arith, p.calls, p.index)) in
    let (p1, g1, l1) = Call-IsPaced c far p in
    let (s2, e2, p2, g2) = run-IsPaced ts s1 p1 (rw l1 fars) in (s2, rw e1 e2, p2, omega arith)

-- From boot, n calls after the first that are all over 1000 past it store (n - 1) / 8 seeds, and at
-- most twenty.
pub run-seeds_index :
    (t : ℕ) (ts : List ℕ)
    → t ≢ minus_one64
    → AllFar t ts
    → (s' : KhState) × (run kh_initial (t ∷ ts) ≡ some s')
      × (s'.seeds_index ≡ min ((length ts - 1) / 8) 20)
unfolding run
run-seeds_index t ts ne far =
    let s1 = record kh_initial { last_timestamp = t } in
    let p1 : IsPaced s1 = record { calls = omega arith; index = omega arith; started = ne } in
    let (s', e, p, g) = run-IsPaced ts s1 p1 far in
    (s', rw (call_first kh_initial t (omega arith) refl) e, omega (arith, p.index))
