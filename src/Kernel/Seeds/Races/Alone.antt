-- ===== src/Kernel/Seeds/Races/Alone.antt =====
-- A call with nothing in between does what the sequential model says.
use is_there_entropy_down_th.Common.{
  ℕ, zero, suc, ◌≡◌, refl, false, Option, none, some, if◌then◌else◌, ltb, ◌==◌, ◌>>=◌, Bool-cases,
  inl, inr, arith,
}
use is_there_entropy_down_th.Common.Words.{
  sub64, minus_one64, gt_signed32, ge_signed32, gt_signed64, Signed, plus, minus, rem_signed32,
}
use is_there_entropy_down_th.Kernel.Seeds.{
  KhState, seeds_capacity, store_seed, sample, count_call, try_timer_kh,
}
use is_there_entropy_down_th.Kernel.Seeds.Branches.{times_guard}
use is_there_entropy_down_th.Kernel.Seeds.Races.{Thread, finished, called, at_delta, at_seed, alone}

abbrev pub ended : Option KhState → Option (KhState × Thread)
ended none = none
ended (some s) = some (s, finished)

alone-finished : (n v : ℕ) (s : KhState) → alone n finished v s ≡ some (s, finished)
unfolding alone
alone-finished zero v s = refl
alone-finished (suc n) v s = alone-finished n v s

-- The last six accesses.
alone-at_seed :
    (v : ℕ) (s : KhState) (delta : ℕ) (times : Signed)
    → rem_signed32 s.global_times 8 ≡ times
    → alone 6 (at_seed s.global_times s.seeds_index delta) v s
      ≡ ended (do s' ← sample s delta times; some (count_call s'))
unfolding alone sample store_seed
alone-at_seed v s delta (minus t) e = rw e refl
alone-at_seed v s delta (plus (suc t)) e =
    let not_zero : (suc t == 0) ≡ false = ground arith in rw (e, not_zero) refl
alone-at_seed v s delta (plus zero) e = elim (Bool-cases (gt_signed32 s.global_times 0)) [
  | inr g ↦ rw (e, g) refl
  | inl g ↦ elim (Bool-cases (ltb s.seeds_index seeds_capacity)) [
    | inl l ↦ rw (e, g, l) refl
    | inr l ↦ rw (e, g, l) refl
  ]
]

-- From the write of LAST_DELTA on.
alone-at_delta :
    (v : ℕ) (s : KhState) (delta : ℕ)
    → alone 7 (at_delta s.global_times s.seeds_index delta) v s
      ≡ ended (do
        s' ←
            if gt_signed64 delta 1000
            then sample (record s { last_delta = delta }) delta (rem_signed32 s.global_times 8)
            else some (record s { last_delta = delta })
        some (count_call s'))
unfolding alone
alone-at_delta v s delta = elim (Bool-cases (gt_signed64 delta 1000)) [
  | inl g ↦ rw g (alone-at_seed v (record s { last_delta = delta }) delta _ refl)
  | inr g ↦ rw g (alone-finished 5 v _)
]

-- The eleven accesses of a call, with nothing in between, are the call of the sequential model, also
-- where that is undefined.
pub alone-called : (v : ℕ) (s : KhState) → alone 11 called v s ≡ ended (try_timer_kh s v)
unfolding alone try_timer_kh
alone-called v s =
    rw (times_guard s.global_times) (elim (Bool-cases (ge_signed32 s.seeds_index seeds_capacity)) [
      | inl full ↦ rw full (alone-finished 7 v s)
      | inr room ↦ elim (Bool-cases (s.last_timestamp == minus_one64)) [
        | inl e ↦ rw (room, e) refl
        | inr e ↦ rw (room, e) (alone-at_delta v s (sub64 v s.last_timestamp))
      ]
    ])
