-- ===== src/Kernel/Seeds/Branches.antt =====
-- `try_timer_kh` on each of its paths, for a call counter that has not reached the sign bit.
use is_there_entropy_down_th.Common.{
  ℕ, zero, suc, ◌+◌, ◌-◌, ◌%◌, ◌^◌, ◌≤◌, ◌<◌, ◌≡◌, ◌≢◌, refl, true, false, Option, none, some, set,
  arith, ltb, leb, ◌==◌, Bool-cases, inl, inr, ◌⊎◌, if◌then◌else◌,
}
use is_there_entropy_down_th.Common.Words.{
  u32, sub64, minus_one64, gt_signed64, ge_signed, rem_signed32, Signed, plus, minus,
}
use is_there_entropy_down_th.Common
use is_there_entropy_down_th.Kernel.Seeds.{KhState, add_bits, count_call, try_timer_kh}

-- The timer as a difference from the value at the first call is over 1000, as a signed number.
abbrev pub IsFar : (start t : ℕ) → Type 0
IsFar start t = (1000 < sub64 t start) × (sub64 t start < 2 ^ 63)

-- The guard `times >= 8` never holds, at any value of the counter.
pub times_guard : (g : ℕ) → ge_signed (rem_signed32 g 8) 8 ≡ false
times_guard g = elim (Bool-cases (leb (2 ^ 31) g)) [
  | inl e ↦ rw e (negate_guard _ (omega arith))
  | inr e ↦ rw e (ground arith)
]
  where
    negate_guard : (n : ℕ) → n < 8 → ge_signed (Common.Words.negate n) 8 ≡ false
    negate_guard zero h = refl
    negate_guard (suc n) h = refl

-- The seed that is complete goes into the array.
abbrev pub stored : KhState → KhState
stored s = record s {
  timer_seeds = set s.timer_seeds s.seeds_index s.seed;
  seeds_index = s.seeds_index + 1;
  seed = 0;
}

module _ (s : KhState) (t : ℕ) where
  abbrev pub with_delta : KhState
  with_delta = record s { last_delta = sub64 t s.last_timestamp }

  -- What a call leaves that samples the counter: the delta's low bits are added to `from`.
  abbrev pub sampled : KhState → KhState
  sampled from = count_call (record from {
    last_delta = sub64 t s.last_timestamp;
    seed = add_bits from.seed (sub64 t s.last_timestamp) (s.global_times % 8);
  })

  pub call_full : 20 ≤ s.seeds_index → s.seeds_index < 2 ^ 31 → try_timer_kh s t ≡ some s
  unfolding try_timer_kh
  call_full h small = rw (times_guard s.global_times) (ground arith)

  module _ (room : s.seeds_index < 20) where
    pub call_first :
        s.last_timestamp ≡ minus_one64 → try_timer_kh s t ≡ some (record s { last_timestamp = t })
    unfolding try_timer_kh
    call_first e = rw (times_guard s.global_times) (ground arith)

    module _ (started : s.last_timestamp ≢ minus_one64) where
      pub call_near :
          gt_signed64 (sub64 t s.last_timestamp) 1000 ≡ false
          → try_timer_kh s t ≡ some (count_call with_delta)
      unfolding try_timer_kh
      call_near near = rw (times_guard s.global_times) (rw near (ground arith))

      module _ (positive : s.global_times < 2 ^ 31) (far : IsFar s.last_timestamp t) where
        passes : gt_signed64 (sub64 t s.last_timestamp) 1000 ≡ true
        passes = ground arith

        rem_plus : rem_signed32 s.global_times 8 ≡ plus (s.global_times % 8)
        rem_plus = ground arith

        pub call_within :
            (s.global_times % 8 ≢ 0) ⊎ (s.global_times ≡ 0) → try_timer_kh s t ≡ some (sampled s)
        unfolding try_timer_kh
        call_within h = rw (passes, rem_plus) (ground arith)

        pub call_boundary :
            s.global_times % 8 ≡ 0
            → 0 < s.global_times
            → try_timer_kh s t ≡ some (sampled (stored s))
        unfolding try_timer_kh
        call_boundary h pos = rw (passes, rem_plus) (ground arith)
