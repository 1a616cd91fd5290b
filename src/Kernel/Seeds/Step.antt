-- ===== src/Kernel/Seeds/Step.antt =====
-- One call of `try_timer_kh` as a step relation with a constructor for each path.
use is_there_entropy_down_th.Common.{
  ℕ, ◌%◌, ◌^◌, ◌≤◌, ◌<◌, ◌≡◌, ◌≢◌, false, some, arith, ◌⊎◌, inl, inr, Bool-cases,
}
use is_there_entropy_down_th.Common.Words.{sub64, minus_one64, gt_signed64}
use is_there_entropy_down_th.Kernel.Seeds.{KhState, count_call, try_timer_kh}
use is_there_entropy_down_th.Kernel.Seeds.Branches.{
  IsFar, with_delta, sampled, stored, call_full, call_first, call_near, call_within, call_boundary,
}
use native.Mathlib.Decide.{dec_lt, ℕ_discrete}

-- The states between which a call leads, at a counter and an index below their sign bits.
pub data Call (s : KhState) (t : ℕ) : KhState → Type 0 where
  full : 20 ≤ s.seeds_index → Call s t s
  first :
      s.seeds_index < 20
      → s.last_timestamp ≡ minus_one64
      → Call s t (record s { last_timestamp = t })
  near :
      s.seeds_index < 20
      → s.last_timestamp ≢ minus_one64
      → gt_signed64 (sub64 t s.last_timestamp) 1000 ≡ false
      → Call s t (count_call (with_delta s t))
  within :
      s.seeds_index < 20
      → s.last_timestamp ≢ minus_one64
      → IsFar s.last_timestamp t
      → (s.global_times % 8 ≢ 0) ⊎ (s.global_times ≡ 0)
      → Call s t (sampled s t s)
  boundary :
      s.seeds_index < 20
      → s.last_timestamp ≢ minus_one64
      → IsFar s.last_timestamp t
      → s.global_times % 8 ≡ 0
      → 0 < s.global_times
      → Call s t (sampled s t (stored s))

module _ (s : KhState) (t : ℕ) (positive : s.global_times < 2 ^ 31) where
  abbrev Steps : Type 0
  Steps = (s' : KhState) × (try_timer_kh s t ≡ some s') × Call s t s'

  module _ (room : s.seeds_index < 20) (started : s.last_timestamp ≢ minus_one64) where
    far_steps : IsFar s.last_timestamp t → Steps
    far_steps far = elim (ℕ_discrete (s.global_times % 8) 0) [
      | no off ↦ (
        sampled s t s,
        call_within s t room started positive far (inl off),
        within room started far (inl off),
      )
      | yes on ↦ elim (dec_lt 0 s.global_times) [
        | yes pos ↦ (
          sampled s t (stored s),
          call_boundary s t room started positive far on pos,
          boundary room started far on pos,
        )
        | no zero_calls ↦
            let none_yet : s.global_times ≡ 0 = omega arith in
            (
              sampled s t s,
              call_within s t room started positive far (inr none_yet),
              within room started far (inr none_yet),
            )
      ]
    ]

    started_steps : Steps
    started_steps = elim (Bool-cases (gt_signed64 (sub64 t s.last_timestamp) 1000)) [
      | inl passes ↦ far_steps (ground arith)
      | inr not_far ↦ (
        count_call (with_delta s t),
        call_near s t room started not_far,
        near room started not_far,
      )
    ]

  -- Below the sign bits a call is defined, and it takes one of the five paths.
  pub try_timer_kh-Call : s.seeds_index < 2 ^ 31 → Steps
  try_timer_kh-Call small = elim (dec_lt s.seeds_index 20) [
    | no h ↦
        let at_end : 20 ≤ s.seeds_index = omega arith in
        (s, call_full s t at_end small, full at_end)
    | yes room ↦ elim (ℕ_discrete s.last_timestamp minus_one64) [
      | yes e ↦ (record s { last_timestamp = t }, call_first s t room e, first room e)
      | no started ↦ started_steps room started
    ]
  ]
