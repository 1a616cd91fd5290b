-- ===== src/Kernel/Seeds/Races/Safety.antt =====
-- What one access of a call does: it is defined, and what it leaves.
use is_there_entropy_down_th.Common.{
  ℕ, ◌+◌, ◌%◌, ◌^◌, ◌≤◌, ◌<◌, ◌≡◌, ◌⊎◌, refl, true, Option, some, if◌then◌else◌, ltb, ◌==◌, length,
  set, Bool-cases, inl, inr, arith, length-set,
}
use is_there_entropy_down_th.Common.Words.{
  minus_one64, ge_signed32, gt_signed32, gt_signed64, plus, rem_signed32,
}
use is_there_entropy_down_th.Kernel.Seeds.{KhState, add_bits}
use is_there_entropy_down_th.Kernel.Seeds.Branches.{times_guard}
use is_there_entropy_down_th.Kernel.Seeds.Races.{
  Thread, finished, called, at_timer, at_timestamp, at_index, at_first, at_delta, at_seed, at_store,
  at_inc_index, at_reset, at_set_seed, at_inc_times, after_index, after_seed, access,
}

-- The counter that a call has read is not negative, and the index that it will write to is in the
-- array.
abbrev pub Holds : Thread → Type 0
Holds (at_timer g) = g < 2 ^ 31
Holds (at_timestamp g v) = g < 2 ^ 31
Holds (at_index g v stamp) = g < 2 ^ 31
Holds (at_delta g i d) = (g < 2 ^ 31) × (i < 20)
Holds (at_seed g i d) = (g < 2 ^ 31) × (i < 20)
Holds (at_store i d seed) = i < 20
Holds _ = Unit

-- 1 for a call that found room and has not increased the index yet.
abbrev pub pending_of : Thread → ℕ
pending_of (at_delta g i d) = 1
pending_of (at_seed g i d) = 1
pending_of (at_store i d seed) = 1
pending_of (at_inc_index d) = 1
pending_of _ = 0

-- What one access does, in a state with a counter that can still grow.
pub record IsAccess (s : KhState) (t : Thread) (r : Option (KhState × Thread)) : Type 0 where
  pub state : KhState
  pub thread : Thread
  pub result : r ≡ some (state, thread)
  pub holds : Holds thread
  pub size : length state.timer_seeds ≡ length s.timer_seeds
  pub times : state.global_times ≤ s.global_times + 1
  pub index :
      (state.seeds_index + pending_of thread ≤ s.seeds_index + pending_of t)
      ⊎ (state.seeds_index ≤ 19)

after_index_lem :
    (g v stamp i : ℕ)
    → g < 2 ^ 31
    → i < 2 ^ 31
    → Holds (after_index g v stamp i) × ((pending_of (after_index g v stamp i) ≡ 0) ⊎ (i ≤ 19))
after_index_lem g v stamp i hg hi = rw (times_guard g) (elim (Bool-cases (ge_signed32 i 20)) [
  | inl e ↦ rw e (tt, inl refl)
  | inr e ↦ elim (Bool-cases (stamp == minus_one64)) [
    | inl e' ↦ rw (e, e') (tt, inl refl)
    | inr e' ↦ rw (e, e') ((hg, ground arith), inr (ground arith))
  ]
])

-- With the index a call read, the seed's access leads on.
after_seed_lem :
    (g i d seed : ℕ)
    → g < 2 ^ 31
    → i < 20
    → (t : Thread) × (after_seed (rem_signed32 g 8) g i d seed ≡ some t)
      × Holds t
      × (pending_of t ≤ 1)
after_seed_lem g i d seed hg hi =
    let rem_plus : rem_signed32 g 8 ≡ plus (g % 8) = ground arith in
    elim (Bool-cases (g % 8 == 0)) [
      | inl e ↦ elim (Bool-cases (gt_signed32 g 0)) [
        | inl e' ↦ (at_store i d seed, rw (rem_plus, e, e') refl, hi, omega arith)
        | inr e' ↦
            (at_set_seed (add_bits seed d (g % 8)), rw (rem_plus, e, e') refl, tt, omega arith)
      ]
      | inr e ↦ (at_set_seed (add_bits seed d (g % 8)), rw (rem_plus, e) refl, tt, omega arith)
    ]

module _ (v : ℕ) (s : KhState) where
  goes :
      {t : Thread} (s' : KhState) (t' : Thread)
      → Holds t'
      → length s'.timer_seeds ≡ length s.timer_seeds
      → s'.global_times ≤ s.global_times + 1
      → (s'.seeds_index + pending_of t' ≤ s.seeds_index + pending_of t) ⊎ (s'.seeds_index ≤ 19)
      → IsAccess s t (some (s', t'))
  goes s' t' holds size times index = record {
    state = s';
    thread = t';
    result = refl;
    holds = holds;
    size = size;
    times = times;
    index = index;
  }

  -- An access that changes neither the array nor the counters.
  reads :
      {t : Thread} (t' : Thread)
      → Holds t'
      → pending_of t' ≤ pending_of t
      → IsAccess s t (some (s, t'))
  reads t' holds le = goes s t' holds refl (omega arith) (inl (omega arith))

  writes_delta :
      (g i d : ℕ)
      → Holds (at_delta g i d)
      → IsAccess s (at_delta g i d) (
          some (
            record s { last_delta = d },
            if gt_signed64 d 1000 then at_seed g i d else at_inc_times,
          ))
  writes_delta g i d h = elim (Bool-cases (gt_signed64 d 1000)) [
    | inl e ↦ rw e (
        goes (record s { last_delta = d }) (at_seed g i d) h refl (omega arith) (inl (omega arith)))
    | inr e ↦
        rw e (
          goes (record s { last_delta = d }) at_inc_times tt refl (omega arith) (inl (omega arith)))
  ]

  pub access-IsAccess :
      (t : Thread)
      → s.global_times < 2 ^ 31
      → s.seeds_index < 2 ^ 31
      → Holds t
      → IsAccess s t (access t v s)
  unfolding access
  access-IsAccess finished hg hi h = reads finished tt (omega arith)
  access-IsAccess called hg hi h = reads _ hg (omega arith)
  access-IsAccess (at_timer g) hg hi h = reads _ h (omega arith)
  access-IsAccess (at_timestamp g tv) hg hi h = reads _ h (omega arith)
  access-IsAccess (at_index g tv stamp) hg hi h =
      let (holds, ahead) = after_index_lem g tv stamp s.seeds_index h hi in
      goes s _ holds refl (omega arith) (elim ahead [ inl e ↦ inl (omega arith) | inr l ↦ inr l ])
  access-IsAccess (at_first tv) hg hi h = goes _ finished tt refl (omega arith) (inl (omega arith))
  access-IsAccess (at_delta g i d) hg hi h = writes_delta g i d h
  access-IsAccess (at_seed g i d) hg hi (hg', hi') =
      let (t, e, holds, le) = after_seed_lem g i d s.seed hg' hi' in rw e (reads t holds le)
  access-IsAccess (at_store i d seed) hg hi h =
      let fits : ltb i 20 ≡ true = ground arith in
      let s' : KhState = record s { timer_seeds = set s.timer_seeds i seed } in
      rw fits (
        goes s' (at_inc_index d) tt (length-set s.timer_seeds i seed) (omega arith)
          (inl (omega arith)))
  access-IsAccess (at_inc_index d) hg hi h =
      goes _ (at_reset d) tt refl (omega arith) (inl (omega arith))
  access-IsAccess (at_reset d) hg hi h = goes _ _ tt refl (omega arith) (inl (omega arith))
  access-IsAccess (at_set_seed seed) hg hi h =
      goes _ at_inc_times tt refl (omega arith) (inl (omega arith))
  access-IsAccess at_inc_times hg hi h = goes _ finished tt refl (omega arith) (inl (omega arith))
