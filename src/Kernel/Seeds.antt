-- ===== src/Kernel/Seeds.antt =====
-- kernel/kh.c, include/kh.h and `try_timer_kh` of arch_timer.h: the seeds that the kernel collects
-- from the timer while it boots.
use Prim.Native.Nat.{bit_and}
use is_there_entropy_down_th.Common.{
  ℕ, zero, suc, ◌+◌, ◌*◌, ◌-◌, ◌^◌, ◌<◌, ◌≡◌, Bool, ◌&&◌, Option, none, some, List, [], ◌∷◌,
  if◌then◌else◌, ltb, ◌==◌, ◌>>=◌, set, replicate,
}
use is_there_entropy_down_th.Common.Words.{
  u32, u64, sub64, minus_one64, gt_signed32, ge_signed32, gt_signed64, sign_extend32, Signed, plus,
  minus, rem_signed32, ge_signed,
}
pub mod Branches
pub mod Step
pub mod Valid
pub mod Runs
pub mod Bits
pub mod Packing
pub mod Count
pub mod Reference
pub mod Races
pub mod Tests

-- The exported atomics and the array of seeds.
pub record KhState : Type 0 where
  pub last_timestamp : ℕ
  pub last_delta : ℕ
  pub seed : ℕ
  pub global_times : ℕ
  pub seeds_index : ℕ
  pub timer_seeds : List ℕ

abbrev pub seeds_capacity : ℕ
seeds_capacity = 20

abbrev pub kh_initial : KhState
kh_initial = record {
  last_timestamp = minus_one64;
  last_delta = minus_one64;
  seed = 0;
  global_times = 0;
  seeds_index = 0;
  timer_seeds = replicate 20 minus_one64;
}

-- `timer_seeds[index] = seed; atomic_inc(&SEEDS_INDEX); atomic64_set(&SEED, 0);`. An index outside
-- the array is undefined.
store_seed : KhState → Option KhState
store_seed s =
    if ltb s.seeds_index seeds_capacity
    then some (record s {
      timer_seeds = set s.timer_seeds s.seeds_index s.seed;
      seeds_index = u32 (s.seeds_index + 1);
      seed = 0;
    })
    else none

-- `seed += last_bits << ((times % 8) * 4)`. The shifted value is an `int` (the kernel is built so
-- that signed overflow wraps) and is widened with its sign.
pub add_bits : (seed delta times : ℕ) → ℕ
add_bits seed delta times = u64 (seed + sign_extend32 (u32 (bit_and delta 0xf * 2 ^ (times * 4))))

-- The body under `last_delta > 1000`. A shift by a negative amount is undefined.
sample : KhState → ℕ → Signed → Option KhState
sample s delta (minus t) = none
sample s delta (plus t) = do
  s' ← if (t == 0) && gt_signed32 s.global_times 0 then store_seed s else some s
  some (record s' { seed = add_bits s'.seed delta t })

abbrev count_call : KhState → KhState
count_call s = record s { global_times = u32 (s.global_times + 1) }

-- One call, which reads `timer_val` from the counter; `none` is undefined behaviour.
pub try_timer_kh : KhState → (timer_val : ℕ) → Option KhState
unfolding sample store_seed
try_timer_kh s timer_val =
    let times = rem_signed32 s.global_times 8 in
    let delta = sub64 timer_val s.last_timestamp in
    let s' = record s { last_delta = delta } in
    if ge_signed times 8
    then some s
    else if ge_signed32 s.seeds_index seeds_capacity
    then some s
    else if s.last_timestamp == minus_one64
    then some (record s { last_timestamp = timer_val })
    else do
      s'' ← if gt_signed64 delta 1000 then sample s' delta times else some s'
      some (count_call s'')

-- Calls in the order of their timer values.
unfoldable pub run : KhState → List ℕ → Option KhState
run s [] = some s
run s (t ∷ ts) = do s' ← try_timer_kh s t; run s' ts
