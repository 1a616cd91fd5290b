-- ===== src/Kernel/Seeds/Races.antt =====
-- `try_timer_kh` of arch_timer.h as its atomic accesses, which calls on other processors or in an
-- interrupt can come between.
use is_there_entropy_down_th.Common.{
  ℕ, zero, suc, ◌+◌, ◌≡◌, Bool, true, false, ◌&&◌, Option, none, some, List, [], ◌∷◌, if◌then◌else◌,
  ltb, ◌==◌, ◌>>=◌, set, get_elem?,
}
use is_there_entropy_down_th.Common.Words.{
  u32, sub64, minus_one64, gt_signed32, ge_signed32, gt_signed64, Signed, plus, minus, rem_signed32,
  ge_signed,
}
use is_there_entropy_down_th.Kernel.Seeds.{KhState, add_bits, seeds_capacity}
pub mod Alone
pub mod Single
pub mod Safety
pub mod Cpus
pub mod Tests

-- Where a call is: the access that it makes next, with the locals that it still needs. The read of
-- LAST_DELTA is left out, since its value is never used.
pub data Thread : Type 0 where
  finished called : Thread
  at_timer : (global_times : ℕ) → Thread
  at_timestamp : (global_times timer_val : ℕ) → Thread
  at_index : (global_times timer_val last_timestamp : ℕ) → Thread
  at_first : (timer_val : ℕ) → Thread
  at_delta : (global_times index last_delta : ℕ) → Thread
  at_seed : (global_times index last_delta : ℕ) → Thread
  at_store : (index last_delta seed : ℕ) → Thread
  at_inc_index : (last_delta : ℕ) → Thread
  at_reset : (last_delta : ℕ) → Thread
  at_set_seed : (seed : ℕ) → Thread
  at_inc_times : Thread

-- The tests between the read of the index and the next write.
abbrev after_index : (global_times timer_val last_timestamp index : ℕ) → Thread
after_index g v stamp index =
    if ge_signed (rem_signed32 g 8) 8
    then finished
    else if ge_signed32 index seeds_capacity
    then finished
    else if stamp == minus_one64
    then at_first v
    else at_delta g index (sub64 v stamp)

-- After the read of the seed; a shift by a negative amount is undefined.
abbrev after_seed : Signed → (global_times index last_delta seed : ℕ) → Option Thread
after_seed (minus t) g index delta seed = none
after_seed (plus t) g index delta seed = some (
    if (t == 0) && gt_signed32 g 0
    then at_store index delta seed
    else at_set_seed (add_bits seed delta t))

abbrev with_state : KhState → Option Thread → Option (KhState × Thread)
with_state s none = none
with_state s (some t) = some (s, t)

-- One access of a call, with the value that the counter has now. `none` is undefined behaviour.
pub access : Thread → (counter : ℕ) → KhState → Option (KhState × Thread)
access finished v s = some (s, finished)
access called v s = some (s, at_timer s.global_times)
access (at_timer g) v s = some (s, at_timestamp g v)
access (at_timestamp g timer_val) v s = some (s, at_index g timer_val s.last_timestamp)
access (at_index g timer_val stamp) v s = some (s, after_index g timer_val stamp s.seeds_index)
access (at_first timer_val) v s = some (record s { last_timestamp = timer_val }, finished)
access (at_delta g index delta) v s = some (
  record s { last_delta = delta },
  if gt_signed64 delta 1000 then at_seed g index delta else at_inc_times,
)
access (at_seed g index delta) v s =
    with_state s (after_seed (rem_signed32 g 8) g index delta s.seed)
access (at_store index delta seed) v s =
    if ltb index seeds_capacity
    then some (record s { timer_seeds = set s.timer_seeds index seed }, at_inc_index delta)
    else none
access (at_inc_index delta) v s =
    some (record s { seeds_index = u32 (s.seeds_index + 1) }, at_reset delta)
access (at_reset delta) v s = some (record s { seed = 0 }, at_set_seed (add_bits 0 delta 0))
access (at_set_seed seed) v s = some (record s { seed = seed }, at_inc_times)
access at_inc_times v s = some (record s { global_times = u32 (s.global_times + 1) }, finished)

-- A call with nothing in between, with the accesses left.
pub alone : (accesses : ℕ) → Thread → (counter : ℕ) → KhState → Option (KhState × Thread)
unfolding access
alone zero t v s = some (s, t)
alone (suc n) t v s = do (s', t') ← access t v s; alone n t' v s'

-- A processor begins a call, if it is in none, or makes the next access of the one that it is in.
pub data Move : Type 0 where
  calls : (cpu : ℕ) → Move
  accesses : (cpu counter : ℕ) → Move

abbrev begin : Thread → Thread
begin finished = called
begin t = t

abbrev moved : List Thread → (cpu : ℕ) → KhState × Thread → KhState × List Thread
moved ts cpu (s, t) = (s, set ts cpu t)

abbrev access_of :
    Option Thread → List Thread → (cpu counter : ℕ) → KhState → Option (KhState × List Thread)
access_of none ts cpu v s = some (s, ts)
access_of (some t) ts cpu v s = do r ← access t v s; some (moved ts cpu r)

abbrev call_of : Option Thread → List Thread → (cpu : ℕ) → List Thread
call_of none ts cpu = ts
call_of (some t) ts cpu = set ts cpu (begin t)

pub make : Move → KhState → List Thread → Option (KhState × List Thread)
unfolding access
make (calls cpu) s ts = some (s, call_of (get_elem? ts cpu) ts cpu)
make (accesses cpu v) s ts = access_of (get_elem? ts cpu) ts cpu v s

pub interleave : List Move → KhState → List Thread → Option (KhState × List Thread)
unfolding make
interleave [] s ts = some (s, ts)
interleave (m ∷ moves) s ts = do (s', ts') ← make m s ts; interleave moves s' ts'
