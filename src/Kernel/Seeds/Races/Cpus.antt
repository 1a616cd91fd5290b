-- ===== src/Kernel/Seeds/Races/Cpus.antt =====
-- Calls that interleave in any way: every access is defined, and how far the index goes.
use mathlib.Core.Path.{subst}
use is_there_entropy_down_th.Common.{
  ℕ, zero, suc, ◌+◌, ◌^◌, ◌≤◌, ◌<◌, ◌≡◌, ◌∙◌, refl, Option, none, some, List, [], ◌∷◌, length, set,
  get_elem?, inl, inr, arith, length-set,
}
use is_there_entropy_down_th.Kernel.Seeds.{KhState}
use is_there_entropy_down_th.Kernel.Seeds.Races.{
  Thread, finished, at_delta, at_seed, at_store, at_inc_index, begin, call_of, access_of, Move,
  calls, accesses, make, interleave,
}
use is_there_entropy_down_th.Kernel.Seeds.Races.Safety.{Holds, pending_of, access-IsAccess}

abbrev pub pending : List Thread → ℕ
pending [] = 0
pending (t ∷ ts) = pending_of t + pending ts

abbrev pub AllHold : List Thread → Type 0
AllHold [] = Unit
AllHold (t ∷ ts) = Holds t × AllHold ts

get_elem?-Holds :
    (ts : List Thread) (cpu : ℕ) (t : Thread) → get_elem? ts cpu ≡ some t → AllHold ts → Holds t
get_elem?-Holds [] cpu t e h = cc
get_elem?-Holds (u ∷ ts) zero t e (h, hs) = let same : u ≡ t = cc in subst Holds same h
get_elem?-Holds (u ∷ ts) (suc cpu) t e (h, hs) = get_elem?-Holds ts cpu t e hs

set-AllHold :
    (ts : List Thread) (cpu : ℕ) (t : Thread) → Holds t → AllHold ts → AllHold (set ts cpu t)
set-AllHold [] cpu t h hs = tt
set-AllHold (u ∷ ts) zero t h (h', hs) = (h, hs)
set-AllHold (u ∷ ts) (suc cpu) t h (h', hs) = (h', set-AllHold ts cpu t h hs)

pending-set :
    (ts : List Thread) (cpu : ℕ) (t t' : Thread)
    → get_elem? ts cpu ≡ some t
    → pending (set ts cpu t') + pending_of t ≡ pending ts + pending_of t'
pending-set [] cpu t t' e = cc
pending-set (u ∷ ts) zero t t' e = let same : u ≡ t = cc in rw same (omega arith)
pending-set (u ∷ ts) (suc cpu) t t' e = omega (arith, pending-set ts cpu t t' e)

pending_of_le : (t : Thread) → pending_of t ≤ 1
pending_of_le (at_delta g i d) = omega arith
pending_of_le (at_seed g i d) = omega arith
pending_of_le (at_store i d seed) = omega arith
pending_of_le (at_inc_index d) = omega arith
pending_of_le _ = omega arith

pending_le : (ts : List Thread) → pending ts ≤ length ts
pending_le [] = omega arith
pending_le (t ∷ ts) = omega (arith, pending_of_le t, pending_le ts)

-- With `left` moves to come.
pub record IsSafe (left cpus : ℕ) (s : KhState) (ts : List Thread) : Type 0 where
  pub size : length s.timer_seeds ≡ 20
  pub times : s.global_times + left < 2 ^ 31
  pub threads : length ts ≡ cpus
  pub index : s.seeds_index + pending ts ≤ 19 + cpus
  pub hold : AllHold ts

begin-Holds : (t : Thread) → Holds t → Holds (begin t)
begin-Holds finished h = tt
begin-Holds _ h = h

pending_of-begin : (t : Thread) → pending_of (begin t) ≡ pending_of t
pending_of-begin finished = refl
pending_of-begin _ = refl

module _ (cpus : ℕ) (few : cpus ≤ 2 ^ 30) where
  call_of-IsSafe :
      (o : Option Thread) (cpu left : ℕ) (s : KhState) (ts : List Thread)
      → get_elem? ts cpu ≡ o
      → IsSafe (suc left) cpus s ts
      → IsSafe left cpus s (call_of o ts cpu)
  call_of-IsSafe none cpu left s ts e safe = record {
    size = safe.size;
    times = omega (arith, safe.times);
    threads = safe.threads;
    index = safe.index;
    hold = safe.hold;
  }
  call_of-IsSafe (some t) cpu left s ts e safe = record {
    size = safe.size;
    times = omega (arith, safe.times);
    threads = length-set ts cpu (begin t) ∙ safe.threads;
    index = omega (arith, pending-set ts cpu t (begin t) e, pending_of-begin t, safe.index);
    hold =
        set-AllHold ts cpu (begin t) (begin-Holds t (get_elem?-Holds ts cpu t e safe.hold))
          safe.hold;
  }

  access_of-IsSafe :
      (o : Option Thread) (cpu v left : ℕ) (s : KhState) (ts : List Thread)
      → get_elem? ts cpu ≡ o
      → IsSafe (suc left) cpus s ts
      → (s' : KhState) × (ts' : List Thread) × (access_of o ts cpu v s ≡ some (s', ts'))
        × IsSafe left cpus s' ts'
  access_of-IsSafe none cpu v left s ts e safe =
      (s, ts, refl, call_of-IsSafe none cpu left s ts e safe)
  access_of-IsSafe (some t) cpu v left s ts e safe =
      let a =
        access-IsAccess v s t (omega (arith, safe.times)) (omega (arith, safe.index))
          (get_elem?-Holds ts cpu t e safe.hold) in
      let ts' = set ts cpu a.thread in
      let counted = pending-set ts cpu t a.thread e in
      let threads : length ts' ≡ cpus = length-set ts cpu a.thread ∙ safe.threads in
      (
        a.state,
        ts',
        rw a.result refl,
        record {
          size = a.size ∙ safe.size;
          times = omega (arith, safe.times, a.times);
          threads = threads;
          index = elim a.index [
            | inl le ↦ omega (arith, counted, safe.index)
            | inr le ↦ omega (arith, pending_le ts', threads)
          ];
          hold = set-AllHold ts cpu a.thread a.holds safe.hold;
        },
      )

  make-IsSafe :
      (m : Move) (left : ℕ) (s : KhState) (ts : List Thread)
      → IsSafe (suc left) cpus s ts
      → (s' : KhState) × (ts' : List Thread) × (make m s ts ≡ some (s', ts'))
        × IsSafe left cpus s' ts'
  unfolding make
  make-IsSafe (calls cpu) left s ts safe =
      (s, _, refl, call_of-IsSafe (get_elem? ts cpu) cpu left s ts refl safe)
  make-IsSafe (accesses cpu v) left s ts safe =
      access_of-IsSafe (get_elem? ts cpu) cpu v left s ts refl safe

  -- However the calls of some processors interleave, in fewer than 2 ^ 31 moves from a safe state,
  -- every access is defined: nothing is written outside the array. The index ends at 19 plus the
  -- number of processors at most, since each can have found room before the others filled the array.
  pub interleave-IsSafe :
      (moves : List Move) (s : KhState) (ts : List Thread)
      → IsSafe (length moves) cpus s ts
      → (s' : KhState) × (ts' : List Thread) × (interleave moves s ts ≡ some (s', ts'))
        × (length s'.timer_seeds ≡ 20)
        × (s'.seeds_index ≤ 19 + cpus)
  unfolding interleave
  interleave-IsSafe [] s ts safe = (s, ts, refl, safe.size, omega (arith, safe.index))
  interleave-IsSafe (m ∷ moves) s ts safe =
      let (s1, ts1, e1, safe1) = make-IsSafe m (length moves) s ts safe in
      let (s2, ts2, e2, size, index) = interleave-IsSafe moves s1 ts1 safe1 in
      (s2, ts2, rw e1 e2, size, index)
