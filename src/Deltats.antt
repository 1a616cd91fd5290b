-- ===== src/Deltats.antt =====
-- deltats.c: the module that shows the timer in sysfs.
use is_there_entropy_down_th.Common.{
  ℕ, zero, suc, ◌+◌, ◌-◌, ◌^◌, ◌<◌, ◌≡◌, Bool, Option, none, some, List, [], ◌∷◌, if◌then◌else◌,
  ltb, ◌==◌, length, take,
}
use is_there_entropy_down_th.Common.Words.{sub64, u32}
use is_there_entropy_down_th.Common.Decimal.{print_lu, scan_lu}
pub mod Files
pub mod Init
pub mod Tests

-- What the kernel gives the module: the counter and the delay, over a state of the machine that
-- other code changes too. A reading is a 64-bit word.
pub record Timer : Type 1 where
  pub World : Type 0
  pub read_tsc : World → ℕ × World
  pub ndelay : ℕ → World → World
  pub read_tsc_fits : (w : World) → (read_tsc w).0 < 2 ^ 64

-- The static variables of the module.
pub record Module : Type 0 where
  pub sleepns : ℕ
  pub lastdelta : ℕ
  pub ticks : ℕ

abbrev pub module_initial : Module
module_initial = record { sleepns = 1_000_000; lastdelta = 0; ticks = 0 }

pub sleepns_show : Module → List ℕ
sleepns_show m = print_lu m.sleepns (b'\n' ∷ [])

-- `sscanf(buf, "%lu", &sleepns); return count;`
pub sleepns_store : Module → (buf : List ℕ) → (count : ℕ) → Module × ℕ
sleepns_store m buf count =
    (elim (scan_lu buf) [ none ↦ m | some n ↦ record m { sleepns = n } ], count)

module _ (t : Timer) where
  open t use {World, read_tsc, ndelay}

  -- Two readings, with a delay between them if one is set.
  pub two_readings : ℕ → World → ℕ × ℕ × World
  two_readings sleepns w =
      let (t1, w1) = read_tsc w in
      let w2 = if sleepns == 0 then w1 else ndelay sleepns w1 in
      let (t2, w3) = read_tsc w2 in (t1, t2, w3)

  pub lastdelta_show : Module → World → Module × List ℕ × World
  lastdelta_show m w =
      let (t1, t2, w') = two_readings m.sleepns w in
      let delta = sub64 t2 t1 in (record m { lastdelta = delta }, print_lu delta (b'\n' ∷ []), w')

  -- The delay before a reading of `ticks`: the last delta if there is one, and `sleepns` if not.
  pub ticks_delay : Module → World → World
  ticks_delay m w =
      if m.sleepns == 0
      then w
      else (if ltb 0 m.lastdelta then ndelay m.lastdelta w else ndelay m.sleepns w)

  pub ticks_show : Module → World → Module × List ℕ × World
  ticks_show m w =
      let (reading, w') = read_tsc (ticks_delay m w) in
      (record m { ticks = reading }, print_lu reading (b'\n' ∷ []), w')

-- `"%u, %u, ..., %u\n"` over the kernel's seeds: `%u` prints the low 32 bits of each.
pub seeds_line : List ℕ → List ℕ
seeds_line [] = b'\n' ∷ []
seeds_line (v ∷ []) = print_lu (u32 v) (b'\n' ∷ [])
seeds_line (v ∷ w ∷ vs) = print_lu (u32 v) (b',' ∷ b' ' ∷ seeds_line (w ∷ vs))

-- `sprintf` reads exactly twenty entries of `timer_seeds`; `none` is a read past the array.
pub seeds_show : List ℕ → Option (List ℕ)
seeds_show timer_seeds =
    if ltb (length timer_seeds) 20 then none else some (seeds_line (take 20 timer_seeds))
