-- ===== src/Deltats/Tests.antt =====
-- The sysfs files on a counter that advances by one at each reading, and the theorems there.
use is_there_entropy_down_th.Common.{ℕ, ◌+◌, ◌%◌, ◌^◌, ◌<◌, ◌≡◌, ◌⊎◌, [], ◌∷◌, refl, true, arith}
use is_there_entropy_down_th.Common.Words.{minus_one64}
use is_there_entropy_down_th.Common.Decimal.{print_lu}
use is_there_entropy_down_th.Deltats.{Timer, Module, module_initial, sleepns_show, seeds_line}
use is_there_entropy_down_th.Deltats.Init.{
  Attribute, sleepns, lastdelta, ticks, seeds, mymodule_init, AllCreated, StopsAt,
  mymodule_init_outcomes,
}

pub counting_fits : (w : ℕ) → w % 2 ^ 64 < 2 ^ 64
counting_fits w = omega arith

-- A counter that a reading advances by one and a delay by its length.
abbrev counting : Timer
counting = record {
  World = ℕ;
  read_tsc = λ w. (w % 2 ^ 64, w + 1);
  ndelay = λ n w. w + n;
  read_tsc_fits = counting_fits;
}

-- The default delay of a millisecond is shown, and kept by a write of "x".
shows_default : sleepns_show module_initial ≡ 49 ∷ 48 ∷ 48 ∷ 48 ∷ 48 ∷ 48 ∷ 48 ∷ 10 ∷ []
unfolding sleepns_show print_lu
shows_default = refl

-- A seed slot that was never written shows the low 32 bits of -1.
shows_unused :
    seeds_line (minus_one64 ∷ 7 ∷ [])
    ≡ 52 ∷ 50 ∷ 57 ∷ 52 ∷ 57 ∷ 54 ∷ 55 ∷ 50 ∷ 57 ∷ 53 ∷ 44 ∷ 32 ∷ 55 ∷ 10 ∷ []
unfolding seeds_line print_lu
shows_unused = refl

abbrev slow : Module
slow = record module_initial { sleepns = 250 }

-- The third file cannot be created.
abbrev failing_create : Attribute → ℕ
failing_create ticks = 17
failing_create _ = 0

mymodule_init_outcomes_example :
    AllCreated failing_create (sleepns ∷ lastdelta ∷ ticks ∷ seeds ∷ [])
      × (mymodule_init failing_create true
          ≡ (record { kobject = true; files = sleepns ∷ lastdelta ∷ ticks ∷ seeds ∷ [] }, 0))
    ⊎ StopsAt failing_create
        (sleepns ∷ lastdelta ∷ ticks ∷ seeds ∷ [])
        (record { kobject = true; files = [] })
        (mymodule_init failing_create true)
mymodule_init_outcomes_example = mymodule_init_outcomes failing_create

leaks :
    mymodule_init failing_create true
    ≡ (record { kobject = true; files = sleepns ∷ lastdelta ∷ [] }, 17)
unfolding mymodule_init
leaks = refl
