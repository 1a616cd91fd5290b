-- ===== src/Kernel/TimerRegs/Tests.antt =====
-- A counter that is read nine times, the last time with a workaround.
use is_there_entropy_down_th.Common.{
  ℕ, ◌≡◌, ◌+◌, refl, true, false, none, some, List, [], ◌∷◌, arith, get_elem?, replicate,
}
use is_there_entropy_down_th.Common.Words.{minus_one64, sign_extend32}
use is_there_entropy_down_th.Kernel.Seeds.{KhState}
use is_there_entropy_down_th.Kernel.Seeds.Packing.{pack}
use is_there_entropy_down_th.Kernel.TimerRegs.{Hardware, Register, cntvct_el0, counter_reads}
use is_there_entropy_down_th.Kernel.TimerRegs.Counter.{Results, counter_reads-timer_seeds}

-- The virtual counter at v, and the other registers at 0.
abbrev counter : ℕ → Register → ℕ
counter v cntvct_el0 = v
counter v _ = 0

abbrev at : ℕ → Hardware
at v = record { value = counter v; needs_workaround = false; workaround = none }

abbrev erratum : Hardware
erratum = record {
  value = counter 9;
  needs_workaround = true;
  workaround = some (record { read = λ r. some 2801 });
}

-- The second reading is a tick behind the first.
abbrev both : ℕ → Hardware × Hardware
both v = (at v, at (v + 1))

abbrev readings : List (Hardware × Hardware)
readings =
    both 2100
    ∷ both 2101
    ∷ both 2200
    ∷ both 2300
    ∷ both 2400
    ∷ both 2500
    ∷ both 2600
    ∷ both 2700
    ∷ (at 2800, erratum)
    ∷ []

-- A seed is complete and the next delta decides.
abbrev complete : KhState
complete = record {
  last_timestamp = 100;
  last_delta = 2000;
  seed = 0x1234_5678;
  global_times = 8;
  seeds_index = 0;
  timer_seeds = replicate 20 minus_one64;
}

counter_reads-timer_seeds_example :
    (s' : KhState) × (vs : List ℕ) × (counter_reads readings complete ≡ some (s', vs))
    × Results readings vs
    × (get_elem? s'.timer_seeds 0 ≡ some 0x1234_5678)
    × (get_elem? s'.timer_seeds 1
        ≡ some
            (sign_extend32 (pack 100 (2100 ∷ 2101 ∷ 2200 ∷ 2300 ∷ 2400 ∷ 2500 ∷ 2600 ∷ 2700 ∷ []))))
    × (s'.seeds_index ≡ 2)
counter_reads-timer_seeds_example =
    counter_reads-timer_seeds complete (omega arith) refl (omega arith) (omega arith) refl
      (omega arith) readings 2100 2101 (2200 ∷ 2300 ∷ 2400 ∷ 2500 ∷ 2600 ∷ 2700 ∷ []) 2800 refl refl
      (omega arith) (omega arith)
