-- ===== src/Kernel/Seeds/Tests.antt =====
-- Runs of the timer seeds on concrete counter values, and the theorems at such values.
use Prim.Native.Nat.{min}
use is_there_entropy_down_th.Common.{
  ℕ, ◌+◌, ◌-◌, ◌/◌, ◌≤◌, ◌≡◌, ◌⊎◌, refl, some, List, [], ◌∷◌, ◌++◌, length, get_elem?, replicate,
  ◌>>=◌, arith,
}
use is_there_entropy_down_th.Common.Words.{sub64, minus_one64, sign_extend32}
use is_there_entropy_down_th.Kernel.Seeds.{KhState, kh_initial, run, try_timer_kh, add_bits}
use is_there_entropy_down_th.Kernel.Seeds.Valid.{IsValid, initial-IsValid}
use is_there_entropy_down_th.Kernel.Seeds.Runs.{run-IsValid}
use is_there_entropy_down_th.Kernel.Seeds.Packing.{pack, run-timer_seeds}
use is_there_entropy_down_th.Kernel.Seeds.Count.{run-seeds_index}
use is_there_entropy_down_th.Kernel.Seeds.Reference.{run-last_delta, run-missed}

-- A boot in which the counter starts at 100 and is read every 2000 ticks.
abbrev boot : List ℕ
boot = 100 ∷ 2100 ∷ 4101 ∷ 6102 ∷ 8103 ∷ 10104 ∷ 12105 ∷ 14106 ∷ 16115 ∷ 18100 ∷ []

-- Ten calls store one seed. Its last digit is 15, so it is widened with ones above its 32 bits.
boot_seeds : (run kh_initial boot >>= λ s. get_elem? s.timer_seeds 0) ≡ some 0xffff_ffff_f654_3210
unfolding run try_timer_kh add_bits
boot_seeds = refl

-- The first seed is complete and the next delta decides.
abbrev complete : KhState
complete = record {
  last_timestamp = 100;
  last_delta = 2000;
  seed = 0x1234_5678;
  global_times = 8;
  seeds_index = 0;
  timer_seeds = replicate 20 minus_one64;
}

abbrev filled : KhState
filled = record complete { seeds_index = 20 }

run-IsValid_example :
    (s' : KhState) × (run kh_initial boot ≡ some s')
    × IsValid s'
    × (s'.global_times ≤ kh_initial.global_times + length boot)
run-IsValid_example = run-IsValid boot kh_initial initial-IsValid (omega arith)

run-timer_seeds_example :
    (s' : KhState) × (run complete
        ((2100 ∷ 2101 ∷ 2200 ∷ 2300 ∷ 2400 ∷ 2500 ∷ 2600 ∷ 2700 ∷ []) ++ 2800 ∷ [])
      ≡ some s')
    × (get_elem? s'.timer_seeds 0 ≡ some 0x1234_5678)
    × (get_elem? s'.timer_seeds 1
        ≡ some
            (sign_extend32 (pack 100 (2100 ∷ 2101 ∷ 2200 ∷ 2300 ∷ 2400 ∷ 2500 ∷ 2600 ∷ 2700 ∷ []))))
    × (s'.seeds_index ≡ 2)
run-timer_seeds_example =
    run-timer_seeds complete (omega arith) refl (omega arith) (omega arith) refl (omega arith) 2100
      2101 (2200 ∷ 2300 ∷ 2400 ∷ 2500 ∷ 2600 ∷ 2700 ∷ []) 2800 refl (omega arith) (omega arith)

run-seeds_index_example :
    (s' : KhState) × (run kh_initial (100 ∷ 2100 ∷ 2200 ∷ []) ≡ some s')
    × (s'.seeds_index ≡ min ((length {A = ℕ} (2100 ∷ 2200 ∷ []) - 1) / 8) 20)
run-seeds_index_example = run-seeds_index 100 (2100 ∷ 2200 ∷ []) (omega arith) (omega arith)

run-last_delta_example :
    (s1 s2 : KhState) × (run kh_initial (100 ∷ 2100 ∷ []) ≡ some s1)
    × (try_timer_kh s1 2101 ≡ some s2)
    × (s2.last_timestamp ≡ 100)
    × ((20 ≤ s1.seeds_index) ⊎ (s2.last_delta ≡ sub64 2101 100))
run-last_delta_example = run-last_delta 100 (2100 ∷ []) 2101 (omega arith) (omega arith)

run-missed_example :
    (s' : KhState) × (run complete (1100 ∷ 1107 ∷ []) ≡ some s')
    × (s'.seed ≡ add_bits 0x1234_5678 (sub64 1107 100) 1)
    × (s'.timer_seeds ≡ complete.timer_seeds)
    × (s'.seeds_index ≡ 0)
run-missed_example =
    run-missed complete 1100 1107 (omega arith) (omega arith) (omega arith) refl refl (omega arith)
