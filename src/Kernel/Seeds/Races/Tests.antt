-- ===== src/Kernel/Seeds/Races/Tests.antt =====
-- Two processors that call at once.
use is_there_entropy_down_th.Common.{
  ℕ, ◌+◌, ◌≡◌, ◌≤◌, refl, Option, some, List, [], ◌∷◌, ◌++◌, length, replicate, arith,
}
use is_there_entropy_down_th.Kernel.Seeds.{KhState}
use is_there_entropy_down_th.Kernel.Seeds.Races.{
  Thread, finished, Move, calls, accesses, interleave,
}
use is_there_entropy_down_th.Common.Words.{minus_one64}
use is_there_entropy_down_th.Kernel.Seeds.Races.Cpus.{interleave-IsSafe}

-- A boot with the last seed to be stored.
abbrev nearly_full : KhState
nearly_full = record {
  last_timestamp = 5;
  last_delta = 0;
  seed = 7;
  global_times = 8;
  seeds_index = 19;
  timer_seeds = replicate 20 0;
}

abbrev both_in_turn : ℕ → List Move
both_in_turn v = accesses 0 v ∷ accesses 1 v ∷ []

abbrev both : List Move
both =
    calls 0 ∷ calls 1 ∷ both_in_turn 3000
    ++ both_in_turn 3001
    ++ both_in_turn 3002
    ++ both_in_turn 3003
    ++ both_in_turn 3004
    ++ both_in_turn 3005
    ++ both_in_turn 3006
    ++ both_in_turn 3007

abbrev index_of : Option (KhState × List Thread) → ℕ
index_of (some (s, ts)) = s.seeds_index
index_of _ = 0

-- Both store the same seed at the last place, and the index passes the end.
both_store : index_of (interleave both nearly_full (finished ∷ finished ∷ [])) ≡ 21
unfolding interleave
both_store = refl

interleave-IsSafe_example :
    (s' : KhState) × (ts' : List Thread) × (interleave both nearly_full (finished ∷ finished ∷ [])
      ≡ some (s', ts'))
    × (length s'.timer_seeds ≡ 20)
    × (s'.seeds_index ≤ 19 + 2)
interleave-IsSafe_example =
    interleave-IsSafe 2 (omega arith) both nearly_full (finished ∷ finished ∷ []) (record {
      size = refl;
      times = omega arith;
      threads = refl;
      index = omega arith;
      hold = (tt, (tt, tt));
    })

-- The first seed is complete, and the second processor has read the number of calls.
abbrev complete : KhState
complete = record {
  last_timestamp = 100;
  last_delta = 2000;
  seed = 0x1234_5678;
  global_times = 8;
  seeds_index = 0;
  timer_seeds = replicate 20 minus_one64;
}
