-- ===== src/Kernel/Seeds/Races/Single.antt =====
-- The calls of one processor, while the others make no access, wherever in a call they are.
use is_there_entropy_down_th.Common.{ℕ, Option, none, some, List, [], ◌∷◌, ◌++◌, set, replicate}
use is_there_entropy_down_th.Kernel.Seeds.{KhState}
use is_there_entropy_down_th.Kernel.Seeds.Races.{Thread, Move, calls, accesses, interleave}

-- One call: its begin and its eleven accesses.
abbrev pub call_moves : (cpu counter : ℕ) → List Move
call_moves cpu v = calls cpu ∷ replicate 11 (accesses cpu v)

abbrev pub calls_moves : (cpu : ℕ) → (counters : List ℕ) → List Move
calls_moves cpu [] = []
calls_moves cpu (v ∷ vs) = call_moves cpu v ++ calls_moves cpu vs

-- What comes behind the call.
abbrev resumed :
    (cpu : ℕ) → List Move → List Thread → Option (KhState × Thread) → Option (KhState × List Thread)
resumed cpu moves ts none = none
resumed cpu moves ts (some (s, t)) = interleave moves s (set ts cpu t)
