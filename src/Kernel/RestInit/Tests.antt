-- ===== src/Kernel/RestInit/Tests.antt =====
-- An interleaving in which init runs as soon as it can.
use is_there_entropy_down_th.Common.{◌≡◌, false, some, List, [], ◌∷◌}
use is_there_entropy_down_th.Kernel.RestInit.{
  Move, boot_moves, init_moves, init_asks, boot_initial, run, idle, executing, running,
}
use is_there_entropy_down_th.Kernel.RestInit.Interleavings.{
  IsReady, to_the_end, run-IsReady, run-to_the_end,
}

abbrev eager : List Move
eager =
    boot_moves ∷ init_moves ∷ init_asks ∷ boot_moves ∷ boot_moves ∷ init_moves ∷ boot_moves
    ∷ boot_moves ∷ boot_moves ∷ init_moves ∷ init_asks ∷ []

run-IsReady_example : let b = run eager boot_initial in (b.oops ≡ false) × IsReady b.init_at b
run-IsReady_example = run-IsReady eager

run-to_the_end_example :
    let b = run to_the_end (run eager boot_initial) in
    (b.boot ≡ idle) × (b.init_at ≡ some executing) × (b.system_state ≡ running)
run-to_the_end_example = run-to_the_end eager
