-- ===== src/Kernel/RestInit/Interleavings.antt =====
-- What holds however the scheduler interleaves rest_init and kernel_init.
use is_there_entropy_down_th.Common.{
  ℕ, ◌≡◌, refl, Bool, true, false, Option, none, some, List, [], ◌∷◌, ◌++◌, replicate, ◌⊎◌, inl,
  inr,
}
use is_there_entropy_down_th.Kernel.RestInit.{
  Task, init, kthreadd, worker, SystemState, booting, scheduling, running, BootPc, pin_init,
  spawn_kthreadd, find_kthreadd, enter_scheduling, complete, schedule, idle, InitPc, waiting,
  preparing, freeing, executing, Boot, boot_initial, Move, boot_moves, init_moves, init_asks, step,
  run,
}

-- What the system state is, once `kthreadd_done` is complete.
abbrev state_at : InitPc → SystemState
state_at executing = running
state_at _ = scheduling

-- `complete` and the first wait: a second wait would block.
abbrev done_at : InitPc → Bool
done_at waiting = true
done_at _ = false

abbrev before_init : Boot
before_init = boot_initial

abbrev before :
    (pc : BootPc)
    → (pid : ℕ) → (more : List Task) → (pinned task : Option Task) → SystemState
    → Boot
before pc pid more pinned task state = record {
  boot = pc;
  init_at = some waiting;
  tasks = init ∷ more;
  pid = pid;
  pinned = pinned;
  kthreadd_task = task;
  system_state = state;
  kthreadd_done = false;
  oops = false;
}

abbrev after : (pc : BootPc) → InitPc → List Task → Boot
after pc i workers = record {
  boot = pc;
  init_at = some i;
  tasks = init ∷ kthreadd ∷ workers;
  pid = 2;
  pinned = some init;
  kthreadd_task = some kthreadd;
  system_state = state_at i;
  kthreadd_done = done_at i;
  oops = false;
}

-- The states that the two threads can reach.
data Reached : Boot → Type 0 where
  at_spawn_init : Reached boot_initial
  at_pin_init : Reached (before pin_init 1 [] none none booting)
  at_spawn_kthreadd : Reached (before spawn_kthreadd 1 [] (some init) none booting)
  at_find_kthreadd : Reached (before find_kthreadd 2 (kthreadd ∷ []) (some init) none booting)
  at_enter_scheduling :
      Reached (before enter_scheduling 2 (kthreadd ∷ []) (some init) (some kthreadd) booting)
  at_complete : Reached (before complete 2 (kthreadd ∷ []) (some init) (some kthreadd) scheduling)
  at_schedule : (i : InitPc) (workers : List Task) → Reached (after schedule i workers)
  at_idle : (i : InitPc) (workers : List Task) → Reached (after idle i workers)

init_step-Reached : {b : Boot} → Reached b → Reached (step init_moves b)
unfolding step
init_step-Reached at_spawn_init = at_spawn_init
init_step-Reached at_pin_init = at_pin_init
init_step-Reached at_spawn_kthreadd = at_spawn_kthreadd
init_step-Reached at_find_kthreadd = at_find_kthreadd
init_step-Reached at_enter_scheduling = at_enter_scheduling
init_step-Reached at_complete = at_complete
init_step-Reached (at_schedule waiting ws) = at_schedule preparing ws
init_step-Reached (at_schedule preparing ws) = at_schedule freeing ws
init_step-Reached (at_schedule freeing ws) = at_schedule executing ws
init_step-Reached (at_schedule executing ws) = at_schedule executing ws
init_step-Reached (at_idle waiting ws) = at_idle preparing ws
init_step-Reached (at_idle preparing ws) = at_idle freeing ws
init_step-Reached (at_idle freeing ws) = at_idle executing ws
init_step-Reached (at_idle executing ws) = at_idle executing ws

boot_step-Reached : {b : Boot} → Reached b → Reached (step boot_moves b)
unfolding step
boot_step-Reached at_spawn_init = at_pin_init
boot_step-Reached at_pin_init = at_spawn_kthreadd
boot_step-Reached at_spawn_kthreadd = at_find_kthreadd
boot_step-Reached at_find_kthreadd = at_enter_scheduling
boot_step-Reached at_enter_scheduling = at_complete
boot_step-Reached at_complete = at_schedule waiting []
boot_step-Reached (at_schedule i ws) = at_idle i ws
boot_step-Reached (at_idle i ws) = at_idle i ws

asks-Reached : {b : Boot} → Reached b → Reached (step init_asks b)
unfolding step
asks-Reached at_spawn_init = at_spawn_init
asks-Reached at_pin_init = at_pin_init
asks-Reached at_spawn_kthreadd = at_spawn_kthreadd
asks-Reached at_find_kthreadd = at_find_kthreadd
asks-Reached at_enter_scheduling = at_enter_scheduling
asks-Reached at_complete = at_complete
asks-Reached (at_schedule waiting ws) = at_schedule waiting ws
asks-Reached (at_schedule preparing ws) = at_schedule preparing (ws ++ worker ∷ [])
asks-Reached (at_schedule freeing ws) = at_schedule freeing (ws ++ worker ∷ [])
asks-Reached (at_schedule executing ws) = at_schedule executing (ws ++ worker ∷ [])
asks-Reached (at_idle waiting ws) = at_idle waiting ws
asks-Reached (at_idle preparing ws) = at_idle preparing (ws ++ worker ∷ [])
asks-Reached (at_idle freeing ws) = at_idle freeing (ws ++ worker ∷ [])
asks-Reached (at_idle executing ws) = at_idle executing (ws ++ worker ∷ [])

run-Reached : (moves : List Move) {b : Boot} → Reached b → Reached (run moves b)
unfolding run
run-Reached [] r = r
run-Reached (boot_moves ∷ moves) r = run-Reached moves (boot_step-Reached r)
run-Reached (init_moves ∷ moves) r = run-Reached moves (init_step-Reached r)
run-Reached (init_asks ∷ moves) r = run-Reached moves (asks-Reached r)

-- The threads are as init and kthreadd expect to find them.
abbrev pub IsReady : Option InitPc → Boot → Type 0
IsReady none b = b.system_state ≡ booting
IsReady (some waiting) b = (b.system_state ≡ booting) ⊎ (b.system_state ≡ scheduling)
IsReady (some executing) b =
    (b.system_state ≡ running) × (b.kthreadd_task ≡ some kthreadd) × (b.pinned ≡ some init)
IsReady (some _) b =
    (b.system_state ≡ scheduling) × (b.kthreadd_task ≡ some kthreadd) × (b.pinned ≡ some init)

Reached-IsReady : {b : Boot} → Reached b → (b.oops ≡ false) × IsReady b.init_at b
Reached-IsReady at_spawn_init = (refl, refl)
Reached-IsReady at_pin_init = (refl, inl refl)
Reached-IsReady at_spawn_kthreadd = (refl, inl refl)
Reached-IsReady at_find_kthreadd = (refl, inl refl)
Reached-IsReady at_enter_scheduling = (refl, inl refl)
Reached-IsReady at_complete = (refl, inr refl)
Reached-IsReady (at_schedule waiting ws) = (refl, inr refl)
Reached-IsReady (at_schedule preparing ws) = (refl, (refl, refl, refl))
Reached-IsReady (at_schedule freeing ws) = (refl, (refl, refl, refl))
Reached-IsReady (at_schedule executing ws) = (refl, (refl, refl, refl))
Reached-IsReady (at_idle waiting ws) = (refl, inr refl)
Reached-IsReady (at_idle preparing ws) = (refl, (refl, refl, refl))
Reached-IsReady (at_idle freeing ws) = (refl, (refl, refl, refl))
Reached-IsReady (at_idle executing ws) = (refl, (refl, refl, refl))

-- However the two threads interleave, no kernel thread is asked of a kthreadd that is not there. Once
-- init is past its wait, kthreadd is known, the task that was pinned is init, and the system state is
-- SCHEDULING until init sets it to RUNNING, which nothing takes back.
pub run-IsReady :
    (moves : List Move) → let b = run moves boot_initial in (b.oops ≡ false) × IsReady b.init_at b
run-IsReady moves = Reached-IsReady (run-Reached moves at_spawn_init)

abbrev pub to_the_end : List Move
to_the_end = replicate 7 boot_moves ++ replicate 3 init_moves

Reached-ends :
    {b : Boot}
    → Reached b
    → let b' = run to_the_end b in
      (b'.boot ≡ idle) × (b'.init_at ≡ some executing) × (b'.system_state ≡ running)
unfolding run step
Reached-ends at_spawn_init = (refl, refl, refl)
Reached-ends at_pin_init = (refl, refl, refl)
Reached-ends at_spawn_kthreadd = (refl, refl, refl)
Reached-ends at_find_kthreadd = (refl, refl, refl)
Reached-ends at_enter_scheduling = (refl, refl, refl)
Reached-ends at_complete = (refl, refl, refl)
Reached-ends (at_schedule waiting ws) = (refl, refl, refl)
Reached-ends (at_schedule preparing ws) = (refl, refl, refl)
Reached-ends (at_schedule freeing ws) = (refl, refl, refl)
Reached-ends (at_schedule executing ws) = (refl, refl, refl)
Reached-ends (at_idle waiting ws) = (refl, refl, refl)
Reached-ends (at_idle preparing ws) = (refl, refl, refl)
Reached-ends (at_idle freeing ws) = (refl, refl, refl)
Reached-ends (at_idle executing ws) = (refl, refl, refl)

-- There is no deadlock: after any interleaving, seven steps of the boot thread and then three of init
-- bring the boot thread to its idle loop and init to its program.
pub run-to_the_end :
    (moves : List Move)
    → let b = run to_the_end (run moves boot_initial) in
      (b.boot ≡ idle) × (b.init_at ≡ some executing) × (b.system_state ≡ running)
run-to_the_end moves = Reached-ends (run-Reached moves at_spawn_init)
