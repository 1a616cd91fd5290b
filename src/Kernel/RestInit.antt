-- ===== src/Kernel/RestInit.antt =====
-- init/main.c: rest_init and kernel_init as two threads that the scheduler interleaves, up to the
-- program that init executes.
use is_there_entropy_down_th.Common.{
  ℕ, zero, suc, ◌+◌, ◌-◌, Bool, true, false, Option, none, some, List, [], ◌∷◌, ◌++◌, length,
  get_elem?,
}
pub mod Interleavings
pub mod Tests

pub data Task : Type 0 where
  init kthreadd worker : Task

pub data SystemState : Type 0 where
  booting scheduling running : SystemState

-- Where `rest_init` is, by the next call that it makes.
pub data BootPc : Type 0 where
  spawn_init pin_init spawn_kthreadd find_kthreadd enter_scheduling complete schedule idle : BootPc

-- Where `kernel_init` is: in `wait_for_completion`, in the rest of `kernel_init_freeable`, where it
-- sets `system_state`, or at the program it executes.
pub data InitPc : Type 0 where
  waiting preparing freeing executing : InitPc

-- The task with pid n is the n-th of `tasks`, from 1 on. `oops` is a kernel thread asked of a
-- kthreadd that there is not.
pub record Boot : Type 0 where
  pub boot : BootPc
  pub init_at : Option InitPc
  pub tasks : List Task
  pub pid : ℕ
  pub pinned : Option Task
  pub kthreadd_task : Option Task
  pub system_state : SystemState
  pub kthreadd_done : Bool
  pub oops : Bool

abbrev pub boot_initial : Boot
boot_initial = record {
  boot = spawn_init;
  init_at = none;
  tasks = [];
  pid = 0;
  pinned = none;
  kthreadd_task = none;
  system_state = booting;
  kthreadd_done = false;
  oops = false;
}

-- `find_task_by_pid_ns`
abbrev pub find_task_by_pid : List Task → ℕ → Option Task
find_task_by_pid tasks zero = none
find_task_by_pid tasks (suc n) = get_elem? tasks n

-- `kernel_thread` gives the next pid.
abbrev pub kernel_thread : Task → Boot → Boot
kernel_thread t b = record b { tasks = b.tasks ++ t ∷ []; pid = length b.tasks + 1 }

abbrev boot_step_from : BootPc → Boot → Boot
boot_step_from spawn_init b = record (kernel_thread init b) {
  boot = pin_init;
  init_at = some waiting;
}
boot_step_from pin_init b = record b {
  boot = spawn_kthreadd;
  pinned = find_task_by_pid b.tasks b.pid;
}
boot_step_from spawn_kthreadd b = record (kernel_thread kthreadd b) { boot = find_kthreadd }
boot_step_from find_kthreadd b = record b {
  boot = enter_scheduling;
  kthreadd_task = find_task_by_pid b.tasks b.pid;
}
boot_step_from enter_scheduling b = record b { boot = complete; system_state = scheduling }
boot_step_from complete b = record b { boot = schedule; kthreadd_done = true }
boot_step_from schedule b = record b { boot = idle }
boot_step_from idle b = b

-- The next call of `rest_init`.
pub boot_step : Boot → Boot
boot_step b = boot_step_from b.boot b

abbrev awake : Bool → Boot → Boot
awake false b = b
awake true b = record b { init_at = some preparing; kthreadd_done = false }

abbrev init_step_from : Option InitPc → Boot → Boot
init_step_from none b = b
init_step_from (some waiting) b = awake b.kthreadd_done b
init_step_from (some preparing) b = record b { init_at = some freeing }
init_step_from (some freeing) b = record b { init_at = some executing; system_state = running }
init_step_from (some executing) b = b

-- The next part of `kernel_init`; it stays where it is while it waits.
pub init_step : Boot → Boot
init_step b = init_step_from b.init_at b

abbrev ask_kthreadd : Option Task → Boot → Boot
ask_kthreadd none b = record b { oops = true }
ask_kthreadd (some _) b = record b { tasks = b.tasks ++ worker ∷ [] }

abbrev spawn_from : Option InitPc → Boot → Boot
spawn_from none b = b
spawn_from (some waiting) b = b
spawn_from (some _) b = ask_kthreadd b.kthreadd_task b

-- `workqueue_init` and what follows it may create kernel threads, once the wait is over.
pub init_spawns : Boot → Boot
init_spawns b = spawn_from b.init_at b

pub data Move : Type 0 where
  boot_moves init_moves init_asks : Move

unfoldable pub step : Move → Boot → Boot
unfolding boot_step init_step init_spawns
step boot_moves b = boot_step b
step init_moves b = init_step b
step init_asks b = init_spawns b

-- The scheduler's choices in turn.
unfoldable pub run : List Move → Boot → Boot
unfolding step
run [] b = b
run (m ∷ moves) b = run moves (step m b)
