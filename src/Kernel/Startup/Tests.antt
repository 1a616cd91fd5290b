-- ===== src/Kernel/Startup/Tests.antt =====
-- A machine with no ramdisk and no init but the shell.
use is_there_entropy_down_th.Common.{ℕ, suc, ◌≡◌, refl, true, false, none, some, [], ◌∷◌}
use is_there_entropy_down_th.Common.Words.{Signed, plus, minus}
use is_there_entropy_down_th.Kernel.Params.{Str}
use is_there_entropy_down_th.Kernel.Startup.{
  Machine, Startup, is_zero, kernel_init, scheduling, returned,
}
use is_there_entropy_down_th.Kernel.Startup.Attempts.{Tried, candidates}
use is_there_entropy_down_th.Kernel.Startup.Boot.{kernel_init-Tried}

-- Executes "/bin/sh", the only name of seven bytes here.
abbrev only_shell : Str → Signed
only_shell (a ∷ b ∷ c ∷ d ∷ e ∷ f ∷ g ∷ []) = plus 0
only_shell _ = minus 1

abbrev machine : Machine
machine = record {
  World = ℕ;
  setup = λ w. w;
  open_console = λ w. (true, w);
  access = λ name w. (minus 1, w);
  prepare_namespace = suc;
  load_keys_and_modules = λ w. w;
  finish_init = λ w. w;
  execve = λ name argv envp w. (only_shell name, w);
}

abbrev at_boot : Startup machine
at_boot = record {
  params = record {
    argv_init = some (b'i' ∷ []) ∷ some (b's' ∷ []) ∷ none ∷ [];
    envp_init = none ∷ [];
    panic_later = none;
    panic_param = none;
    execute_command = none;
    ramdisk_execute_command = none;
    reset_devices = false;
  };
  system_state = scheduling;
  world = 0;
  execs = [];
  messages = [];
}

kernel_init-at_boot : (kernel_init machine at_boot).1 ≡ returned
unfolding kernel_init
kernel_init-at_boot = refl

kernel_init-Tried_example :
    Tried machine (candidates none none) none at_boot (kernel_init machine at_boot)
unfolding is_zero
kernel_init-Tried_example = kernel_init-Tried machine at_boot
