-- ===== src/Kernel/Start/Tests.antt =====
-- A boot with one unknown option and one argument for init.
use is_there_entropy_down_th.Common.{
  ℕ, suc, ◌≡◌, refl, Bool, false, none, some, List, [], ◌∷◌, arith, replicate,
}
use is_there_entropy_down_th.Kernel.Params.{Str, KernelParams, Value, absent, plain, strncmp_eq}
use is_there_entropy_down_th.Kernel.Params.Setup.{main_table}
use is_there_entropy_down_th.Kernel.Params.Valid.{IsValid, main_table-AllKeep}
use is_there_entropy_down_th.Kernel.Start.{
  System, Start, Outcome, parse_options, parse_after, start_kernel,
}
use is_there_entropy_down_th.Kernel.Start.Outcomes.{Ends, start_kernel-Ends}

abbrev system : System
system = record {
  World = ℕ;
  phase = λ p w. (suc w.0, w.1);
  has_late_time_init = λ w. false;
  efi_runtime = λ w. false;
  initrd_below_start_ok = λ w. false;
  page_of = λ a. a;
  min_low_pfn = λ w. 0;
  timer_seeds = λ w. replicate 20 w;
}

abbrev powered_on : Start system
powered_on = record {
  world = 0;
  irqs_disabled = false;
  early_boot_irqs_disabled = false;
  preempt_count = 0;
  initrd_start = 0;
  params = record {
    argv_init = some (b'i' ∷ []) ∷ none ∷ none ∷ none ∷ [];
    envp_init = none ∷ none ∷ none ∷ none ∷ [];
    panic_later = none;
    panic_param = none;
    execute_command = none;
    ramdisk_execute_command = none;
    reset_devices = false;
  };
  messages = [];
}

powered_on-IsValid : IsValid 2 2 powered_on.params
powered_on-IsValid = record {
  args_size = refl;
  envs_size = refl;
  args_end = λ e. refl;
  envs_end = λ e. refl;
}

abbrev prefix : Str → Str → ℕ → Bool
prefix line name n = strncmp_eq n line name

abbrev one_option : List (Str × Value)
one_option = (b'f' ∷ [], plain (b'1' ∷ [])) ∷ []

start_kernel-Ends_example :
    (k1 k : KernelParams) × (parse_options prefix (main_table 2) 2 2 one_option powered_on.params
      ≡ some k1)
    × (parse_after 2 (some ((b's' ∷ [], absent) ∷ [])) k1 ≡ some k)
    × (r : Start system × Outcome) × (start_kernel system prefix
          (main_table 2)
          2
          2
          one_option
          (some ((b's' ∷ [], absent) ∷ []))
          powered_on
        ≡ some r)
    × IsValid 2 2 k
    × Ends system k r
start_kernel-Ends_example =
    start_kernel-Ends system prefix (main_table 2) 2 2 one_option (some ((b's' ∷ [], absent) ∷ []))
      powered_on (omega arith) (main_table-AllKeep 2 2) powered_on-IsValid
