-- ===== src/Kernel/Start.antt =====
-- init/main.c: start_kernel. The calls into other parts of the kernel are grouped into phases, of
-- which only the effect on the machine and on the interrupt flag is seen.
use is_there_entropy_down_th.Common.{
  ℕ, zero, suc, ◌+◌, Bool, true, false, not, ◌&&◌, Option, none, some, List, [], ◌∷◌, ◌++◌,
  if◌then◌else◌, ltb, ◌==◌, ◌>>=◌, take,
}
use is_there_entropy_down_th.Kernel.Params.{Str, KernelParams, Value, set_init_arg}
use is_there_entropy_down_th.Kernel.Params.Setup.{ObsKernelParam, unknown_bootoption}
pub mod Outcomes
pub mod Tests

-- The phases of start_kernel, by their first call.
pub data Phase : Type 0 where
  boot_cpu_init jump_label_init radix_tree_init kmem_cache_init_late lockdep_info page_ext_init
        late_time_init calibrate_delay efi_free_boot_services :
      Phase

pub data Message : Type 0 where
  interrupts_very_early interrupts_early initrd_overwritten : Message
  got_seeds : List ℕ → Message

pub data Outcome : Type 0 where
  in_rest_init : Outcome
  panicked : (panic_later panic_param : Option Str) → Outcome

pub record System : Type 1 where
  pub World : Type 0
  pub phase : Phase → World × Bool → World × Bool
  pub has_late_time_init : World → Bool
  pub efi_runtime : World → Bool
  pub initrd_below_start_ok : World → Bool
  pub page_of : (address : ℕ) → ℕ
  pub min_low_pfn : World → ℕ
  pub timer_seeds : World → List ℕ

module _ (parameqn : Str → Str → ℕ → Bool) (table : List ObsKernelParam) (args envs : ℕ) where
  -- `parse_args` with `unknown_bootoption`, over the options that no kernel parameter takes.
  pub parse_options : List (Str × Value) → KernelParams → Option KernelParams
  parse_options [] k = some k
  parse_options ((param, val) ∷ options) k = do
    k' ← unknown_bootoption parameqn table args envs param val k
    parse_options options k'

-- `parse_args` with `set_init_arg`, over what follows "--".
pub parse_init_args : (args : ℕ) → List (Str × Value) → KernelParams → Option KernelParams
parse_init_args args [] k = some k
parse_init_args args ((param, val) ∷ options) k = do
  k' ← set_init_arg args param val k
  parse_init_args args options k'

-- `if (!IS_ERR_OR_NULL(after_dashes))`
abbrev pub parse_after :
    (args : ℕ) → Option (List (Str × Value)) → KernelParams → Option KernelParams
parse_after args none k = some k
parse_after args (some options) k = parse_init_args args options k

module _ (system : System) where
  open system use {
    World, phase, has_late_time_init, efi_runtime, initrd_below_start_ok, page_of, min_low_pfn,
    timer_seeds,
  }

  pub record Start : Type 0 where
    pub world : World
    pub irqs_disabled : Bool
    pub early_boot_irqs_disabled : Bool
    pub preempt_count : ℕ
    pub initrd_start : ℕ
    pub params : KernelParams
    pub messages : List Message

  abbrev pub report_if : Bool → Message → Start → Start
  report_if b msg s = record s { messages = if b then s.messages ++ msg ∷ [] else s.messages }

  -- A phase under a condition.
  abbrev pub run_phase_if : Bool → Phase → Start → Start
  run_phase_if b p s =
      let (w, irqs) =
        if b then phase p (s.world, s.irqs_disabled) else (s.world, s.irqs_disabled) in
      record s { world = w; irqs_disabled = irqs }

  abbrev pub run_phase : Phase → Start → Start
  run_phase p s = run_phase_if true p s

  -- Up to the command line, with interrupts disabled.
  abbrev pub begin_boot : Start → Start
  begin_boot s =
      run_phase boot_cpu_init (record s { irqs_disabled = true; early_boot_irqs_disabled = true })

  -- sched_init() and `preempt_disable`: interrupts that were enabled very early are disabled again.
  abbrev pub start_sched : Start → Start
  start_sched s =
      let s1 = run_phase jump_label_init s in
      let s2 = record (report_if (not s1.irqs_disabled) interrupts_very_early s1) {
        preempt_count = s1.preempt_count + 1;
        irqs_disabled = true;
      } in
      run_phase radix_tree_init s2

  abbrev pub enable_interrupts : Start → Start
  enable_interrupts s = record (report_if (not s.irqs_disabled) interrupts_early s) {
    early_boot_irqs_disabled = false;
    irqs_disabled = false;
  }

  -- `if (initrd_start && !initrd_below_start_ok && page < min_low_pfn) initrd_start = 0`
  abbrev pub check_initrd : Start → Start
  check_initrd s =
      let bad =
        not (s.initrd_start == 0)
        && (not (initrd_below_start_ok s.world)
            && ltb (page_of s.initrd_start) (min_low_pfn s.world)) in
      report_if bad initrd_overwritten
        (record s { initrd_start = if bad then 0 else s.initrd_start })

  -- From `lockdep_info` to `rest_init`, with the print of the twenty seeds.
  abbrev pub finish_boot : Start → Start
  finish_boot s =
      let s1 = run_phase page_ext_init (check_initrd (run_phase lockdep_info s)) in
      let s2 = run_phase_if (has_late_time_init s1.world) late_time_init s1 in
      let s3 = run_phase calibrate_delay s2 in
      let s4 = report_if true (got_seeds (take 20 (timer_seeds s3.world))) s3 in
      run_phase_if (efi_runtime s4.world) efi_free_boot_services s4

  -- `if (panic_later) panic(...)`
  abbrev pub panic_or_finish : Option Str → Start → Start × Outcome
  panic_or_finish (some what) s = (s, panicked (some what) s.params.panic_param)
  panic_or_finish none s = (finish_boot s, in_rest_init)

  module _ (parameqn : Str → Str → ℕ → Bool) (table : List ObsKernelParam) (args envs : ℕ) where
    -- `none` is undefined behaviour of an option's handler.
    pub start_kernel :
        (options : List (Str × Value)) (after_dashes : Option (List (Str × Value)))
        → Start
        → Option (Start × Outcome)
    unfolding parse_options parse_init_args
    start_kernel options after_dashes s = do
      k ← parse_options parameqn table args envs options s.params
      k' ← parse_after args after_dashes k
      let s1 = enable_interrupts (start_sched (record (begin_boot s) { params = k' })) in
          let s2 = run_phase kmem_cache_init_late s1 in
          some (panic_or_finish s2.params.panic_later s2)
