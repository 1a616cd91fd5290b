-- ===== src/Kernel/Startup/Boot.antt =====
-- What kernel_init as a whole tries, after kernel_init_freeable.
use mathlib.Core.Path.{ap₂, subst₂}
use is_there_entropy_down_th.Common.{
  ◌≡◌, ◌∙◌, refl, sym, ap, Option, none, some, List, ◌++◌, if◌then◌else◌, Bool-cases, inl, inr,
}
use is_there_entropy_down_th.Kernel.Params.{Str, KernelParams}
use is_there_entropy_down_th.Kernel.Startup.{
  Machine, Startup, Outcome, running, is_zero, find_ramdisk_init, open_first_console,
  kernel_init_freeable, kernel_init, or_slash_init,
}
use is_there_entropy_down_th.Kernel.Startup.Attempts.{Tried, candidates, run_ramdisk-Tried}

module _ (machine : Machine) where
  Tried-from :
      {names : List Str} {command : Option Str} {s s' : Startup machine}
      {r : Startup machine × Outcome}
      → s'.params.argv_init ≡ s.params.argv_init
      → s'.params.envp_init ≡ s.params.envp_init
      → s'.execs ≡ s.execs
      → Tried machine names command s' r
      → Tried machine names command s r
  Tried-from argv envp execs t = record {
    calls = t.calls;
    started = t.started;
    execs = t.execs ∙ ap (λ l. l ++ t.calls) execs;
    attempts = rw (sym argv, sym envp) t.attempts;
    ends = t.ends;
  }

  open_first_console_lem :
      (s : Startup machine)
      → let s' = open_first_console machine s in
        (s'.params ≡ s.params)
        × (s'.execs ≡ s.execs)
        × (s'.world ≡ (machine.open_console s.world).1)
  unfolding open_first_console
  open_first_console_lem s = elim (Bool-cases (machine.open_console s.world).0) [
    | inl e ↦ rw e (refl, refl, refl)
    | inr e ↦ rw e (refl, refl, refl)
  ]

  abbrev with_found_init : KernelParams → machine.World → KernelParams
  with_found_init p w =
      let name = or_slash_init machine p.ramdisk_execute_command in
      record p {
        ramdisk_execute_command = if is_zero (machine.access name w).0 then some name else none;
      }

  find_ramdisk_init_lem :
      (s : Startup machine)
      → let s' = find_ramdisk_init machine s in
        (s'.params ≡ with_found_init s.params s.world) × (s'.execs ≡ s.execs)
  unfolding find_ramdisk_init
  find_ramdisk_init_lem s =
      elim (Bool-cases (
        is_zero
          (machine.access (or_slash_init machine s.params.ramdisk_execute_command) s.world).0)) [
            | inl e ↦ rw e (refl, refl)
            | inr e ↦ rw e (refl, refl)
          ]

  kernel_init_freeable_lem :
      (s : Startup machine)
      → let s' = kernel_init_freeable machine s in
        (s'.params ≡ with_found_init s.params (machine.open_console (machine.setup s.world)).1)
        × (s'.execs ≡ s.execs)
  unfolding kernel_init_freeable
  kernel_init_freeable_lem s =
      let begun : Startup machine = record s { world = machine.setup s.world } in
      let (params, execs, world) = open_first_console_lem begun in
      let (params', execs') = find_ramdisk_init_lem (open_first_console machine begun) in
      (params' ∙ ap₂ with_found_init params world, execs' ∙ execs)

  Tried-same :
      {names names' : List Str} {command command' : Option Str} {s : Startup machine}
      {r : Startup machine × Outcome}
      → names ≡ names'
      → command ≡ command'
      → Tried machine names command s r
      → Tried machine names' command' s r
  Tried-same {s = s} {r = r} p q t = subst₂ (λ n c. Tried machine n c s r) p q t

  -- A ramdisk's program, if it can be accessed once the console was tried, then the program of
  -- "init=" alone or else the four usual ones, are executed in this order, with the options stored
  -- for init, until one call returns 0. If none does, the kernel panics, naming the program of
  -- "init=" and its error if there is one.
  pub kernel_init-Tried :
      (s : Startup machine)
      → let name = or_slash_init machine s.params.ramdisk_execute_command in
        let w = (machine.open_console (machine.setup s.world)).1 in
        Tried machine
          (candidates
            (if is_zero (machine.access name w).0 then some name else none)
            s.params.execute_command)
          s.params.execute_command
          s
          (kernel_init machine s)
  unfolding kernel_init
  kernel_init-Tried s =
      let s' = kernel_init_freeable machine s in
      let s'' : Startup machine = record s' {
        world = machine.finish_init s'.world;
        system_state = running;
      } in
      let (e, execs) = kernel_init_freeable_lem s in
      Tried-from (ap (λ p. p.argv_init) e) (ap (λ p. p.envp_init) e) execs (
        Tried-same (ap (λ p. candidates p.ramdisk_execute_command p.execute_command) e)
          (ap (λ p. p.execute_command) e)
          (run_ramdisk-Tried machine s'.params.ramdisk_execute_command s''))
