-- ===== src/Kernel/Startup.antt =====
-- init/main.c: kernel_init, from the last setup of the kernel to the first program of user space.
use is_there_entropy_down_th.Common.{
  ℕ, zero, suc, ◌≡◌, Bool, true, false, not, ◌&&◌, Option, none, some, List, [], ◌∷◌, ◌++◌,
  if◌then◌else◌, set,
}
use is_there_entropy_down_th.Common.Words.{Signed, plus, minus}
use is_there_entropy_down_th.Kernel.Params.{Str, KernelParams}
pub mod Attempts
pub mod Boot
pub mod Tests

-- One call of `do_execve`, and the int that it returned.
pub record Exec : Type 0 where
  pub program : Str
  pub argv : List (Option Str)
  pub envp : List (Option Str)
  pub ret : Signed

-- What `pr_err` and `pr_warn` report.
pub data Message : Type 0 where
  no_console : Message
  failed_to_execute : Str → Signed → Message
  could_not_execute : Str → Signed → Message

pub data SystemState : Type 0 where
  scheduling running : SystemState

-- How `kernel_init` ends: it returns 0 into the program that was executed, or it panics.
pub data Outcome : Type 0 where
  returned : Outcome
  requested_init_failed : Str → Signed → Outcome
  no_working_init : Outcome

-- The rest of the kernel, over a state of the machine.
pub record Machine : Type 1 where
  pub World : Type 0
  pub setup : World → World
  pub open_console : World → Bool × World
  pub access : Str → World → Signed × World
  pub prepare_namespace : World → World
  pub load_keys_and_modules : World → World
  pub finish_init : World → World
  pub execve : (program : Str) (argv envp : List (Option Str)) → World → Signed × World

unfoldable pub is_zero : Signed → Bool
is_zero (plus zero) = true
is_zero (plus (suc _)) = false
is_zero (minus _) = false

-- -ENOENT
pub is_enoent : Signed → Bool
is_enoent (minus (suc zero)) = true
is_enoent _ = false

abbrev pub slash_init : Str
slash_init = b'/' ∷ b'i' ∷ b'n' ∷ b'i' ∷ b't' ∷ []

abbrev pub sbin_init : Str
sbin_init = b'/' ∷ b's' ∷ b'b' ∷ b'i' ∷ b'n' ∷ slash_init

abbrev pub etc_init : Str
etc_init = b'/' ∷ b'e' ∷ b't' ∷ b'c' ∷ slash_init

abbrev pub bin_init : Str
bin_init = b'/' ∷ b'b' ∷ b'i' ∷ b'n' ∷ slash_init

abbrev pub bin_sh : Str
bin_sh = b'/' ∷ b'b' ∷ b'i' ∷ b'n' ∷ b'/' ∷ b's' ∷ b'h' ∷ []

module _ (machine : Machine) where
  open machine use {
    World, setup, open_console, access, prepare_namespace, load_keys_and_modules, finish_init,
    execve,
  }

  -- The variables that `kernel_init` reads and writes, the calls it made and what it reported.
  pub record Startup : Type 0 where
    pub params : KernelParams
    pub system_state : SystemState
    pub world : World
    pub execs : List Exec
    pub messages : List Message

  abbrev pub report : Message → Startup → Startup
  report msg s = record s { messages = s.messages ++ msg ∷ [] }

  -- `argv_init[0] = init_filename; return do_execve(...)`
  pub run_init_process : Str → Startup → Startup × Signed
  run_init_process init_filename s =
      let argv = set s.params.argv_init 0 (some init_filename) in
      let (ret, w) = execve init_filename argv s.params.envp_init s.world in
      let call : Exec = record {
        program = init_filename;
        argv = argv;
        envp = s.params.envp_init;
        ret = ret;
      } in
      (
        record s {
          params = record s.params { argv_init = argv };
          world = w;
          execs = s.execs ++ call ∷ [];
        },
        ret,
      )

  pub try_to_run_init_process : Str → Startup → Startup × Signed
  unfolding run_init_process is_zero is_enoent
  try_to_run_init_process init_filename s =
      let (s', ret) = run_init_process init_filename s in
      (
        if not (is_zero ret) && not (is_enoent ret)
            then report (could_not_execute init_filename ret) s'
            else s',
        ret,
      )

  -- `!try_to_run_init_process(a) || !try_to_run_init_process(b) || ...`
  pub try_each : List Str → Startup → Startup × Outcome
  unfolding try_to_run_init_process
  try_each [] s = (s, no_working_init)
  try_each (name ∷ names) s =
      let (s', ret) = try_to_run_init_process name s in
      let rest = try_each names s' in if is_zero ret then (s', returned) else rest

  -- `if (execute_command) ...`, and what follows it
  pub run_requested : Option Str → Startup → Startup × Outcome
  unfolding run_init_process try_each
  run_requested none s = try_each (sbin_init ∷ etc_init ∷ bin_init ∷ bin_sh ∷ []) s
  run_requested (some command) s =
      let (s', ret) = run_init_process command s in
      (s', if is_zero ret then returned else requested_init_failed command ret)

  -- `if (ramdisk_execute_command) ...`, and what follows it
  pub run_ramdisk : Option Str → Startup → Startup × Outcome
  unfolding run_requested
  run_ramdisk none s = run_requested s.params.execute_command s
  run_ramdisk (some command) s =
      let (s', ret) = run_init_process command s in
      let next =
        run_requested s'.params.execute_command (report (failed_to_execute command ret) s') in
      if is_zero ret then (s', returned) else next

  abbrev pub or_slash_init : Option Str → Str
  or_slash_init none = slash_init
  or_slash_init (some command) = command

  -- The end of `kernel_init_freeable`: an early init is kept if it can be accessed.
  pub find_ramdisk_init : Startup → Startup
  find_ramdisk_init s =
      let command = or_slash_init s.params.ramdisk_execute_command in
      let (ret, w) = access command s.world in
      if is_zero ret
      then record s {
        params = record s.params { ramdisk_execute_command = some command };
        world = w;
      }
      else record s {
        params = record s.params { ramdisk_execute_command = none };
        world = prepare_namespace w;
      }

  -- `sys_open` and the two `sys_dup`; only a failure to open is reported.
  pub open_first_console : Startup → Startup
  open_first_console s =
      let (opened, w) = open_console s.world in
      let s' = record s { world = w } in if opened then s' else report no_console s'

  -- Its waiting for kthreadd is the subject of RestInit. `setup` is what is between the wait and the
  -- console, the initcalls included.
  pub kernel_init_freeable : Startup → Startup
  unfolding find_ramdisk_init open_first_console
  kernel_init_freeable s =
      let s' = find_ramdisk_init (open_first_console (record s { world = setup s.world })) in
      record s' { world = load_keys_and_modules s'.world }

  -- `finish_init` is async_synchronize_full() and the calls up to rcu_end_inkernel_boot() that do
  -- not concern these variables.
  pub kernel_init : Startup → Startup × Outcome
  unfolding kernel_init_freeable run_ramdisk
  kernel_init s =
      let s' = kernel_init_freeable s in
      let s'' = record s' { world = finish_init s'.world; system_state = running } in
      run_ramdisk s''.params.ramdisk_execute_command s''
