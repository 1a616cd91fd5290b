-- ===== src/Kernel/Startup/Attempts.antt =====
-- Which programs kernel_init tries, with what arguments, and how it ends.
use mathlib.Core.List.{append_assoc, append-nil}
use is_there_entropy_down_th.Common.{
  ◌≡◌, ◌∙◌, refl, sym, ap, Bool, true, false, Option, none, some, List, [], ◌∷◌, ◌++◌,
  if◌then◌else◌, set, Bool-cases, inl, inr,
}
use is_there_entropy_down_th.Kernel.Params.{Str}
use is_there_entropy_down_th.Kernel.Startup.{
  Machine, Message, Startup, Exec, Outcome, returned, requested_init_failed, no_working_init,
  is_zero, run_init_process, try_to_run_init_process, try_each, run_requested, run_ramdisk, report,
  failed_to_execute, sbin_init, etc_init, bin_init, bin_sh,
}

-- A call of a program with the stored options as its arguments and environment.
pub record IsCallOf (argv envp : List (Option Str)) (name : Str) (e : Exec) : Type 0 where
  program : e.program ≡ name
  argv_of : e.argv ≡ set argv 0 (some name)
  envp_of : e.envp ≡ envp

set_twice : (a : List (Option Str)) (x y : Option Str) → set (set a 0 x) 0 y ≡ set a 0 y
set_twice [] x y = refl
set_twice (z ∷ a) x y = refl

earlier :
    (argv : List (Option Str)) (x : Option Str) {envp : List (Option Str)} {name : Str} {e : Exec}
    → IsCallOf (set argv 0 x) envp name e
    → IsCallOf argv envp name e
earlier argv x {name = name} c = record {
  program = c.program;
  argv_of = c.argv_of ∙ set_twice argv x (some name);
  envp_of = c.envp_of;
}

-- The names are tried in order until a call returns 0; the flag says whether one did.
pub data Attempts (argv envp : List (Option Str)) : List Str → List Exec → Bool → Type 0 where
  none_left : Attempts argv envp [] [] false
  starts :
      (name : Str) (names : List Str) (e : Exec)
      → IsCallOf argv envp name e
      → is_zero e.ret ≡ true
      → Attempts argv envp (name ∷ names) (e ∷ []) true
  fails :
      (name : Str) (names : List Str) (e : Exec) (es : List Exec) (started : Bool)
      → IsCallOf argv envp name e
      → is_zero e.ret ≡ false
      → Attempts argv envp names es started
      → Attempts argv envp (name ∷ names) (e ∷ es) started

-- The outcome, given whether a program started, what "init=" asked for and the calls.
abbrev pub Ends : (started : Bool) → (command : Option Str) → List Exec → Outcome → Type 0
Ends true command es o = o ≡ returned
Ends false none es o = o ≡ no_working_init
Ends false (some command) es o =
    (before : List Exec) × (e : Exec) × (es ≡ before ++ e ∷ [])
    × (o ≡ requested_init_failed command e.ret)

abbrev pub requested_names : Option Str → List Str
requested_names none = sbin_init ∷ etc_init ∷ bin_init ∷ bin_sh ∷ []
requested_names (some command) = command ∷ []

abbrev pub candidates : (ramdisk command : Option Str) → List Str
candidates none command = requested_names command
candidates (some ramdisk) command = ramdisk ∷ requested_names command

earlier-Attempts :
    (x : Option Str) {argv envp : List (Option Str)} {names : List Str} {es : List Exec}
    {started : Bool}
    → Attempts (set argv 0 x) envp names es started
    → Attempts argv envp names es started
earlier-Attempts x none_left = none_left
earlier-Attempts x {argv} (starts name names e c z) = starts name names e (earlier argv x c) z
earlier-Attempts x {argv} (fails name names e es started c z more) =
    fails name names e es started (earlier argv x c) z (earlier-Attempts x more)

Ends-cons :
    (started : Bool) (command : Option Str) (e : Exec) (es : List Exec) (o : Outcome)
    → Ends started command es o
    → Ends started command (e ∷ es) o
Ends-cons true command e es o h = h
Ends-cons false none e es o h = h
Ends-cons false (some command) e es o (before, last, parts, panics) =
    (e ∷ before, last, ap (λ l. e ∷ l) parts, panics)

module _ (machine : Machine) where
  -- From a state on, the names are tried as `Attempts` says.
  pub record Tried (names : List Str) (command : Option Str) (s : Startup machine)
      (r : Startup machine × Outcome) : Type 0 where
    pub calls : List Exec
    pub started : Bool
    pub execs : r.0.execs ≡ s.execs ++ calls
    pub attempts : Attempts s.params.argv_init s.params.envp_init names calls started
    pub ends : Ends started command calls r.1

  -- One call later.
  record IsAfter (name : Str) (e : Exec) (s s' : Startup machine) : Type 0 where
    call : IsCallOf s.params.argv_init s.params.envp_init name e
    execs : s'.execs ≡ s.execs ++ e ∷ []
    argv : s'.params.argv_init ≡ set s.params.argv_init 0 (some name)
    envp : s'.params.envp_init ≡ s.params.envp_init
    command : s'.params.execute_command ≡ s.params.execute_command

  abbrev call_by : Str → Startup machine → Exec
  call_by name s = record {
    program = name;
    argv = set s.params.argv_init 0 (some name);
    envp = s.params.envp_init;
    ret = (run_init_process machine name s).1;
  }

  run_init_process-IsAfter :
      (name : Str) (s : Startup machine)
      → IsAfter name (call_by name s) s (run_init_process machine name s).0
  unfolding run_init_process
  run_init_process-IsAfter name s = record {
    call = record { program = refl; argv_of = refl; envp_of = refl };
    execs = refl;
    argv = refl;
    envp = refl;
    command = refl;
  }

  report-IsAfter :
      {name : Str} {e : Exec} {s s' : Startup machine} (b : Bool) (msg : Message)
      → IsAfter name e s s'
      → IsAfter name e s (if b then report machine msg s' else s')
  report-IsAfter true msg a = record {
    call = a.call;
    execs = a.execs;
    argv = a.argv;
    envp = a.envp;
    command = a.command;
  }
  report-IsAfter false msg a = a

  try_to_run-IsAfter :
      (name : Str) (s : Startup machine)
      → IsAfter name (call_by name s) s (try_to_run_init_process machine name s).0
  unfolding try_to_run_init_process
  try_to_run-IsAfter name s = report-IsAfter _ _ (run_init_process-IsAfter name s)

  try_to_run_ret :
      (name : Str) (s : Startup machine)
      → (try_to_run_init_process machine name s).1 ≡ (call_by name s).ret
  unfolding try_to_run_init_process
  try_to_run_ret name s = refl

  Tried-starts :
      {name : Str} {names : List Str} {e : Exec} {command : Option Str} {s s' : Startup machine}
      → IsAfter name e s s'
      → is_zero e.ret ≡ true
      → Tried (name ∷ names) command s (s', returned)
  Tried-starts {name} {names} {e} a z = record {
    calls = e ∷ [];
    started = true;
    execs = a.execs;
    attempts = starts name names e a.call z;
    ends = refl;
  }

  Tried-fails :
      {name : Str} {names : List Str} {e : Exec} {command : Option Str} {s s' : Startup machine}
      {r : Startup machine × Outcome}
      → IsAfter name e s s'
      → is_zero e.ret ≡ false
      → Tried names command s' r
      → Tried (name ∷ names) command s r
  Tried-fails {name} {names} {e} {command} {s} {s'} {r} a z t = record {
    calls = e ∷ t.calls;
    started = t.started;
    execs = t.execs ∙ ap (λ l. l ++ t.calls) a.execs ∙ append_assoc s.execs (e ∷ []) t.calls;
    attempts =
        fails name names e t.calls t.started a.call z
          (earlier-Attempts (some name) (rw (sym a.argv, sym a.envp) t.attempts));
    ends = Ends-cons t.started command e t.calls r.1 t.ends;
  }

  Tried-choice :
      {names : List Str} {command : Option Str} {s : Startup machine}
      {r r' : Startup machine × Outcome} (b : Bool)
      → (b ≡ true → Tried names command s r)
      → (b ≡ false → Tried names command s r')
      → Tried names command s (if b then r else r')
  Tried-choice true p q = p refl
  Tried-choice false p q = q refl

  try_each-Tried :
      (names : List Str) (s : Startup machine) → Tried names none s (try_each machine names s)
  unfolding try_each
  try_each-Tried [] s = record {
    calls = [];
    started = false;
    execs = rw append-nil;
    attempts = none_left;
    ends = refl;
  }
  try_each-Tried (name ∷ names) s =
      let a = try_to_run-IsAfter name s in
      let same = ap is_zero (sym (try_to_run_ret name s)) in
      Tried-choice (is_zero (try_to_run_init_process machine name s).1)
        (λ z. Tried-starts a (same ∙ z))
        (λ z.
          Tried-fails a (same ∙ z)
            (try_each-Tried names (try_to_run_init_process machine name s).0))

  run_init_process-Tried :
      (command : Str) (s : Startup machine)
      → let (s', ret) = run_init_process machine command s in
        Tried
          (command ∷ [])
          (some command)
          s
          (s', if is_zero ret then returned else requested_init_failed command ret)
  run_init_process-Tried command s =
      let a = run_init_process-IsAfter command s in
      elim (Bool-cases (is_zero (run_init_process machine command s).1)) [
        | inl z ↦ rw z (Tried-starts a z)
        | inr z ↦ rw z (record {
          calls = call_by command s ∷ [];
          started = false;
          execs = a.execs;
          attempts = fails command [] (call_by command s) [] false a.call z none_left;
          ends = ([], call_by command s, refl, refl);
        })
      ]

  run_requested-Tried :
      (command : Option Str) (s : Startup machine)
      → Tried (requested_names command) command s (run_requested machine command s)
  unfolding run_requested
  run_requested-Tried none s = try_each-Tried _ s
  run_requested-Tried (some command) s = run_init_process-Tried command s

  pub run_ramdisk-Tried :
      (ramdisk : Option Str) (s : Startup machine)
      → Tried
          (candidates ramdisk s.params.execute_command)
          s.params.execute_command
          s
          (run_ramdisk machine ramdisk s)
  unfolding run_ramdisk run_init_process
  run_ramdisk-Tried none s = run_requested-Tried s.params.execute_command s
  run_ramdisk-Tried (some name) s =
      let a = run_init_process-IsAfter name s in
      let (s', ret) = run_init_process machine name s in
      Tried-choice (is_zero ret) (λ z. Tried-starts a z)
        (λ z. Tried-fails (report-IsAfter true (failed_to_execute name ret) a) z (
          run_requested-Tried s.params.execute_command
            (report machine (failed_to_execute name ret) s')))
