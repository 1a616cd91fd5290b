-- ===== src/Kernel/Params/Setup.antt =====
-- The option handlers that go through the table of `__setup` and `early_param` entries.
use is_there_entropy_down_th.Common.{
  ℕ, zero, suc, ◌-◌, Bool, true, false, not, ◌&&◌, ◌||◌, Option, none, some, List, [], ◌∷◌,
  if◌then◌else◌, ◌==◌, ◌>>=◌, length, set, get_elem?, drop,
}
use is_there_entropy_down_th.Kernel.Params.{
  Str, KernelParams, Value, absent, repaired, is_module_parameter, set_env, set_arg,
}

-- An entry of the table; `setup_func` is NULL or a function that says whether it took the option,
-- by a result that is not 0.
pub record ObsKernelParam : Type 0 where
  pub str : Str
  pub setup_func : Option (Option Str → KernelParams → KernelParams × Bool)
  pub early : Bool

-- `line[n] == '\0' || line[n] == '='`
pub ends_name : Str → ℕ → Bool
ends_name line n = elim (get_elem? line n) [ none ↦ n == length line | some c ↦ c == b'=' ]

-- `for (i = 1; i < MAX_INIT_ARGS; i++) argv_init[i] = NULL;`, with the rounds left.
unfoldable pub clear_args : (rounds i : ℕ) → List (Option Str) → List (Option Str)
clear_args zero i a = a
clear_args (suc rounds) i a = clear_args rounds (suc i) (set a i none)

-- "init=" and "rdinit=": the program, without the arguments that came before it.
unfoldable pub init_setup : (limit : ℕ) → Option Str → KernelParams → KernelParams × Bool
init_setup limit str k =
    (record k { execute_command = str; argv_init = clear_args (limit - 1) 1 k.argv_init }, true)

unfoldable pub rdinit_setup : (limit : ℕ) → Option Str → KernelParams → KernelParams × Bool
rdinit_setup limit str k = (
  record k { ramdisk_execute_command = str; argv_init = clear_args (limit - 1) 1 k.argv_init },
  true,
)

unfoldable pub set_reset_devices : Option Str → KernelParams → KernelParams × Bool
set_reset_devices str k = (record k { reset_devices = true }, true)

-- The `__setup` lines of init/main.c that are modelled.
abbrev pub main_table : (limit : ℕ) → List ObsKernelParam
main_table limit =
    record {
      str =
          b'r' ∷ b'e' ∷ b's' ∷ b'e' ∷ b't' ∷ b'_' ∷ b'd' ∷ b'e' ∷ b'v' ∷ b'i' ∷ b'c' ∷ b'e' ∷ b's'
          ∷ [];
      setup_func = some set_reset_devices;
      early = false;
    }
    ∷ record {
      str = b'i' ∷ b'n' ∷ b'i' ∷ b't' ∷ b'=' ∷ [];
      setup_func = some (init_setup limit);
      early = false;
    }
    ∷ record {
      str = b'r' ∷ b'd' ∷ b'i' ∷ b'n' ∷ b'i' ∷ b't' ∷ b'=' ∷ [];
      setup_func = some (rdinit_setup limit);
      early = false;
    }
    ∷ []

-- An entry that names the option: obsolete if it has no function, and else asked to take it.
abbrev pub try_setup :
    Option (Option Str → KernelParams → KernelParams × Bool)
    → Option Str
    → KernelParams
    → (next : KernelParams → KernelParams × Bool) → KernelParams × Bool
try_setup none arg k next = (k, true)
try_setup (some f) arg k next = let (k', taken) = f arg k in if taken then (k', true) else next k'

abbrev pub store_unknown :
    (limit_args limit_envs : ℕ) → Str → Value → KernelParams → Option KernelParams
store_unknown limit_args limit_envs param absent k = set_arg limit_args param k
store_unknown limit_args limit_envs param val k = set_env limit_envs param val k

-- `if (panic_later) return 0;`
abbrev pub unless_panic :
    (panic : Option Str) → KernelParams → Option KernelParams → Option KernelParams
unless_panic (some _) k later = some k
unless_panic none k later = later

-- `parameqn` of kernel/params.c compares the first n bytes of an option with a name.
module _ (parameqn : Str → Str → ℕ → Bool) where
  -- The scan of the table from an entry on; `had_early_param` is what it returns at the end.
  unfoldable pub checksetup_from :
      (table : List ObsKernelParam) (line : Str) (had_early_param : Bool)
      → KernelParams
      → KernelParams × Bool
  unfolding ends_name
  checksetup_from [] line early k = (k, early)
  checksetup_from (p ∷ table) line early k =
      let n = length p.str in
      let early' = early || (parameqn line p.str n && p.early && ends_name line n) in
      let next = checksetup_from table line early' in
      if parameqn line p.str n && not p.early
      then try_setup p.setup_func (some (drop n line)) k next
      else next k

  -- The loop tests its end only after an entry: an empty table is read past its end.
  unfoldable pub obsolete_checksetup :
      List ObsKernelParam → Str → KernelParams → Option (KernelParams × Bool)
  unfolding checksetup_from
  obsolete_checksetup [] line k = none
  obsolete_checksetup (p ∷ table) line k = some (checksetup_from (p ∷ table) line false k)

  module _ (table : List ObsKernelParam) (limit_args limit_envs : ℕ) where
    -- Unknown options go to init, unless they are obsolete-style parameters or name a module.
    unfoldable pub unknown_bootoption : Str → Value → KernelParams → Option KernelParams
    unfolding is_module_parameter obsolete_checksetup
    unknown_bootoption param val k = do
      (k', handled) ← obsolete_checksetup table (repaired param val) k
      if handled || is_module_parameter param val
          then some k'
          else unless_panic k'.panic_later k' (store_unknown limit_args limit_envs param val k')

abbrev pub console_word : Str
console_word = b'c' ∷ b'o' ∷ b'n' ∷ b's' ∷ b'o' ∷ b'l' ∷ b'e' ∷ []

abbrev pub earlycon_word : Str
earlycon_word = b'e' ∷ b'a' ∷ b'r' ∷ b'l' ∷ b'y' ∷ b'c' ∷ b'o' ∷ b'n' ∷ []

-- `strcmp(a, b) == 0`
pub str_eq : Str → Str → Bool
str_eq [] [] = true
str_eq [] (y ∷ b) = false
str_eq (x ∷ a) [] = false
str_eq (x ∷ a) (y ∷ b) = let rest = str_eq a b in if x == y then rest else false

abbrev call_setup :
    Option (Option Str → KernelParams → KernelParams × Bool)
    → Option Str
    → KernelParams
    → Option KernelParams
call_setup none val k = none
call_setup (some f) val k = some (f val k).0

-- `parameq` of kernel/params.c compares an option with a name.
module _ (parameq : Str → Str → Bool) where
  abbrev concerns : Str → ObsKernelParam → Bool
  concerns param p =
      (p.early && parameq param p.str) || (str_eq param console_word && str_eq p.str earlycon_word)

  -- Every entry that the option concerns is called; its result is only reported. A call of NULL is
  -- undefined.
  unfoldable pub do_early_param :
      List ObsKernelParam → Str → Option Str → KernelParams → Option KernelParams
  unfolding str_eq
  do_early_param [] param val k = some k
  do_early_param (p ∷ table) param val k = do
    k' ← if concerns param p then call_setup p.setup_func val k else some k
    do_early_param table param val k'
