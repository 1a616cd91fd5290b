-- ===== src/Kernel/Params.antt =====
-- init/main.c: the kernel's boot options and what is handed to init. Strings are lists of bytes
-- without the final NUL.
use is_there_entropy_down_th.Common.{
  ℕ, zero, suc, ◌+◌, ◌-◌, ◌<◌, ◌≡◌, Bool, true, false, not, ◌&&◌, ◌||◌, Option, none, some, List,
  [], ◌∷◌, ◌++◌, if◌then◌else◌, ltb, leb, ◌==◌, ◌>>=◌, length, set, get_elem?, drop,
}
pub mod Setup
pub mod Slots
pub mod Valid
pub mod Repair
pub mod Append
pub mod Tests

abbrev pub Str : Type 0
Str = List ℕ

-- The variables that the option handlers write. An entry of the two arrays is a pointer, NULL or to
-- a string.
pub record KernelParams : Type 0 where
  pub argv_init : List (Option Str)
  pub envp_init : List (Option Str)
  pub panic_later : Option Str
  pub panic_param : Option Str
  pub execute_command : Option Str
  pub ramdisk_execute_command : Option Str
  pub reset_devices : Bool

-- An option as the parser splits it: `param`, `param=val` or `param="val"`.
pub data Value : Type 0 where
  absent : Value
  plain : Str → Value
  quoted : Str → Value

-- The string at `param` once repair_env_string has put the '=' back.
abbrev pub repaired : Str → Value → Str
repaired param absent = param
repaired param (plain v) = param ++ b'=' ∷ v
repaired param (quoted v) = param ++ b'=' ∷ v

-- `val - param`: the caller keeps the pointer that it had before the repair, which for a quoted
-- value is one byte further.
abbrev pub value_offset : Str → Value → ℕ
value_offset param absent = 0
value_offset param (plain v) = length param + 1
value_offset param (quoted v) = length param + 2

-- `!strncmp(a, b, n)`
pub strncmp_eq : ℕ → Str → Str → Bool
strncmp_eq zero a b = true
strncmp_eq (suc n) [] [] = true
strncmp_eq (suc n) [] (y ∷ b) = false
strncmp_eq (suc n) (x ∷ a) [] = false
strncmp_eq (suc n) (x ∷ a) (y ∷ b) = let rest = strncmp_eq n a b in if x == y then rest else false

abbrev after_first : Option ℕ → Option ℕ
after_first none = none
after_first (some i) = some (suc i)

-- `strchr(s, c)` as an offset.
pub strchr : ℕ → Str → Option ℕ
strchr c [] = none
strchr c (x ∷ s) = let later = after_first (strchr c s) in if x == c then some 0 else later

-- `!val || (offset of the dot) < val`
abbrev before_value : ℕ → Value → ℕ → Bool
before_value i absent offset = true
before_value i _ offset = ltb i offset

-- `strchr(param, '.') && (!val || strchr(param, '.') < val)`
is_module_parameter : Str → Value → Bool
is_module_parameter param val = elim (strchr b'.' (repaired param val)) [
  | none ↦ false
  | some i ↦ before_value i val (value_offset param val)
]

-- Where the scan of an array for its first NULL ends: at a slot, or past the array's end, which is
-- undefined. The flag says whether the scan met the last usable slot in use.
pub data Scan : Type 0 where
  slot : ℕ → (overflow : Bool) → Scan
  off_end : Scan

-- `for (i = 0; a[i]; i++) { if (i == limit) { overflow; if stop, return } if (found a[i]) break; }`
-- from index i on.
pub scan :
    (limit : ℕ) (stop : Bool) (found : Str → Bool) (i : ℕ) (overflow : Bool)
    → List (Option Str)
    → Scan
scan limit stop found i overflow [] = off_end
scan limit stop found i overflow (none ∷ a) = slot i overflow
scan limit stop found i overflow (some s ∷ a) =
    let overflow' = (i == limit) || overflow in
    let rest = scan limit stop found (suc i) overflow' a in
    if (stop && (i == limit)) || found s then slot i overflow' else rest

abbrev pub never : Str → Bool
never _ = false

abbrev pub panic_with : Bool → (what param : Str) → KernelParams → KernelParams
panic_with true what param k = record k { panic_later = some what; panic_param = some param }
panic_with false what param k = k

abbrev pub init_word : Str
init_word = b'i' ∷ b'n' ∷ b'i' ∷ b't' ∷ []

abbrev pub env_word : Str
env_word = b'e' ∷ b'n' ∷ b'v' ∷ []

-- What each handler does where its scan ends.
abbrev pub store_init_arg : Scan → (arg : Str) → KernelParams → Option KernelParams
store_init_arg off_end arg k = none
store_init_arg (slot i true) arg k = some (panic_with true init_word arg k)
store_init_arg (slot i false) arg k = some (record k { argv_init = set k.argv_init i (some arg) })

abbrev pub store_arg : Scan → (arg : Str) → KernelParams → Option KernelParams
store_arg off_end arg k = none
store_arg (slot i full) arg k =
    let k' = panic_with full init_word arg k in
    some (record k' { argv_init = set k'.argv_init i (some arg) })

abbrev pub store_env : Scan → (arg : Str) → KernelParams → Option KernelParams
store_env off_end arg k = none
store_env (slot i full) arg k =
    let k' = panic_with full env_word arg k in
    some (record k' { envp_init = set k'.envp_init i (some arg) })

module _ (limit : ℕ) where
  abbrev add_init_arg : Option Str → (arg : Str) → KernelParams → Option KernelParams
  add_init_arg (some _) arg k = some k
  add_init_arg none arg k = store_init_arg (scan limit true never 0 false k.argv_init) arg k

  -- Anything after "--": a full array is reported, and then nothing is stored.
  pub set_init_arg : Str → Value → KernelParams → Option KernelParams
  unfolding scan
  set_init_arg param val k = add_init_arg k.panic_later (repaired param val) k

  -- An unknown `param=val` goes to the environment, in place of an entry that starts alike.
  pub set_env : Str → Value → KernelParams → Option KernelParams
  unfolding scan strncmp_eq
  set_env param val k =
      let arg = repaired param val in
      store_env (scan limit false (strncmp_eq (value_offset param val) arg) 0 false k.envp_init) arg
        k

  -- An unknown `param` goes to the arguments, also when the array was full.
  pub set_arg : Str → KernelParams → Option KernelParams
  unfolding scan
  set_arg param k = store_arg (scan limit false never 0 false k.argv_init) param k
