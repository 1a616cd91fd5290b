-- ===== src/Kernel/Params/Valid.antt =====
-- The two arrays handed to init keep a NULL at their ends until the kernel has decided to panic, so
-- no option is read or stored past an end.
use is_there_entropy_down_th.Common.{
  ℕ, zero, suc, ◌+◌, ◌-◌, ◌≤◌, ◌<◌, ◌≡◌, ◌∙◌, refl, Bool, true, false, not, ◌&&◌, ◌||◌, Option,
  none, some, List, [], ◌∷◌, length, set, get_elem?, arith, Bool-cases, inl, inr, ◌⊎◌, Option-cases,
  length-set, get_elem?-set_ne, drop,
}
use is_there_entropy_down_th.Kernel.Params.{
  Str, KernelParams, Value, absent, plain, quoted, slot, scan, set_init_arg, set_env, set_arg,
  repaired, value_offset, strncmp_eq, never, init_word, env_word, panic_with, store_init_arg,
  is_module_parameter,
}
use is_there_entropy_down_th.Kernel.Params.Slots.{scan-EndsAt}
use is_there_entropy_down_th.Kernel.Params.Setup.{
  ObsKernelParam, checksetup_from, unknown_bootoption, ends_name, try_setup, unless_panic,
  store_unknown, main_table, set_reset_devices, clear_args, init_setup, rdinit_setup,
}

module _ (args envs : ℕ) where
  -- `args` and `envs` are MAX_INIT_ARGS and MAX_INIT_ENVS.
  pub record IsValid (k : KernelParams) : Type 0 where
    pub args_size : length k.argv_init ≡ args + 2
    pub envs_size : length k.envp_init ≡ envs + 2
    pub args_end : k.panic_later ≡ none → get_elem? k.argv_init (args + 1) ≡ some none
    pub envs_end : k.panic_later ≡ none → get_elem? k.envp_init (envs + 1) ≡ some none

  abbrev Keeps : Option KernelParams → Type 0
  Keeps r = (k' : KernelParams) × (r ≡ some k') × IsValid k'

  module _ (at : ℕ) (what param arg : Str) (k : KernelParams) (v : IsValid k) where
    store_args-IsValid :
        (full : Bool)
        → (at ≤ args) ⊎ (full ≡ true)
        → let k' = panic_with full what param k in
          IsValid (record k' { argv_init = set k'.argv_init at (some arg) })
    store_args-IsValid true f = record {
      args_size = length-set k.argv_init at (some arg) ∙ v.args_size;
      envs_size = v.envs_size;
      args_end = λ e. cc;
      envs_end = λ e. cc;
    }
    store_args-IsValid false f = record {
      args_size = length-set k.argv_init at (some arg) ∙ v.args_size;
      envs_size = v.envs_size;
      args_end = λ e. get_elem?-set_ne k.argv_init (some arg) (ground arith) ∙ v.args_end e;
      envs_end = v.envs_end;
    }

    store_envs-IsValid :
        (full : Bool)
        → (at ≤ envs) ⊎ (full ≡ true)
        → let k' = panic_with full what param k in
          IsValid (record k' { envp_init = set k'.envp_init at (some arg) })
    store_envs-IsValid true f = record {
      args_size = v.args_size;
      envs_size = length-set k.envp_init at (some arg) ∙ v.envs_size;
      args_end = λ e. cc;
      envs_end = λ e. cc;
    }
    store_envs-IsValid false f = record {
      args_size = v.args_size;
      envs_size = length-set k.envp_init at (some arg) ∙ v.envs_size;
      args_end = v.args_end;
      envs_end = λ e. get_elem?-set_ne k.envp_init (some arg) (ground arith) ∙ v.envs_end e;
    }

  panics-IsValid :
      (what arg : Str) (k : KernelParams) → IsValid k → IsValid (panic_with true what arg k)
  panics-IsValid what arg k v = record {
    args_size = v.args_size;
    envs_size = v.envs_size;
    args_end = λ e. cc;
    envs_end = λ e. cc;
  }

  module _ (param : Str) (k : KernelParams) (v : IsValid k) (calm : k.panic_later ≡ none) where
    set_arg-IsValid : Keeps (set_arg args param k)
    unfolding set_arg
    set_arg-IsValid =
        let r =
          scan-EndsAt args false never 0 false k.argv_init (args + 1) (omega arith)
            (v.args_end calm) (inl (omega arith)) in
        (_, rw r.ends, store_args-IsValid r.at init_word param param k v r.full r.flagged)

    set_env-IsValid : (val : Value) → Keeps (set_env envs param val k)
    unfolding set_env
    set_env-IsValid val =
        let arg = repaired param val in
        let r =
          scan-EndsAt envs false (strncmp_eq (value_offset param val) arg) 0 false k.envp_init
            (envs + 1) (omega arith) (v.envs_end calm) (inl (omega arith)) in
        (_, rw r.ends, store_envs-IsValid r.at env_word arg arg k v r.full r.flagged)

    stores_init_arg :
        (arg : Str) (at : ℕ) (full : Bool)
        → (at ≤ args) ⊎ (full ≡ true)
        → Keeps (store_init_arg (slot at full) arg k)
    stores_init_arg arg at true f = (_, refl, panics-IsValid init_word arg k v)
    stores_init_arg arg at false f = (_, refl, store_args-IsValid at init_word arg arg k v false f)

    init_arg_stored :
        (arg : Str) → Keeps (store_init_arg (scan args true never 0 false k.argv_init) arg k)
    init_arg_stored arg =
        let r =
          scan-EndsAt args true never 0 false k.argv_init (args + 1) (omega arith) (v.args_end calm)
            (inl (omega arith)) in
        rw r.ends (stores_init_arg arg r.at r.full r.flagged)

  -- An option after "--" is always taken with defined behaviour, and the arrays stay valid.
  pub set_init_arg-IsValid :
      (param : Str) (val : Value) (k : KernelParams)
      → IsValid k
      → Keeps (set_init_arg args param val k)
  unfolding set_init_arg
  set_init_arg-IsValid param val k v = elim (Option-cases k.panic_later) [
    | inr (what, e) ↦ (k, rw e, v)
    | inl e ↦ simp e (init_arg_stored param k v e (repaired param val))
  ]

  stores_unknown :
      (param : Str) (val : Value) (k : KernelParams)
      → IsValid k
      → k.panic_later ≡ none
      → Keeps (store_unknown args envs param val k)
  stores_unknown param absent k v e = set_arg-IsValid param k v e
  stores_unknown param (plain s) k v e = set_env-IsValid param k v e (plain s)
  stores_unknown param (quoted s) k v e = set_env-IsValid param k v e (quoted s)

  stored_unless_panic :
      (param : Str) (val : Value) (k : KernelParams)
      → IsValid k
      → Keeps (unless_panic k.panic_later k (store_unknown args envs param val k))
  stored_unless_panic param val k v = elim (Option-cases k.panic_later) [
    | inr (what, e) ↦ (k, rw e, v)
    | inl e ↦ simp e (stores_unknown param val k v e)
  ]

  -- The setup functions of the table keep the arrays valid, as those of init/main.c do.
  abbrev pub SetupKeeps : Option (Option Str → KernelParams → KernelParams × Bool) → Type 0
  SetupKeeps none = Unit
  SetupKeeps (some f) = (arg : Option Str) (k : KernelParams) → IsValid k → IsValid (f arg k).0

  abbrev pub AllKeep : List ObsKernelParam → Type 0
  AllKeep [] = Unit
  AllKeep (p ∷ table) = SetupKeeps p.setup_func × AllKeep table

  try_setup-IsValid :
      (f? : Option (Option Str → KernelParams → KernelParams × Bool)) (arg : Option Str)
      (k : KernelParams) (next : KernelParams → KernelParams × Bool)
      → SetupKeeps f?
      → ((k' : KernelParams) → IsValid k' → IsValid (next k').0)
      → IsValid k
      → IsValid (try_setup f? arg k next).0
  try_setup-IsValid none arg k next keep nexts v = v
  try_setup-IsValid (some f) arg k next keep nexts v = elim (Bool-cases (f arg k).1) [
    | inl e ↦ rw e (keep arg k v)
    | inr e ↦ rw e (nexts (f arg k).0 (keep arg k v))
  ]

  module _ (parameqn : Str → Str → ℕ → Bool) where
    checksetup_from-IsValid :
        (table : List ObsKernelParam) (line : Str) (early : Bool) (k : KernelParams)
        → AllKeep table
        → IsValid k
        → IsValid (checksetup_from parameqn table line early k).0
    unfolding checksetup_from
    checksetup_from-IsValid [] line early k keep v = v
    checksetup_from-IsValid (p ∷ table) line early k (keep, keeps) v =
        let n = length p.str in
        let early' = early || (parameqn line p.str n && p.early && ends_name line n) in
        let next = checksetup_from parameqn table line early' in
        let nexts = λ (k' : KernelParams) (v' : IsValid k').
          checksetup_from-IsValid table line early' k' keeps v' in
        elim (Bool-cases (parameqn line p.str n && not p.early)) [
          | inl e ↦ rw e (try_setup-IsValid p.setup_func (some (drop n line)) k next keep nexts v)
          | inr e ↦ rw e (nexts k v)
        ]

    -- With a table that is not empty and whose functions keep the arrays valid, an unknown boot
    -- option is handled with defined behaviour, whichever way it goes, and the arrays stay valid.
    pub unknown_bootoption-IsValid :
        (table : List ObsKernelParam) (param : Str) (val : Value) (k : KernelParams)
        → 0 < length table
        → AllKeep table
        → IsValid k
        → Keeps (unknown_bootoption parameqn table args envs param val k)
    unfolding unknown_bootoption
    unknown_bootoption-IsValid [] param val k some_entry keep v = absurd (omega arith)
    unknown_bootoption-IsValid (p ∷ table) param val k some_entry keep v =
        let line = repaired param val in
        let k' = (checksetup_from parameqn (p ∷ table) line false k).0 in
        let v' = checksetup_from-IsValid (p ∷ table) line false k keep v in
        elim (Bool-cases (
          (checksetup_from parameqn (p ∷ table) line false k).1 || is_module_parameter param val)) [
            | inl e ↦ (k', rw e, v')
            | inr e ↦ rw e (stored_unless_panic param val k' v')
          ]

clear_args-size : (rounds i : ℕ) (a : List (Option Str)) → length (clear_args rounds i a) ≡ length a
unfolding clear_args
clear_args-size zero i a = refl
clear_args-size (suc rounds) i a =
    clear_args-size rounds (suc i) (set a i none) ∙ length-set a i none

clear_args-above :
    (rounds i j : ℕ) (a : List (Option Str))
    → i + rounds ≤ j
    → get_elem? (clear_args rounds i a) j ≡ get_elem? a j
unfolding clear_args
clear_args-above zero i j a h = refl
clear_args-above (suc rounds) i j a h =
    clear_args-above rounds (suc i) j (set a i none) (omega arith)
    ∙ get_elem?-set_ne a none (omega arith)

module _ (args envs : ℕ) where
  cleared-IsValid :
      (command ramdisk : Option Str) (k : KernelParams)
      → IsValid args envs k
      → IsValid args envs (record k {
        argv_init = clear_args (args - 1) 1 k.argv_init;
        execute_command = command;
        ramdisk_execute_command = ramdisk;
      })
  cleared-IsValid command ramdisk k v = record {
    args_size = clear_args-size (args - 1) 1 k.argv_init ∙ v.args_size;
    envs_size = v.envs_size;
    args_end =
        λ e. clear_args-above (args - 1) 1 (args + 1) k.argv_init (omega arith) ∙ v.args_end e;
    envs_end = v.envs_end;
  }

  -- The handlers that init/main.c puts into the table keep the arrays valid.
  pub main_table-AllKeep : AllKeep args envs (main_table args)
  unfolding init_setup rdinit_setup set_reset_devices
  main_table-AllKeep = (
    λ arg k v. record {
      args_size = v.args_size;
      envs_size = v.envs_size;
      args_end = v.args_end;
      envs_end = v.envs_end;
    },
    (
      λ arg k v. cleared-IsValid arg k.ramdisk_execute_command k v,
      (λ arg k v. cleared-IsValid k.execute_command arg k v, tt),
    ),
  )
