-- ===== src/Kernel/Start/Outcomes.antt =====
-- How start_kernel ends, whatever is on the command line.
use is_there_entropy_down_th.Common.{
  ℕ, ◌<◌, ◌≡◌, ◌⊎◌, ◌∙◌, refl, ap, Bool, Option, none, some, List, [], ◌∷◌, ◌++◌, length, take,
  Option-cases, inl, inr,
}
use is_there_entropy_down_th.Kernel.Params.{Str, KernelParams, Value}
use is_there_entropy_down_th.Kernel.Params.Setup.{ObsKernelParam}
use is_there_entropy_down_th.Kernel.Params.Valid.{
  IsValid, AllKeep, set_init_arg-IsValid, unknown_bootoption-IsValid,
}
use is_there_entropy_down_th.Kernel.Start.{
  System, Start, Outcome, in_rest_init, panicked, Message, got_seeds, parse_options,
  parse_init_args, parse_after, run_phase, begin_boot, start_sched, kmem_cache_init_late,
  enable_interrupts, finish_boot, panic_or_finish, start_kernel,
}

module _ (args envs : ℕ) where
  abbrev Parsed : Option KernelParams → Type 0
  Parsed r = (k : KernelParams) × (r ≡ some k) × IsValid args envs k

  parse_options-Parsed :
      (parameqn : Str → Str → ℕ → Bool) (table : List ObsKernelParam) (options : List (Str × Value))
      (k : KernelParams)
      → 0 < length table
      → AllKeep args envs table
      → IsValid args envs k
      → Parsed (parse_options parameqn table args envs options k)
  unfolding parse_options
  parse_options-Parsed parameqn table [] k h keep v = (k, refl, v)
  parse_options-Parsed parameqn table ((param, val) ∷ options) k h keep v =
      let (k1, e1, v1) = unknown_bootoption-IsValid args envs parameqn table param val k h keep v in
      let (k2, e2, v2) = parse_options-Parsed parameqn table options k1 h keep v1 in
      (k2, rw e1 e2, v2)

  parse_init_args-Parsed :
      (options : List (Str × Value)) (k : KernelParams)
      → IsValid args envs k
      → Parsed (parse_init_args args options k)
  unfolding parse_init_args
  parse_init_args-Parsed [] k v = (k, refl, v)
  parse_init_args-Parsed ((param, val) ∷ options) k v =
      let (k1, e1, v1) = set_init_arg-IsValid args envs param val k v in
      let (k2, e2, v2) = parse_init_args-Parsed options k1 v1 in (k2, rw e1 e2, v2)

  parse_after-Parsed :
      (after : Option (List (Str × Value))) (k : KernelParams)
      → IsValid args envs k
      → Parsed (parse_after args after k)
  parse_after-Parsed none k v = (k, refl, v)
  parse_after-Parsed (some options) k v = parse_init_args-Parsed options k v

module _ (system : System) where
  -- The state in which the decision to panic is taken.
  abbrev decided : KernelParams → Start system → Start system
  decided k s =
      run_phase system kmem_cache_init_late (
        enable_interrupts system (start_sched system (record (begin_boot system s) { params = k })))

  -- The boot ends in rest_init after the seeds were reported, or in the panic that was left for later.
  abbrev pub Ends : KernelParams → Start system × Outcome → Type 0
  Ends k (s, o) =
      ((k.panic_later ≡ none)
        × (o ≡ in_rest_init)
        × (w : system.World) × (before : List Message) × (s.messages
            ≡ before ++ got_seeds (take 20 (system.timer_seeds w)) ∷ []))
      ⊎ (what : Str) × (k.panic_later ≡ some what) × (o ≡ panicked (some what) k.panic_param)

  finish_boot_messages :
      (s : Start system)
      → (w : system.World) × (before : List Message) × ((finish_boot system s).messages
          ≡ before ++ got_seeds (take 20 (system.timer_seeds w)) ∷ [])
  finish_boot_messages s = (_, _, refl)

  decide :
      (k : KernelParams)
      → ((k.panic_later ≡ none) ⊎ (what : Str) × (k.panic_later ≡ some what))
      → (d : Start system) → d.params ≡ k
      → Ends k (panic_or_finish system d.params.panic_later d)
  decide k (inl calm) d e =
      let here : d.params.panic_later ≡ none = ap (λ p. p.panic_later) e ∙ calm in
      let (w, before, messages) = finish_boot_messages d in
      rw here (inl (calm, refl, w, before, messages))
  decide k (inr (what, due)) d e =
      let here : d.params.panic_later ≡ some what = ap (λ p. p.panic_later) e ∙ due in
      rw here (inr (what, due, ap (λ p. panicked (some what) p.panic_param) e))

  -- From arrays that are valid, with a table that keeps them so, any command line leads to a defined
  -- boot: every option is taken, those behind "--" last. If these leave no panic for later, the boot
  -- ends in rest_init with the twenty seeds as its last message; if they do, in that panic.
  pub start_kernel-Ends :
      (parameqn : Str → Str → ℕ → Bool) (table : List ObsKernelParam) (args envs : ℕ)
      (options : List (Str × Value)) (after_dashes : Option (List (Str × Value))) (s : Start system)
      → 0 < length table
      → AllKeep args envs table
      → IsValid args envs s.params
      → (k1 k : KernelParams) × (parse_options parameqn table args envs options s.params ≡ some k1)
        × (parse_after args after_dashes k1 ≡ some k)
        × (r : Start system × Outcome) × (start_kernel system parameqn table args envs options
              after_dashes s
            ≡ some r)
        × IsValid args envs k
        × Ends k r
  unfolding start_kernel
  start_kernel-Ends parameqn table args envs options after_dashes s h keep v =
      let (k, e, vk) = parse_options-Parsed args envs parameqn table options s.params h keep v in
      let (k', e', vk') = parse_after-Parsed args envs after_dashes k vk in
      let d = decided k' s in
      (
        k,
        k',
        e,
        e',
        panic_or_finish system d.params.panic_later d,
        rw (e, e') refl,
        vk',
        decide k' (Option-cases k'.panic_later) d refl,
      )
