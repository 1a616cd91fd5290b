-- ===== src/Kernel/Initcalls/Order.antt =====
-- Every initcall that is not blacklisted runs once, in the order of the levels, and leaves the
-- preemption count and the interrupts as they should be.
use mathlib.Core.List.{append_assoc, append-nil, flatten}
use is_there_entropy_down_th.Common.{
  ◌≡◌, ◌∙◌, refl, sym, ap, ◌⊎◌, true, false, List, [], ◌∷◌, ◌++◌, if◌then◌else◌, ◌==◌, arith,
  Bool-cases, inl, inr,
}
use is_there_entropy_down_th.Kernel.Params.{Str}
use is_there_entropy_down_th.Kernel.Initcalls.{
  Cpu, Initcall, initcall_blacklisted, do_one_initcall, do_initcall_list, do_initcalls,
  boot_initcalls, preemption_imbalance, disabled_interrupts,
}

-- The symbols of those that the blacklist lets run.
abbrev pub allowed : List Str → List Initcall → List Str
allowed blacklist [] = []
allowed blacklist (fn ∷ fns) =
    let rest = allowed blacklist fns in
    if initcall_blacklisted blacklist fn then rest else fn.symbol ∷ rest

module _ (blacklist : List Str) where
  -- Whatever an initcall does to the processor, after `do_one_initcall` the preemption count is the
  -- one before it; if it ran, interrupts are enabled, and the warning names exactly what was wrong.
  pub do_one_initcall_lem :
      (fn : Initcall) (c : Cpu)
      → let (c', ret, complaints) = do_one_initcall blacklist fn c in
        let (c1, ret1) = fn.call c in
        (c'.preempt_count ≡ c.preempt_count)
        × ((initcall_blacklisted blacklist fn ≡ true) × (c' ≡ c) × (complaints ≡ [])
            ⊎ (initcall_blacklisted blacklist fn ≡ false)
              × (c'.irqs_disabled ≡ false)
              × (ret ≡ ret1)
              × (complaints
                  ≡ (if c1.preempt_count == c.preempt_count then [] else preemption_imbalance ∷ [])
                    ++ (if c1.irqs_disabled then disabled_interrupts ∷ [] else [])))
  unfolding do_one_initcall
  do_one_initcall_lem fn c = elim (Bool-cases (initcall_blacklisted blacklist fn)) [
    | inl e ↦ rw e (refl, inl (refl, refl, refl))
    | inr e ↦ rw e (ground arith, inr (refl, ground arith, refl, ground arith))
  ]

  record IsRun (names : List Str) (c c' : Cpu) : Type 0 where
    count : c'.preempt_count ≡ c.preempt_count
    irqs : c.irqs_disabled ≡ false → c'.irqs_disabled ≡ false
    ran : c'.ran ≡ c.ran ++ names

  one-IsRun :
      (fn : Initcall) (c : Cpu)
      → IsRun
          (if initcall_blacklisted blacklist fn then [] else fn.symbol ∷ [])
          c
          (do_one_initcall blacklist fn c).0
  unfolding do_one_initcall
  one-IsRun fn c = elim (Bool-cases (initcall_blacklisted blacklist fn)) [
    | inl e ↦ rw e (record { count = refl; irqs = λ h. h; ran = rw append-nil })
    | inr e ↦ rw e (record { count = ground arith; irqs = λ h. ground arith; ran = refl })
  ]

  IsRun-trans :
      {c c1 c2 : Cpu} {names more : List Str}
      → IsRun names c c1
      → IsRun more c1 c2
      → IsRun (names ++ more) c c2
  IsRun-trans {c} {names} {more} p q = record {
    count = q.count ∙ p.count;
    irqs = λ h. q.irqs (p.irqs h);
    ran = q.ran ∙ ap (λ l. l ++ more) p.ran ∙ append_assoc c.ran names more;
  }

  allowed-cons :
      (fn : Initcall) (fns : List Initcall)
      → allowed blacklist (fn ∷ fns)
        ≡ (if initcall_blacklisted blacklist fn then [] else fn.symbol ∷ [])
          ++ allowed blacklist fns
  allowed-cons fn fns = ground arith

  list-IsRun :
      (fns : List Initcall) (c : Cpu)
      → IsRun (allowed blacklist fns) c (do_initcall_list blacklist fns c)
  unfolding do_initcall_list
  list-IsRun [] c = record { count = refl; irqs = λ h. h; ran = rw append-nil }
  list-IsRun (fn ∷ fns) c =
      rw (allowed-cons fn fns)
        (IsRun-trans (one-IsRun fn c) (list-IsRun fns (do_one_initcall blacklist fn c).0))

  allowed-append :
      (xs ys : List Initcall)
      → allowed blacklist (xs ++ ys) ≡ allowed blacklist xs ++ allowed blacklist ys
  allowed-append [] ys = refl
  allowed-append (fn ∷ xs) ys = ground (arith, allowed-append xs ys)

  levels-IsRun :
      (levels : List (List Initcall)) (c : Cpu)
      → IsRun (allowed blacklist (flatten levels)) c (do_initcalls blacklist levels c)
  unfolding do_initcalls flatten
  levels-IsRun [] c = record { count = refl; irqs = λ h. h; ran = rw append-nil }
  levels-IsRun (level ∷ levels) c =
      rw (allowed-append level (flatten levels)) (
        IsRun-trans (list-IsRun level c) (levels-IsRun levels (do_initcall_list blacklist level c)))

  -- The boot runs the early initcalls and then the levels from 0 up: each one that is not
  -- blacklisted exactly once and in this order. The preemption count is then what it was, and
  -- interrupts that were enabled are enabled.
  pub boot_initcalls_order :
      (early : List Initcall) (levels : List (List Initcall)) (c : Cpu)
      → let c' = boot_initcalls blacklist early levels c in
        (c'.ran ≡ c.ran ++ allowed blacklist (early ++ flatten levels))
        × (c'.preempt_count ≡ c.preempt_count)
        × ((c.irqs_disabled ≡ true) ⊎ (c'.irqs_disabled ≡ false))
  unfolding boot_initcalls
  boot_initcalls_order early levels c =
      let r =
        IsRun-trans (list-IsRun early c)
          (levels-IsRun levels (do_initcall_list blacklist early c)) in
      (
        r.ran ∙ ap (λ l. c.ran ++ l) (sym (allowed-append early (flatten levels))),
        r.count,
        elim (Bool-cases c.irqs_disabled) [ inl e ↦ inl e | inr e ↦ inr (r.irqs e) ],
      )
