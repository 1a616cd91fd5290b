-- ===== src/Kernel/Initcalls/Tests.antt =====
-- Runs of the initcalls at a small boot: one that sleeps with the preemption count raised, one
-- that is on the blacklist.
use is_there_entropy_down_th.Common.{suc, refl, ◌≡◌, ◌⊎◌, ◌↔◌, true, false, [], ◌∷◌, arith}
use mathlib.Core.List.{flatten}
use is_there_entropy_down_th.Common.Words.{plus}
use is_there_entropy_down_th.Kernel.Initcalls.{
  Cpu, Initcall, initcall_blacklist, initcall_blacklisted, boot_initcalls,
}
use is_there_entropy_down_th.Kernel.Initcalls.Order.{allowed, boot_initcalls_order}
use is_there_entropy_down_th.Kernel.Initcalls.Blacklist.{
  joined, IsOneOf, initcall_blacklisted-initcall_blacklist,
}

-- "a", which forgets to enable preemption, and "b [m]".
abbrev first : Initcall
first = record {
  symbol = b'a' ∷ [];
  call = λ c. (record c { preempt_count = suc c.preempt_count; irqs_disabled = true }, plus 0);
}

abbrev second : Initcall
second = record { symbol = b'b' ∷ 32 ∷ b'[' ∷ b'm' ∷ b']' ∷ []; call = λ c. (c, plus 3) }

abbrev at_boot : Cpu
at_boot = record { preempt_count = 1; irqs_disabled = false; ran = [] }

boot_initcalls_order_example :
    let c' =
      boot_initcalls
        ((b'b' ∷ []) ∷ [])
        (first ∷ [])
        ((second ∷ []) ∷ [] ∷ (first ∷ []) ∷ [])
        at_boot in
    (c'.ran ≡ allowed ((b'b' ∷ []) ∷ []) (first ∷ second ∷ first ∷ []))
    × (c'.preempt_count ≡ 1)
    × ((false ≡ true) ⊎ (c'.irqs_disabled ≡ false))
unfolding flatten
boot_initcalls_order_example =
    boot_initcalls_order ((b'b' ∷ []) ∷ []) (first ∷ []) ((second ∷ []) ∷ [] ∷ (first ∷ []) ∷ [])
      at_boot

initcall_blacklisted-initcall_blacklist_example :
    (initcall_blacklisted
        (initcall_blacklist (joined (b'a' ∷ []) ((b'b' ∷ []) ∷ [])) ((b'c' ∷ []) ∷ []))
        second
      ≡ true)
    ↔ (IsOneOf (b'b' ∷ []) ((b'a' ∷ []) ∷ (b'b' ∷ []) ∷ [])
        ⊎ IsOneOf (b'b' ∷ []) ((b'c' ∷ []) ∷ []))
initcall_blacklisted-initcall_blacklist_example =
    initcall_blacklisted-initcall_blacklist (b'a' ∷ []) ((b'b' ∷ []) ∷ []) ((b'c' ∷ []) ∷ []) second
      (b'b' ∷ []) (32 ∷ b'[' ∷ b'm' ∷ b']' ∷ []) (omega arith, tt) ((omega arith, tt), tt) refl
      (omega arith, tt) refl
