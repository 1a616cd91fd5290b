-- ===== src/Kernel/Initcalls.antt =====
-- init/main.c: the initcalls that a kernel runs while it boots, and the blacklist of them.
use is_there_entropy_down_th.Common.{
  ℕ, zero, suc, ◌+◌, ◌≡◌, Bool, true, false, not, ◌&&◌, ◌||◌, Option, none, some, List, [], ◌∷◌,
  ◌++◌, if◌then◌else◌, ◌==◌,
}
use is_there_entropy_down_th.Common.Words.{Signed, plus, minus}
use is_there_entropy_down_th.Kernel.Params.{Str}
pub mod Blacklist
pub mod Order
pub mod Tests

-- What an initcall can disturb, and the names of those run so far.
pub record Cpu : Type 0 where
  pub preempt_count : ℕ
  pub irqs_disabled : Bool
  pub ran : List Str

-- An initcall by the symbol that `sprint_symbol_no_offset` prints for it; its result is an int.
pub record Initcall : Type 0 where
  pub symbol : Str
  pub call : Cpu → Cpu × Signed

pub data Complaint : Type 0 where
  preemption_imbalance disabled_interrupts : Complaint

-- The loop over `strsep(&str, ",")`: the fields between commas, empty ones too.
abbrev to_head : ℕ → List Str → List Str
to_head c [] = (c ∷ []) ∷ []
to_head c (s ∷ fields) = (c ∷ s) ∷ fields

pub fields : Str → List Str
fields [] = [] ∷ []
fields (c ∷ s) = let rest = fields s in if c == b',' then [] ∷ rest else to_head c rest

-- `list_add` puts each entry at the head.
pub add_all : List Str → List Str → List Str
add_all [] blacklist = blacklist
add_all (s ∷ entries) blacklist = add_all entries (s ∷ blacklist)

pub initcall_blacklist : Str → List Str → List Str
unfolding fields add_all
initcall_blacklist str blacklist = add_all (fields str) blacklist

-- `strreplace(fn_name, ' ', '\0')`: the name ends at the first space.
pub cut_at_space : Str → Str
cut_at_space [] = []
cut_at_space (c ∷ s) = let rest = cut_at_space s in if c == 32 then [] else c ∷ rest

-- `!strcmp(a, b)`
pub str_eq : Str → Str → Bool
str_eq [] [] = true
str_eq [] (y ∷ b) = false
str_eq (x ∷ a) [] = false
str_eq (x ∷ a) (y ∷ b) = let rest = str_eq a b in if x == y then rest else false

pub listed : Str → List Str → Bool
listed name [] = false
listed name (s ∷ blacklist) =
    let rest = listed name blacklist in if str_eq name s then true else rest

pub initcall_blacklisted : List Str → Initcall → Bool
unfolding listed cut_at_space str_eq
initcall_blacklisted blacklist fn = listed (cut_at_space fn.symbol) blacklist

-- The checks after a call: the preemption count is put back, and interrupts are enabled.
abbrev pub restore_count : (count : ℕ) → Cpu → Cpu × List Complaint
restore_count count c =
    if c.preempt_count == count
    then (c, [])
    else (record c { preempt_count = count }, preemption_imbalance ∷ [])

abbrev pub enable_irqs : Cpu → Cpu × List Complaint
enable_irqs c =
    if c.irqs_disabled
    then (record c { irqs_disabled = false }, disabled_interrupts ∷ [])
    else (c, [])

-- -EPERM
abbrev pub eperm : Signed
eperm = minus 0

module _ (blacklist : List Str) where
  -- The result, and what the warning says if there is one. `initcall_debug` only prints more.
  pub do_one_initcall : Initcall → Cpu → Cpu × Signed × List Complaint
  unfolding initcall_blacklisted
  do_one_initcall fn c =
      if initcall_blacklisted blacklist fn
      then (c, eperm, [])
      else let (c1, ret) = fn.call c in
        let (c2, first) = restore_count c.preempt_count c1 in
        let (c3, second) = enable_irqs c2 in
        (record c3 { ran = c.ran ++ fn.symbol ∷ [] }, ret, first ++ second)

  -- `for (fn = ...; fn < ...; fn++) do_one_initcall(*fn);`
  pub do_initcall_list : List Initcall → Cpu → Cpu
  unfolding do_one_initcall
  do_initcall_list [] c = c
  do_initcall_list (fn ∷ fns) c = do_initcall_list fns (do_one_initcall fn c).0

  -- The levels in turn. The options of a level go to the module parameters, which are not part of
  -- this state.
  pub do_initcalls : (levels : List (List Initcall)) → Cpu → Cpu
  unfolding do_initcall_list
  do_initcalls [] c = c
  do_initcalls (level ∷ levels) c = do_initcalls levels (do_initcall_list level c)

  -- `do_pre_smp_initcalls` runs those that are before level 0, and `do_basic_setup` the rest.
  pub boot_initcalls : (early : List Initcall) (levels : List (List Initcall)) → Cpu → Cpu
  unfolding do_initcalls
  boot_initcalls early levels c = do_initcalls levels (do_initcall_list early c)
