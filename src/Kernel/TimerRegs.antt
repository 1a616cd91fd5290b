-- ===== src/Kernel/TimerRegs.antt =====
-- arch_timer.h: the accessors of the timer's registers, and the read of the counter that collects
-- the seeds.
use is_there_entropy_down_th.Common.{
  ℕ, ◌≡◌, Bool, true, false, ◌&&◌, Option, none, some, List, [], ◌∷◌, ◌++◌, if◌then◌else◌, ◌==◌,
  ◌>>=◌,
}
use is_there_entropy_down_th.Kernel.Seeds.{KhState, try_timer_kh}
pub mod Registers
pub mod Counter
pub mod Tests

-- The system registers that the accessors name.
pub data Register : Type 0 where
  cntp_ctl_el0 cntp_tval_el0 cntv_ctl_el0 cntv_tval_el0 cntvct_el0 : Register

-- `enum arch_timer_reg`
pub data TimerReg : Type 0 where
  arch_timer_reg_ctrl arch_timer_reg_tval : TimerReg

abbrev pub arch_timer_phys_access : ℕ
arch_timer_phys_access = 0

abbrev pub arch_timer_virt_access : ℕ
arch_timer_virt_access = 1

-- What the processor is asked to do, in order.
pub data Event : Type 0 where
  isb preempt_disable preempt_enable : Event
  write_sysreg : Register → (val : ℕ) → Event
  read_sysreg : Register → Event
  read_workaround : Register → Event

-- The erratum workaround of a processor: its functions, NULL where there is none.
pub record Workaround : Type 0 where
  pub read : Register → Option ℕ

-- The value of each register, whether workarounds are enabled, and this processor's, if any.
pub record Hardware : Type 0 where
  pub value : Register → ℕ
  pub needs_workaround : Bool
  pub workaround : Option Workaround

-- The register of an access and a name, for the two kinds of access there are.
pub register_of : (phys : Bool) → TimerReg → Register
register_of true arch_timer_reg_ctrl = cntp_ctl_el0
register_of true arch_timer_reg_tval = cntp_tval_el0
register_of false arch_timer_reg_ctrl = cntv_ctl_el0
register_of false arch_timer_reg_tval = cntv_tval_el0

-- Any other access writes nothing.
pub arch_timer_reg_write_cp15 : (access : ℕ) → TimerReg → (val : ℕ) → List Event
unfolding register_of
arch_timer_reg_write_cp15 access reg val =
    (if access == arch_timer_phys_access
      then write_sysreg (register_of true reg) val ∷ []
      else (if access == arch_timer_virt_access
          then write_sysreg (register_of false reg) val ∷ []
          else []))
    ++ isb ∷ []

module _ (hw : Hardware) where
  -- `wa && wa->read_##reg`
  abbrev pub read_with : Option ℕ → Register → ℕ × List Event
  read_with none reg = (hw.value reg, read_sysreg reg ∷ [])
  read_with (some v) reg = (v, read_workaround reg ∷ [])

  abbrev pub of_workaround : Option Workaround → Register → Option ℕ
  of_workaround none reg = none
  of_workaround (some wa) reg = wa.read reg

  -- The function of the workaround is asked for with preemption disabled.
  pub arch_timer_reg_read_stable : Register → ℕ × List Event
  arch_timer_reg_read_stable reg =
      let (v, events) = read_with (of_workaround hw.workaround reg) reg in
      if hw.needs_workaround
      then (v, preempt_disable ∷ events ++ preempt_enable ∷ [])
      else (hw.value reg, read_sysreg reg ∷ [])

  -- The control register is read as it is, the timer value with the workaround.
  abbrev read_reg : (phys : Bool) → TimerReg → ℕ × List Event
  read_reg phys arch_timer_reg_ctrl = (
    hw.value (register_of phys arch_timer_reg_ctrl),
    read_sysreg (register_of phys arch_timer_reg_ctrl) ∷ [],
  )
  read_reg phys arch_timer_reg_tval =
      arch_timer_reg_read_stable (register_of phys arch_timer_reg_tval)

  -- `none` is BUG().
  pub arch_timer_reg_read_cp15 : (access : ℕ) → TimerReg → Option (ℕ × List Event)
  unfolding arch_timer_reg_read_stable register_of
  arch_timer_reg_read_cp15 access reg =
      if access == arch_timer_phys_access
      then some (read_reg true reg)
      else (if access == arch_timer_virt_access then some (read_reg false reg) else none)

-- kh.c: `mrs %0, cntvct_el0`
pub get_tsc : Hardware → ℕ
get_tsc hw = hw.value cntvct_el0

-- `isb(); try_timer_kh(); return arch_timer_reg_read_stable(cntvct_el0);`: the counter is read twice,
-- first for the seeds, with the hardware as it is then, and again for the result.
pub arch_counter_get_cntvct : (first second : Hardware) → KhState → Option (KhState × ℕ)
unfolding arch_timer_reg_read_stable get_tsc
arch_counter_get_cntvct first second s = do
  s' ← try_timer_kh s (get_tsc first)
  some (s', (arch_timer_reg_read_stable second cntvct_el0).0)

-- Reads of the counter, one after the other, and their results.
pub counter_reads : List (Hardware × Hardware) → KhState → Option (KhState × List ℕ)
unfolding arch_counter_get_cntvct
counter_reads [] s = some (s, [])
counter_reads ((first, second) ∷ hws) s = do
  (s1, v) ← arch_counter_get_cntvct first second s
  (s2, vs) ← counter_reads hws s1
  some (s2, v ∷ vs)

-- BUG()
pub arch_counter_get_cntpct : Option ℕ
arch_counter_get_cntpct = none
