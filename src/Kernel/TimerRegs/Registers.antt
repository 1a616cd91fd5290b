-- ===== src/Kernel/TimerRegs/Registers.antt =====
-- Reads and writes of the control and the timer value.
use is_there_entropy_down_th.Common.{
  ℕ, zero, suc, ◌≡◌, Bool, true, false, ◌&&◌, Option, none, some, List, [], ◌∷◌, if◌then◌else◌,
  ◌==◌, arith,
}
use is_there_entropy_down_th.Kernel.TimerRegs.{
  Register, cntp_ctl_el0, cntp_tval_el0, cntv_ctl_el0, cntv_tval_el0, cntvct_el0, TimerReg,
  arch_timer_reg_ctrl, arch_timer_reg_tval, Event, preempt_disable, preempt_enable, write_sysreg,
  read_workaround, Hardware, register_of, arch_timer_reg_write_cp15, arch_timer_reg_read_stable,
  arch_timer_reg_read_cp15,
}

abbrev same_register : Register → Register → Bool
same_register cntp_ctl_el0 cntp_ctl_el0 = true
same_register cntp_tval_el0 cntp_tval_el0 = true
same_register cntv_ctl_el0 cntv_ctl_el0 = true
same_register cntv_tval_el0 cntv_tval_el0 = true
same_register cntvct_el0 cntvct_el0 = true
same_register _ _ = false

-- What the processor does with the events: only a write changes a register.
abbrev pub perform : List Event → Hardware → Hardware
perform [] hw = hw
perform (write_sysreg r val ∷ events) hw =
    perform events (record hw { value = λ q. if same_register r q then val else hw.value q })
perform (_ ∷ events) hw = perform events hw

abbrev pub same_name : TimerReg → TimerReg → Bool
same_name arch_timer_reg_ctrl arch_timer_reg_ctrl = true
same_name arch_timer_reg_tval arch_timer_reg_tval = true
same_name _ _ = false

abbrev pub value_of : Option (ℕ × List Event) → Option ℕ
value_of none = none
value_of (some (v, _)) = some v

-- On hardware that needs no workaround, a read after a write gives the value written if it is by the
-- same access and name, and else what it gave before. An access that is neither physical nor virtual
-- writes nothing, and to read by one is a bug.
pub read_cp15-write_cp15 :
    (hw : Hardware) (access access' : ℕ) (reg reg' : TimerReg) (val : ℕ)
    → hw.needs_workaround ≡ false
    → value_of (
        arch_timer_reg_read_cp15
          (perform (arch_timer_reg_write_cp15 access reg val) hw)
          access'
          reg')
      ≡ (if (access == access')
            && (same_name reg reg' && (if access == 0 then true else access == 1))
          then some val
          else value_of (arch_timer_reg_read_cp15 hw access' reg'))
unfolding arch_timer_reg_read_cp15 arch_timer_reg_write_cp15 arch_timer_reg_read_stable register_of
read_cp15-write_cp15 hw access access' arch_timer_reg_ctrl arch_timer_reg_ctrl val h = ground arith
read_cp15-write_cp15 hw access access' arch_timer_reg_ctrl arch_timer_reg_tval val h = ground arith
read_cp15-write_cp15 hw access access' arch_timer_reg_tval arch_timer_reg_ctrl val h = ground arith
read_cp15-write_cp15 hw access access' arch_timer_reg_tval arch_timer_reg_tval val h = ground arith

-- The number of disables that are not enabled again, or `none` if a workaround is asked for, or an
-- enable is met, without one.
abbrev pub preempt_depth : ℕ → List Event → Option ℕ
preempt_depth d [] = some d
preempt_depth d (preempt_disable ∷ events) = preempt_depth (suc d) events
preempt_depth zero (preempt_enable ∷ events) = none
preempt_depth (suc d) (preempt_enable ∷ events) = preempt_depth d events
preempt_depth zero (read_workaround r ∷ events) = none
preempt_depth (suc d) (read_workaround r ∷ events) = preempt_depth (suc d) events
preempt_depth d (_ ∷ events) = preempt_depth d events

abbrev pub events_of : Option (ℕ × List Event) → List Event
events_of none = []
events_of (some (_, events)) = events

-- Every read asks for a workaround with preemption disabled only, and leaves preemption as it was.
pub read_cp15-preempt_depth :
    (hw : Hardware) (access : ℕ) (reg : TimerReg)
    → preempt_depth 0 (events_of (arch_timer_reg_read_cp15 hw access reg)) ≡ some 0
unfolding arch_timer_reg_read_cp15 arch_timer_reg_read_stable
read_cp15-preempt_depth hw access arch_timer_reg_ctrl = ground arith
read_cp15-preempt_depth hw access arch_timer_reg_tval = ground arith
