-- ===== src/Trap/Controller.antt =====
-- src/isa/riscv/trap/trap_controller.rs: entry into a handler, the returns, and the choice of an
-- interrupt.
pub mod Status
pub mod Machine
pub mod Return
pub mod Supervisor
pub mod Pending
mod Examples
use here.Base.{
  Bool, Option, bit_and, false, if◌then◌else◌, ltb, none, not, some, suc, true, zero, ℕ, ◌&&◌, ◌*◌,
  ◌+◌, ◌==◌, ◌||◌,
}
use here.Word.{shl, wrapping_add}
use here.Csr.{PrivilegeLevel, level_of, machine, supervisor, try_from}
use here.Csr.File.{
  CsrRegFile, field_of, get_field, read_uncheck_privilege, set_current_privileged, set_field,
  write_directly, write_uncheck_privilege,
}
use here.Csr.Table.Lower.{scause, sepc, sstatus, stval, stvec}
use here.Csr.Table.Machine.{mcause, medeleg, mepc, mideleg, mie, mip, mstatus, mtval, mtvec}
use here.Trap.{
  Exception, Interrupt, Trap, exception, exception_number, interrupt, interrupt_from,
  interrupt_into, machine_external, machine_soft, machine_timer, supervisor_external,
  supervisor_soft, supervisor_timer, trap_into, unknown_interrupt, user_external, user_soft,
  user_timer,
}

pub record Cpu : Type 0 where
  pub csr : CsrRegFile
  pub pc : ℕ

infixl 5 ◌>>=◌
abbrev pub ◌>>=◌ : {A B : Type 0} → Option A → (A → Option B) → Option B
none >>= f = none
some a >>= f = f a

-- `assert!(cpu.csr.write_directly(..))`
unfoldable pub must_write_directly : CsrRegFile → ℕ → ℕ → Option CsrRegFile
must_write_directly f a v =
    let (written, f') = write_directly f a v in if written then some f' else none

unfoldable pub next_pc_by_tvec : Trap → ℕ → ℕ → Option ℕ
next_pc_by_tvec cause tvec_mode base = elim cause [
  | exception e ↦ if tvec_mode == 0 || tvec_mode == 1 then some (shl base 2) else none
  | interrupt ir ↦
      if tvec_mode == 0
      then some (shl base 2)
      else if tvec_mode == 1
      then interrupt_into ir >>= (λ offset. some (wrapping_add (shl base 2) (offset * 4)))
      else none
]

unfoldable pub is_exception_delegated_m_mode : CsrRegFile → Exception → Bool
is_exception_delegated_m_mode f e =
    not (bit_and (f.value_at medeleg) (shl 1 (exception_number e)) == 0)

unfoldable pub is_interrupt_delegated_m_mode : CsrRegFile → Interrupt → Option Bool
is_interrupt_delegated_m_mode f i = elim i [
  | machine_external ↦ some false
  | machine_soft ↦ some false
  | machine_timer ↦ some false
  | supervisor_external ↦ some (not (field_of (f.value_at mideleg) 9 1 == 0))
  | user_external ↦ some (not (field_of (f.value_at mideleg) 9 1 == 0))
  | supervisor_soft ↦ some (not (field_of (f.value_at mideleg) 1 1 == 0))
  | user_soft ↦ some (not (field_of (f.value_at mideleg) 1 1 == 0))
  | supervisor_timer ↦ some (not (field_of (f.value_at mideleg) 5 1 == 0))
  | user_timer ↦ some (not (field_of (f.value_at mideleg) 5 1 == 0))
  | unknown_interrupt ↦ none
]

unfoldable pub is_delegated_m_mode : CsrRegFile → Trap → Option Bool
unfolding is_exception_delegated_m_mode is_interrupt_delegated_m_mode
is_delegated_m_mode f cause = elim cause [
  | interrupt i ↦ is_interrupt_delegated_m_mode f i
  | exception e ↦ some (is_exception_delegated_m_mode f e)
]

unfoldable pub send_trap_signal_m_mode : Cpu → Trap → ℕ → Option Cpu
unfolding next_pc_by_tvec
send_trap_signal_m_mode cpu cause trap_value = do
  f1 ← set_field cpu.csr mstatus 11 2 (level_of cpu.csr.cpl)
  code ← trap_into cause
  let f2 = write_uncheck_privilege (set_current_privileged f1 machine) mcause code
  let f3 = write_uncheck_privilege f2 mepc cpu.pc
  let f4 = write_uncheck_privilege f3 mtval trap_value
  enabled ← get_field f4 mstatus 3 1
  f5 ← set_field f4 mstatus 7 1 enabled
  f6 ← set_field f5 mstatus 3 1 0
  tvec_mode ← get_field f6 mtvec 0 2
  base ← get_field f6 mtvec 2 62
  target ← next_pc_by_tvec cause tvec_mode base
  some (record { csr = f6; pc = target })

unfoldable pub mret : Cpu → Option Cpu
mret cpu = do
  previous ← get_field cpu.csr mstatus 7 1
  f1 ← set_field cpu.csr mstatus 3 1 previous
  f2 ← set_field f1 mstatus 7 1 1
  target ← read_uncheck_privilege f2 mepc
  new_priv ← get_field f2 mstatus 11 2
  f3 ← (if new_priv == 3 then some f2 else set_field f2 mstatus 17 1 0)
  level ← try_from new_priv
  f4 ← set_field (set_current_privileged f3 level) mstatus 11 2 0
  some (record { csr = f4; pc = target })

unfoldable pub send_trap_signal_s_mode : Cpu → Trap → ℕ → Option Cpu
unfolding next_pc_by_tvec
send_trap_signal_s_mode cpu cause trap_value = do
  f1 ← set_field cpu.csr sstatus 8 1 (level_of cpu.csr.cpl)
  code ← trap_into cause
  f2 ← must_write_directly (set_current_privileged f1 supervisor) scause code
  f3 ← must_write_directly f2 sepc cpu.pc
  f4 ← must_write_directly f3 stval trap_value
  enabled ← get_field f4 sstatus 1 1
  f5 ← set_field f4 sstatus 5 1 enabled
  f6 ← set_field f5 sstatus 1 1 0
  tvec_mode ← get_field f6 stvec 0 2
  base ← get_field f6 stvec 2 62
  target ← next_pc_by_tvec cause tvec_mode base
  some (record { csr = f6; pc = target })

unfoldable pub sret : Cpu → Option Cpu
sret cpu = do
  previous ← get_field cpu.csr sstatus 5 1
  f1 ← set_field cpu.csr sstatus 1 1 previous
  f2 ← set_field f1 sstatus 5 1 1
  target ← read_uncheck_privilege f2 sepc
  new_priv ← get_field f2 sstatus 8 1
  f3 ← set_field f2 mstatus 17 1 0
  level ← try_from new_priv
  f4 ← set_field (set_current_privileged f3 level) sstatus 8 1 0
  some (record { csr = f4; pc = target })

abbrev below_level : PrivilegeLevel → PrivilegeLevel → Bool
below_level a b = ltb (level_of a) (level_of b)

-- The result says whether the trap is taken.
unfoldable pub try_send_trap_signal : Cpu → Trap → ℕ → Option (Bool × Cpu)
unfolding send_trap_signal_m_mode send_trap_signal_s_mode
try_send_trap_signal cpu cause trap_value = do
  let level = cpu.csr.cpl
  delegated ← (if level_of level == 3 then some false else is_delegated_m_mode cpu.csr cause)
  let to_machine = send_trap_signal_m_mode cpu cause trap_value >>= (λ c. some (true, c))
  let to_supervisor = send_trap_signal_s_mode cpu cause trap_value >>= (λ c. some (true, c))
  elim cause [
    | exception _ ↦ if delegated then to_supervisor else to_machine
    | interrupt _ ↦
        if delegated
        then (if below_level level supervisor || field_of (cpu.csr.value_at mstatus) 1 1 == 1
            then to_supervisor
            else some (false, cpu))
        else (if below_level level machine || field_of (cpu.csr.value_at mstatus) 3 1 == 1
            then to_machine
            else some (false, cpu))
  ]

-- `debug` is whether `debug_assert!` is checked.
unfoldable pub take_exception : Bool → Cpu → Exception → ℕ → Option Cpu
unfolding try_send_trap_signal
take_exception debug cpu e trap_value =
    try_send_trap_signal cpu (exception e) trap_value
    >>= (λ (taken, cpu'). if debug && not taken then none else some cpu')

-- The loop of `has_interrupt` from `i`, over `fuel` bits.
unfoldable pub first_pending : ℕ → ℕ → ℕ → Option ℕ
first_pending zero i pending = none
first_pending (suc fuel) i pending =
    let rest = first_pending fuel (i + 1) pending in
    if bit_and pending (shl 1 i) == 0 then rest else some i

-- The outer `none` is `unreachable!`.
unfoldable pub has_interrupt : CsrRegFile → Option (Option Interrupt)
unfolding first_pending
has_interrupt f =
    let pending = bit_and (f.value_at mip) (f.value_at mie) in
    if pending == 0
    then some none
    else first_pending 16 0 pending >>= (λ i. some (some (interrupt_from i)))

unfoldable pub try_take_interrupt : Cpu → Option (Option Interrupt × Cpu)
unfolding try_send_trap_signal has_interrupt
try_take_interrupt cpu = do
  found ← has_interrupt cpu.csr
  elim found [
    | none ↦ some (none, cpu)
    | some i ↦
        try_send_trap_signal cpu (interrupt i) 0
        >>= (λ (taken, cpu'). some (if taken then some i else none, cpu'))
  ]
