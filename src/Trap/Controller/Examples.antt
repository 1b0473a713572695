-- ===== src/Trap/Controller/Examples.antt =====
-- A trap of a user program at 0x80000000 with both handlers set up.
use here.Base.{arith, none, refl, some, ℕ, ◌≡◌, ◌⊎◌}
use here.Word.{bit_ones}
use here.Csr.{user}
use here.Csr.File.{CsrRegFile, csr_new, field_of, set_current_privileged, store_at}
use here.Csr.Table.Lower.{stvec}
use here.Csr.Table.Machine.{mie, mip, mstatus, mtvec}
use here.Trap.{
  exception, exception_into, illegal_instruction, interrupt, interrupt_from, interrupt_into,
  supervisor_timer, trap_into,
}
use here.Trap.Controller.{
  Cpu, has_interrupt, mret, next_pc_by_tvec, send_trap_signal_m_mode, send_trap_signal_s_mode,
  ◌>>=◌,
}
use here.Trap.Controller.Machine.{IsMachineEntry, send_trap_signal_m_mode-IsMachineEntry}
use here.Trap.Controller.Pending.{IsLowest, has_interrupt-IsLowest}
use here.Trap.Controller.Return.{mret-send_trap_signal_m_mode}
use here.Trap.Controller.Supervisor.{IsSupervisorEntry, send_trap_signal_s_mode-IsSupervisorEntry}

abbrev handlers : CsrRegFile
handlers = store_at (store_at csr_new mtvec 0x8000_2000) stvec 0x8000_3001

abbrev program : Cpu
program = record { csr = set_current_privileged handlers user; pc = 0x8000_0000 }

machine_target :
    next_pc_by_tvec
      (exception illegal_instruction)
      (field_of (program.csr.value_at mtvec) 0 2)
      (field_of (program.csr.value_at mtvec) 2 62)
    ≡ some 0x8000_2000
unfolding next_pc_by_tvec field_of bit_ones
machine_target = refl

illegal_code : trap_into (exception illegal_instruction) ≡ some 2
unfolding trap_into exception_into
illegal_code = refl

timer_target :
    next_pc_by_tvec
      (interrupt supervisor_timer)
      (field_of (program.csr.value_at stvec) 0 2)
      (field_of (program.csr.value_at stvec) 2 62)
    ≡ some 0x8000_3014
unfolding next_pc_by_tvec field_of bit_ones interrupt_into
timer_target = refl

timer_code : trap_into (interrupt supervisor_timer) ≡ some 0x8000_0000_0000_0005
unfolding trap_into interrupt_into
timer_code = refl

send_trap_signal_m_mode-IsMachineEntry_example :
    (cpu' : Cpu) × (send_trap_signal_m_mode program (exception illegal_instruction) 7 ≡ some cpu')
    × IsMachineEntry program 2 7 0x8000_2000 cpu'
send_trap_signal_m_mode-IsMachineEntry_example =
    send_trap_signal_m_mode-IsMachineEntry program (exception illegal_instruction) 2 7 0x8000_2000
      illegal_code (omega arith) (omega arith) (omega arith) machine_target

mret-send_trap_signal_m_mode_example :
    (cpu' : Cpu) × (send_trap_signal_m_mode program (exception illegal_instruction) 7 >>= mret
      ≡ some cpu')
    × (cpu'.pc ≡ 0x8000_0000)
    × (cpu'.csr.cpl ≡ user)
    × (field_of (cpu'.csr.value_at mstatus) 3 1 ≡ field_of (program.csr.value_at mstatus) 3 1)
mret-send_trap_signal_m_mode_example =
    mret-send_trap_signal_m_mode program (exception illegal_instruction) 2 7 0x8000_2000
      illegal_code (omega arith) (omega arith) (omega arith) machine_target

send_trap_signal_s_mode-IsSupervisorEntry_example :
    (cpu' : Cpu) × (send_trap_signal_s_mode program (interrupt supervisor_timer) 0 ≡ some cpu')
    × IsSupervisorEntry program 0x8000_0000_0000_0005 0 0x8000_3014 cpu'
send_trap_signal_s_mode-IsSupervisorEntry_example =
    send_trap_signal_s_mode-IsSupervisorEntry program (interrupt supervisor_timer)
      0x8000_0000_0000_0005 0 0x8000_3014 (omega arith) timer_code timer_target

abbrev pending_bits : ℕ
pending_bits = 0xa0

abbrev two_pending : CsrRegFile
two_pending = store_at (store_at csr_new mip 0xa0) mie 0xa2

has_interrupt-IsLowest_example :
    ((pending_bits ≡ 0) × (has_interrupt two_pending ≡ some none))
    ⊎ ((i : ℕ) × (has_interrupt two_pending ≡ some (some (interrupt_from i)))
        × IsLowest i pending_bits)
has_interrupt-IsLowest_example = has_interrupt-IsLowest two_pending pending_bits refl (omega arith)
