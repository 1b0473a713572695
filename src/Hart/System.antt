-- ===== src/Hart/System.antt =====
-- src/isa/riscv/instruction/exec_mapping.rs: the instructions that raise, return from traps and
-- flush.
use here.Base.{Bool, Option, err, if◌then◌else◌, ltb, none, not, ok, some, ℕ, ◌&&◌, ◌==◌, ◌||◌}
use here.Csr.{PrivilegeLevel, level_of, machine, supervisor, user, virtual}
use here.Csr.File.{field_of}
use here.Csr.Table.Machine.{mstatus}
use here.Hart.{Op, RvCpu, cpu_flush_tlb, flush_icache, minstret_add, raise, ◌>>=◌}
use here.Hart.Core.{get_cpu, retire}
use here.Isa.{RvInstrInfo}
use here.Mmio.{DeviceArena}
use here.Trap.{
  breakpoint, illegal_instruction, machine_env_call, supervisor_env_call, user_env_call,
}
use here.Trap.Controller.{Cpu, mret, sret}

abbrev below_supervisor : PrivilegeLevel → Bool
below_supervisor level = ltb (level_of level) (level_of supervisor)

module _ {A : DeviceArena} where
  unfoldable pub exec_ebreak : RvInstrInfo → Op A (Unit {0})
  exec_ebreak info = raise breakpoint

  unfoldable pub exec_ecall : RvInstrInfo → Op A (Unit {0})
  exec_ecall info cpu = elim cpu.csr.cpl [
    | user ↦ some (err user_env_call, cpu)
    | supervisor ↦ some (err supervisor_env_call, cpu)
    | machine ↦ some (err machine_env_call, cpu)
    | virtual ↦ none
  ]

  unfoldable pub exec_fence_i : RvInstrInfo → Op A (Unit {0})
  unfolding flush_icache cpu_flush_tlb retire
  exec_fence_i info cpu = retire 4 (cpu_flush_tlb (flush_icache cpu))

  -- A return from a trap, which sets the CSRs and the program counter.
  abbrev return_by : (Cpu → Option Cpu) → Op A (Unit {0})
  return_by ret cpu = elim (ret (record { csr = cpu.csr; pc = cpu.pc })) [
    | none ↦ none
    | some c ↦ some (ok tt, record cpu { csr = c.csr; pc = c.pc })
  ]

  -- The privilege check of `SRET` and `SFENCE.VMA`, with the bit of `mstatus` that traps them.
  abbrev refused_below : ℕ → RvCpu A → Bool
  refused_below trap_bit cpu =
      below_supervisor cpu.csr.cpl
      || (level_of cpu.csr.cpl == level_of supervisor
          && field_of (cpu.csr.value_at mstatus) trap_bit 1 == 1)

  unfoldable pub exec_mret : RvInstrInfo → Op A (Unit {0})
  unfolding mret minstret_add
  exec_mret info = do
    cpu ← get_cpu
    (if not (level_of cpu.csr.cpl == level_of machine)
        then raise illegal_instruction
        else (do _ ← return_by mret; minstret_add 1))

  unfoldable pub exec_sret : RvInstrInfo → Op A (Unit {0})
  unfolding sret minstret_add
  exec_sret info = do
    cpu ← get_cpu
    (if refused_below 22 cpu
        then raise illegal_instruction
        else (do _ ← return_by sret; minstret_add 1))

  unfoldable pub exec_sfence_vma : RvInstrInfo → Op A (Unit {0})
  unfolding flush_icache cpu_flush_tlb retire
  exec_sfence_vma info cpu =
      if refused_below 20 cpu
      then some (err illegal_instruction, cpu)
      else retire 4 (flush_icache (cpu_flush_tlb cpu))
