-- ===== src/Hart/CsrAccess.antt =====
-- src/isa/riscv/csr_reg/cpu.rs, and the CSR instructions of
-- src/isa/riscv/instruction/exec_function.rs.
use here.Base.{
  Bool, Option, Result, bit_and, bit_or, err, if◌then◌else◌, none, not, ok, some, ℕ, ◌==◌,
}
use here.Word.{bit_not, double, wrapping_add}
use here.Device.{MemError}
use here.Csr.File.{get_field}
use here.Csr.Privilege.{is_write_priv_legal, read_checked, write_checked}
use here.Csr.Table.Lower.{satp}
use here.Csr.Table.Machine.{minstret}
use here.Hart.{Op, RvCpu, done, flush_icache, minstret_add, raise, reg, reg_write, ◌>>=◌}
use here.Hart.Core.{get_cpu, set_pc, unreachable}
use here.Isa.{RvInstrInfo, info_i}
use here.Mmio.{DeviceArena}
use here.Mmu.Manager.{
  VirtAddrManager, manager_flush_tlb, manager_set_mode, read_by_paddr, set_root_ppn,
}
use here.Mmu.PageTable.{ppn}
use here.Trap.{Exception, illegal_instruction}

module _ {A : DeviceArena} where
  unfoldable pub read_csr : ℕ → Op A ℕ
  read_csr addr cpu =
      if addr == 0xc01
      then elim cpu.time_addr [
        | none ↦ some (err illegal_instruction, cpu)
        | some time_addr ↦ from_bus (read_by_paddr A double cpu.memory time_addr)
      ]
      else elim (read_checked cpu.csr addr) [
        | none ↦ some (err illegal_instruction, cpu)
        | some v ↦ some (ok v, cpu)
      ]
    where
      from_bus : Result MemError ℕ × VirtAddrManager A → Option (Result Exception ℕ × RvCpu A)
      from_bus (ok v, m) = some (ok v, record cpu { memory = m })
      from_bus (err e, m) = some (err illegal_instruction, record cpu { memory = m })

  -- What a write to `satp` does to the translation.
  unfoldable pub switch_address_space : Op A (Unit {0})
  unfolding flush_icache
  switch_address_space cpu = elim (get_field cpu.csr satp 60 4) [
    | none ↦ none
    | some mode ↦ elim (manager_set_mode A cpu.memory mode) [
      | none ↦ none
      | some m ↦ elim (get_field cpu.csr satp 0 44) [
        | none ↦ none
        | some ppn ↦ some (
          ok tt,
          flush_icache (record cpu { memory = manager_flush_tlb A (set_root_ppn A m ppn) }),
        )
      ]
    ]
  ]

  unfoldable pub write_csr : ℕ → ℕ → Op A (Unit {0})
  unfolding switch_address_space
  write_csr addr v cpu =
      let (written, f) = write_checked cpu.csr addr v in
      if not written
      then some (err illegal_instruction, record cpu { csr = f })
      else if addr == satp
      then switch_address_space (record cpu { csr = f })
      else some (ok tt, record cpu { csr = f })

  -- Every instruction but a write to `minstret` itself counts as retired.
  abbrev count_unless_minstret : ℕ → Op A (Unit {0})
  count_unless_minstret imm = if imm == minstret then done tt else minstret_add 1

  abbrev finish_csr : Op A (Unit {0})
  finish_csr = do cpu ← get_cpu; set_pc (wrapping_add cpu.pc 4)

  -- The operand: the index itself for the immediate forms.
  abbrev csr_operand : Bool → ℕ → RvCpu A → ℕ
  csr_operand uimm rs1 cpu = if uimm then rs1 else reg cpu rs1

  abbrev read_into : ℕ → ℕ → Op A ℕ
  read_into imm rd = do value ← read_csr imm; _ ← reg_write rd value; done value

  abbrev write_back : ℕ → ℕ → Op A (Unit {0})
  write_back imm v = do _ ← write_csr imm v; count_unless_minstret imm

  unfoldable pub exec_csrw : Bool → RvInstrInfo → Op A (Unit {0})
  unfolding read_csr write_csr minstret_add reg_write
  exec_csrw uimm (info_i rs1 rd imm_raw) = do
    cpu ← get_cpu
    let imm = bit_and imm_raw 0xFFF
    (if not (is_write_priv_legal cpu.csr imm) then raise illegal_instruction else (do
      _ ← (if rd == 0 then done 0 else read_into imm rd)
      _ ← write_back imm (csr_operand uimm rs1 cpu)
      finish_csr))
  exec_csrw uimm info = finish_csr

  unfoldable pub exec_csr_bit : Bool → Bool → RvInstrInfo → Op A (Unit {0})
  unfolding read_csr write_csr minstret_add reg_write
  exec_csr_bit set_bits uimm (info_i rs1 rd imm_raw) = do
    cpu ← get_cpu
    let imm = bit_and imm_raw 0xFFF
    let rhs = csr_operand uimm rs1 cpu
    (if rhs == 0
        then (do _ ← read_into imm rd; finish_csr)
        else if not (is_write_priv_legal cpu.csr imm)
        then raise illegal_instruction
        else (do
          value ← read_into imm rd
          _ ← write_back imm (if set_bits then bit_or value rhs else bit_and value (bit_not rhs))
          finish_csr))
  exec_csr_bit set_bits uimm info = unreachable
