-- ===== src/Hart/Compress.antt =====
-- src/isa/riscv/instruction/exec_compress_function.rs without its floating point accesses.
use here.Base.{Bool, Result, bit_and, if◌then◌else◌, ℕ}
use here.Word.{Width, bit_not, double, wrapping_add}
use here.Alu.{exec_add}
use here.Hart.{Op, done, minstret_add, reg, reg_write, ◌>>=◌}
use here.Hart.Core.{
  get_cpu, handle_load, handle_store, lift, normal_compress_exec, set_pc, unreachable,
}
use here.Hart.Exec.{wrapping_add_as_signed}
use here.Isa.{
  RvInstrInfo, info_ca, info_cb, info_ci, info_ciw, info_cj, info_cl, info_cr, info_cs, info_css,
}
use here.Mmio.{DeviceArena}
use here.Trap.{Exception}

module _ {A : DeviceArena} where
  -- `rd = f(rd, rs2)` or `rd = f(rd, imm)`
  unfoldable pub compress_arith_body : (ℕ → ℕ → Result Exception ℕ) → RvInstrInfo → Op A (Unit {0})
  unfolding reg_write
  compress_arith_body f info = elim info [
    | info_cr rd_rs1 rs2 ↦ from_registers rd_rs1 rs2
    | info_ca rd_rs1 rs2 ↦ from_registers rd_rs1 rs2
    | info_ci rd_rs1 imm ↦ from_immediate rd_rs1 imm
    | info_cb rd_rs1 imm ↦ from_immediate rd_rs1 imm
    | _ ↦ unreachable
  ]
    where
      from_registers : ℕ → ℕ → Op A (Unit {0})
      from_registers rd rs2 = do
        cpu ← get_cpu
        rst ← lift (f (reg cpu rd) (reg cpu rs2))
        reg_write rd rst

      from_immediate : ℕ → ℕ → Op A (Unit {0})
      from_immediate rd imm = do cpu ← get_cpu; rst ← lift (f (reg cpu rd) imm); reg_write rd rst

  unfoldable pub exec_compress_arith : (ℕ → ℕ → Result Exception ℕ) → RvInstrInfo → Op A (Unit {0})
  unfolding normal_compress_exec compress_arith_body
  exec_compress_arith f info = normal_compress_exec (compress_arith_body f info)

  unfoldable pub exec_compress_branch : (ℕ → ℕ → Bool) → RvInstrInfo → Op A (Unit {0})
  unfolding minstret_add
  exec_compress_branch f (info_cb rs1 imm) = do
    cpu ← get_cpu
    _ ← set_pc (wrapping_add cpu.pc (if f (reg cpu rs1) 0 then imm else 2))
    minstret_add 1
  exec_compress_branch f info = unreachable

  unfoldable pub exec_compress_jump : Bool → RvInstrInfo → Op A (Unit {0})
  unfolding reg_write minstret_add
  exec_compress_jump link (info_cj target) = do
    cpu ← get_cpu
    _ ← (if link then reg_write 1 (wrapping_add cpu.pc 2) else done tt)
    _ ← set_pc (wrapping_add cpu.pc target)
    minstret_add 1
  exec_compress_jump link info = unreachable

  unfoldable pub exec_compress_jump_reg : Bool → RvInstrInfo → Op A (Unit {0})
  unfolding reg_write minstret_add
  exec_compress_jump_reg link (info_cr rs1 rs2) = do
    cpu ← get_cpu
    _ ← set_pc (bit_and (reg cpu rs1) (bit_not 1))
    _ ← (if link then reg_write 1 (wrapping_add cpu.pc 2) else done tt)
    minstret_add 1
  exec_compress_jump_reg link info = unreachable

  unfoldable pub compress_load_sp_body : Width → Bool → RvInstrInfo → Op A (Unit {0})
  unfolding handle_load
  compress_load_sp_body t extend (info_ci rd imm) = do
    cpu ← get_cpu
    handle_load t extend rd (wrapping_add_as_signed (reg cpu 2) imm)
  compress_load_sp_body t extend info = unreachable

  unfoldable pub exec_compress_load_sp : Width → Bool → RvInstrInfo → Op A (Unit {0})
  unfolding normal_compress_exec compress_load_sp_body
  exec_compress_load_sp t extend info = normal_compress_exec (compress_load_sp_body t extend info)

  unfoldable pub compress_load_body : Width → Bool → RvInstrInfo → Op A (Unit {0})
  unfolding handle_load
  compress_load_body t extend (info_cl rd rs1 imm) = do
    cpu ← get_cpu
    handle_load t extend rd (wrapping_add_as_signed (reg cpu rs1) imm)
  compress_load_body t extend info = unreachable

  unfoldable pub exec_compress_load : Width → Bool → RvInstrInfo → Op A (Unit {0})
  unfolding normal_compress_exec compress_load_body
  exec_compress_load t extend info = normal_compress_exec (compress_load_body t extend info)

  unfoldable pub compress_store_sp_body : Width → RvInstrInfo → Op A (Unit {0})
  unfolding handle_store
  compress_store_sp_body t (info_css rs2 imm) = do
    cpu ← get_cpu
    handle_store t (wrapping_add_as_signed (reg cpu 2) imm) (reg cpu rs2)
  compress_store_sp_body t info = unreachable

  unfoldable pub exec_compress_store_sp : Width → RvInstrInfo → Op A (Unit {0})
  unfolding normal_compress_exec compress_store_sp_body
  exec_compress_store_sp t info = normal_compress_exec (compress_store_sp_body t info)

  unfoldable pub compress_store_body : Width → RvInstrInfo → Op A (Unit {0})
  unfolding handle_store
  compress_store_body t (info_cs rs1 rs2 imm) = do
    cpu ← get_cpu
    handle_store t (wrapping_add_as_signed (reg cpu rs1) imm) (reg cpu rs2)
  compress_store_body t info = unreachable

  unfoldable pub exec_compress_store : Width → RvInstrInfo → Op A (Unit {0})
  unfolding normal_compress_exec compress_store_body
  exec_compress_store t info = normal_compress_exec (compress_store_body t info)

  unfoldable pub exec_compress_nop : RvInstrInfo → Op A (Unit {0})
  unfolding normal_compress_exec
  exec_compress_nop info = normal_compress_exec (done tt)

  unfoldable pub exec_compress_mv : RvInstrInfo → Op A (Unit {0})
  unfolding normal_compress_exec reg_write
  exec_compress_mv (info_cr rd rs2) =
      normal_compress_exec (do cpu ← get_cpu; reg_write rd (reg cpu rs2))
  exec_compress_mv info = unreachable

  unfoldable pub exec_compress_li : RvInstrInfo → Op A (Unit {0})
  unfolding normal_compress_exec reg_write
  exec_compress_li (info_ci rd imm) = normal_compress_exec (reg_write rd imm)
  exec_compress_li info = unreachable

  unfoldable pub exec_addi4spn : RvInstrInfo → Op A (Unit {0})
  unfolding normal_compress_exec reg_write exec_add
  exec_addi4spn (info_ciw rd imm) =
      normal_compress_exec (do cpu ← get_cpu; reg_write rd (exec_add double (reg cpu 2) imm))
  exec_addi4spn info = unreachable
