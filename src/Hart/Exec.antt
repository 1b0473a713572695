-- ===== src/Hart/Exec.antt =====
-- src/isa/riscv/instruction/exec_function.rs and exec_mapping.rs: the instructions of the base set
-- that compute, branch, access memory and jump.
use here.Base.{Bool, Result, bit_and, if◌then◌else◌, ℕ, ◌%◌, ◌+◌, ◌^◌}
use here.Word.{Width, bit_not, truncate_to, wrapping_add}
use here.Hart.{Op, cpu_write, done, minstret_add, reg, reg_write, ◌>>=◌}
use here.Hart.Core.{
  check_jump_alignment, get_cpu, handle_load, lift, normal_exec, set_pc, unreachable,
}
use here.Isa.{RvInstrInfo, info_b, info_i, info_j, info_r, info_s, info_u}
use here.Mmio.{DeviceArena}
use here.Trap.{Exception}

-- `wrapping_add_as_signed`
abbrev pub wrapping_add_as_signed : ℕ → ℕ → ℕ
wrapping_add_as_signed lhs rhs = (lhs + rhs) % 2 ^ 64

module _ {A : DeviceArena} where
  unfoldable pub arith_body : (ℕ → ℕ → Result Exception ℕ) → RvInstrInfo → Op A (Unit {0})
  unfolding reg_write
  arith_body f (info_r rs1 rs2 rd) = do
    cpu ← get_cpu
    rst ← lift (f (reg cpu rs1) (reg cpu rs2))
    reg_write rd rst
  arith_body f (info_i rs1 rd imm) = do
    cpu ← get_cpu
    rst ← lift (f (reg cpu rs1) imm)
    reg_write rd rst
  arith_body f info = unreachable

  unfoldable pub exec_arith : (ℕ → ℕ → Result Exception ℕ) → RvInstrInfo → Op A (Unit {0})
  unfolding normal_exec arith_body
  exec_arith f info = normal_exec (arith_body f info)

  unfoldable pub exec_branch : (ℕ → ℕ → Bool) → RvInstrInfo → Op A (Unit {0})
  unfolding check_jump_alignment minstret_add
  exec_branch f (info_b rs1 rs2 imm) = do
    cpu ← get_cpu
    _ ←
        (if f (reg cpu rs1) (reg cpu rs2)
          then (do
            _ ← check_jump_alignment (wrapping_add cpu.pc imm)
            set_pc (wrapping_add cpu.pc imm))
          else set_pc (wrapping_add cpu.pc 4))
    minstret_add 1
  exec_branch f info = unreachable

  unfoldable pub load_body : Width → Bool → RvInstrInfo → Op A (Unit {0})
  unfolding handle_load
  load_body t extend (info_i rs1 rd imm) = do
    cpu ← get_cpu
    handle_load t extend rd (wrapping_add_as_signed (reg cpu rs1) imm)
  load_body t extend info = unreachable

  unfoldable pub exec_load : Width → Bool → RvInstrInfo → Op A (Unit {0})
  unfolding normal_exec load_body
  exec_load t extend info = normal_exec (load_body t extend info)

  unfoldable pub store_body : Width → RvInstrInfo → Op A (Unit {0})
  unfolding cpu_write
  store_body t (info_s rs1 rs2 imm) = do
    cpu ← get_cpu
    cpu_write t (wrapping_add_as_signed (reg cpu rs1) imm) (truncate_to t (reg cpu rs2))
  store_body t info = unreachable

  unfoldable pub exec_store : Width → RvInstrInfo → Op A (Unit {0})
  unfolding normal_exec store_body
  exec_store t info = normal_exec (store_body t info)

  unfoldable pub exec_nop : RvInstrInfo → Op A (Unit {0})
  unfolding normal_exec
  exec_nop info = normal_exec (done tt)

  unfoldable pub exec_jal : RvInstrInfo → Op A (Unit {0})
  unfolding check_jump_alignment reg_write minstret_add
  exec_jal (info_j rd imm) = do
    cpu ← get_cpu
    _ ← check_jump_alignment (wrapping_add cpu.pc imm)
    _ ← reg_write rd (wrapping_add cpu.pc 4)
    _ ← set_pc (wrapping_add cpu.pc imm)
    minstret_add 1
  exec_jal info = unreachable

  -- `pc + 4` wraps as the release profile computes it.
  unfoldable pub exec_jalr : RvInstrInfo → Op A (Unit {0})
  unfolding check_jump_alignment reg_write minstret_add
  exec_jalr (info_i rs1 rd imm) = do
    cpu ← get_cpu
    let target = bit_and (wrapping_add (reg cpu rs1) imm) (bit_not 1)
    _ ← check_jump_alignment target
    _ ← set_pc target
    _ ← reg_write rd (wrapping_add cpu.pc 4)
    minstret_add 1
  exec_jalr info = unreachable

  unfoldable pub exec_auipc : RvInstrInfo → Op A (Unit {0})
  unfolding reg_write minstret_add
  exec_auipc (info_u rd imm) = do
    cpu ← get_cpu
    _ ← reg_write rd (wrapping_add cpu.pc imm)
    _ ← set_pc (wrapping_add cpu.pc 4)
    minstret_add 1
  exec_auipc info = unreachable

  unfoldable pub exec_lui : RvInstrInfo → Op A (Unit {0})
  unfolding reg_write minstret_add
  exec_lui (info_u rd imm) = do
    cpu ← get_cpu
    _ ← reg_write rd imm
    _ ← set_pc (wrapping_add cpu.pc 4)
    minstret_add 1
  exec_lui info = unreachable
