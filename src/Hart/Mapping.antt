-- ===== src/Hart/Mapping.antt =====
-- src/isa/riscv/instruction/exec_mapping.rs: the function of each instruction of the base set, M, A,
-- Zicsr, the privileged set and C. The floating point and vector instructions are `units`.
use here.Base.{Bool, Result, false, ok, true, ℕ}
use here.Word.{byte, double, half, word}
use here.Alu.{
  exec_add, exec_div_signed, exec_div_unsigned, exec_mul_high_signed, exec_mul_high_signed_unsigned,
  exec_mul_high_unsigned, exec_mul_low, exec_rem_signed, exec_rem_unsigned, exec_sll, exec_sra,
  exec_srl, exec_sub,
}
use here.Alu.Compare.{
  exec_equal, exec_not_equal, exec_signed_great_equal, exec_signed_less, exec_slt, exec_sltu,
  exec_unsigned_great_equal, exec_unsigned_less,
}
use here.Alu.Logic.{exec_and, exec_or, exec_xor}
use here.Alu.Words.{
  exec_addw, exec_divuw, exec_divw, exec_mulw, exec_remuw, exec_remw, exec_sllw, exec_sraw,
  exec_srlw, exec_subw,
}
use here.Hart.{Op, raise}
use here.Hart.Atomic.{
  exec_amo_add, exec_amo_and, exec_amo_max, exec_amo_max_u, exec_amo_min, exec_amo_min_u,
  exec_amo_or, exec_amo_swap, exec_amo_xor, exec_atomic_memory_operation, exec_lr, exec_sc,
}
use here.Hart.Compress.{
  exec_addi4spn, exec_compress_arith, exec_compress_branch, exec_compress_jump,
  exec_compress_jump_reg, exec_compress_li, exec_compress_load, exec_compress_load_sp,
  exec_compress_mv, exec_compress_nop, exec_compress_store, exec_compress_store_sp,
}
use here.Hart.CsrAccess.{exec_csr_bit, exec_csrw}
use here.Hart.Exec.{
  exec_arith, exec_auipc, exec_branch, exec_jal, exec_jalr, exec_load, exec_lui, exec_nop,
  exec_store,
}
use here.Hart.System.{exec_ebreak, exec_ecall, exec_fence_i, exec_mret, exec_sfence_vma, exec_sret}
use here.Isa.{RvInstrInfo}
use here.Isa.Instr.{RiscvInstr}
use here.Mmio.{DeviceArena}
use here.Trap.{Exception, illegal_instruction}

-- `Ok` of a result
abbrev total : (ℕ → ℕ → ℕ) → ℕ → ℕ → Result Exception ℕ
total f a b = ok (f a b)

module _ {A : DeviceArena} where
  abbrev exec_illegal : RvInstrInfo → Op A (Unit {0})
  exec_illegal info = raise illegal_instruction

module _ {A : DeviceArena} (debug : Bool) (units : RiscvInstr → RvInstrInfo → Op A (Unit {0})) where
  unfoldable pub get_exec_func : RiscvInstr → RvInstrInfo → Op A (Unit {0})
  unfolding exec_add exec_addi4spn exec_addw exec_amo_add exec_amo_and exec_amo_max exec_amo_max_u
      exec_amo_min exec_amo_min_u exec_amo_or exec_amo_swap exec_amo_xor exec_and exec_arith
      exec_atomic_memory_operation exec_auipc exec_branch exec_compress_arith exec_compress_branch
      exec_compress_jump exec_compress_jump_reg exec_compress_li exec_compress_load
      exec_compress_load_sp exec_compress_mv exec_compress_nop exec_compress_store
      exec_compress_store_sp exec_csr_bit exec_csrw exec_div_signed exec_div_unsigned exec_divuw
      exec_divw exec_ebreak exec_ecall exec_equal exec_fence_i exec_jal exec_jalr exec_load exec_lr
      exec_lui exec_mret exec_mul_high_signed exec_mul_high_signed_unsigned exec_mul_high_unsigned
      exec_mul_low exec_mulw exec_nop exec_not_equal exec_or exec_rem_signed exec_rem_unsigned
      exec_remuw exec_remw exec_sc exec_sfence_vma exec_signed_great_equal exec_signed_less exec_sll
      exec_sllw exec_slt exec_sltu exec_sra exec_sraw exec_sret exec_srl exec_srlw exec_store
      exec_sub exec_subw exec_unsigned_great_equal exec_unsigned_less exec_xor
  get_exec_func RiscvInstr.add = exec_arith (total (exec_add double))
  get_exec_func RiscvInstr.addi = exec_arith (total (exec_add double))
  get_exec_func RiscvInstr.addw = exec_arith (total exec_addw)
  get_exec_func RiscvInstr.addiw = exec_arith (total exec_addw)
  get_exec_func RiscvInstr.sub = exec_arith (total (exec_sub double))
  get_exec_func RiscvInstr.subw = exec_arith (total exec_subw)
  get_exec_func RiscvInstr.mul = exec_arith (total (exec_mul_low double))
  get_exec_func RiscvInstr.mulh = exec_arith (total (exec_mul_high_signed double))
  get_exec_func RiscvInstr.mulhu = exec_arith (total (exec_mul_high_unsigned double))
  get_exec_func RiscvInstr.mulhsu = exec_arith (total (exec_mul_high_signed_unsigned double))
  get_exec_func RiscvInstr.div = exec_arith (total (exec_div_signed double))
  get_exec_func RiscvInstr.divu = exec_arith (total (exec_div_unsigned double))
  get_exec_func RiscvInstr.rem = exec_arith (total (exec_rem_signed double))
  get_exec_func RiscvInstr.remu = exec_arith (total (exec_rem_unsigned double))
  get_exec_func RiscvInstr.mulw = exec_arith (total exec_mulw)
  get_exec_func RiscvInstr.divw = exec_arith (total exec_divw)
  get_exec_func RiscvInstr.divuw = exec_arith (total exec_divuw)
  get_exec_func RiscvInstr.remw = exec_arith (total exec_remw)
  get_exec_func RiscvInstr.remuw = exec_arith (total exec_remuw)
  get_exec_func RiscvInstr.sll = exec_arith (total (exec_sll double))
  get_exec_func RiscvInstr.slli = exec_arith (total (exec_sll double))
  get_exec_func RiscvInstr.srl = exec_arith (total (exec_srl double))
  get_exec_func RiscvInstr.srli = exec_arith (total (exec_srl double))
  get_exec_func RiscvInstr.sra = exec_arith (total (exec_sra double))
  get_exec_func RiscvInstr.srai = exec_arith (total (exec_sra double))
  get_exec_func RiscvInstr.sraw = exec_arith (total exec_sraw)
  get_exec_func RiscvInstr.sraiw = exec_arith (total exec_sraw)
  get_exec_func RiscvInstr.sllw = exec_arith (total exec_sllw)
  get_exec_func RiscvInstr.slliw = exec_arith (total exec_sllw)
  get_exec_func RiscvInstr.srlw = exec_arith (total exec_srlw)
  get_exec_func RiscvInstr.srliw = exec_arith (total exec_srlw)
  get_exec_func RiscvInstr.slt = exec_arith (total (exec_slt double))
  get_exec_func RiscvInstr.slti = exec_arith (total (exec_slt double))
  get_exec_func RiscvInstr.sltu = exec_arith (total (exec_sltu double))
  get_exec_func RiscvInstr.sltiu = exec_arith (total (exec_sltu double))
  get_exec_func RiscvInstr.and = exec_arith (total (exec_and double))
  get_exec_func RiscvInstr.andi = exec_arith (total (exec_and double))
  get_exec_func RiscvInstr.or = exec_arith (total (exec_or double))
  get_exec_func RiscvInstr.ori = exec_arith (total (exec_or double))
  get_exec_func RiscvInstr.xor = exec_arith (total (exec_xor double))
  get_exec_func RiscvInstr.xori = exec_arith (total (exec_xor double))
  get_exec_func RiscvInstr.beq = exec_branch (exec_equal double)
  get_exec_func RiscvInstr.bne = exec_branch (exec_not_equal double)
  get_exec_func RiscvInstr.blt = exec_branch (exec_signed_less double)
  get_exec_func RiscvInstr.bge = exec_branch (exec_signed_great_equal double)
  get_exec_func RiscvInstr.bltu = exec_branch (exec_unsigned_less double)
  get_exec_func RiscvInstr.bgeu = exec_branch (exec_unsigned_great_equal double)
  get_exec_func RiscvInstr.lb = exec_load byte true
  get_exec_func RiscvInstr.lbu = exec_load byte false
  get_exec_func RiscvInstr.lh = exec_load half true
  get_exec_func RiscvInstr.lhu = exec_load half false
  get_exec_func RiscvInstr.lw = exec_load word true
  get_exec_func RiscvInstr.lwu = exec_load word false
  get_exec_func RiscvInstr.ld = exec_load double false
  get_exec_func RiscvInstr.sb = exec_store byte
  get_exec_func RiscvInstr.sh = exec_store half
  get_exec_func RiscvInstr.sw = exec_store word
  get_exec_func RiscvInstr.sd = exec_store double
  get_exec_func RiscvInstr.jal = exec_jal
  get_exec_func RiscvInstr.jalr = exec_jalr
  get_exec_func RiscvInstr.auipc = exec_auipc
  get_exec_func RiscvInstr.lui = exec_lui
  get_exec_func RiscvInstr.ebreak = exec_ebreak
  get_exec_func RiscvInstr.ecall = exec_ecall
  get_exec_func RiscvInstr.fence = exec_nop
  get_exec_func RiscvInstr.fence_i = exec_fence_i
  get_exec_func RiscvInstr.csrrw = exec_csrw false
  get_exec_func RiscvInstr.csrrc = exec_csr_bit false false
  get_exec_func RiscvInstr.csrrs = exec_csr_bit true false
  get_exec_func RiscvInstr.csrrwi = exec_csrw true
  get_exec_func RiscvInstr.csrrci = exec_csr_bit false true
  get_exec_func RiscvInstr.csrrsi = exec_csr_bit true true
  get_exec_func RiscvInstr.mret = exec_mret
  get_exec_func RiscvInstr.wfi = exec_nop
  get_exec_func RiscvInstr.amoadd_w = exec_atomic_memory_operation exec_amo_add word
  get_exec_func RiscvInstr.amoand_w = exec_atomic_memory_operation exec_amo_and word
  get_exec_func RiscvInstr.amoor_w = exec_atomic_memory_operation exec_amo_or word
  get_exec_func RiscvInstr.amoxor_w = exec_atomic_memory_operation exec_amo_xor word
  get_exec_func RiscvInstr.amoswap_w = exec_atomic_memory_operation exec_amo_swap word
  get_exec_func RiscvInstr.amomax_w = exec_atomic_memory_operation exec_amo_max word
  get_exec_func RiscvInstr.amomin_w = exec_atomic_memory_operation exec_amo_min word
  get_exec_func RiscvInstr.amomaxu_w = exec_atomic_memory_operation exec_amo_max_u word
  get_exec_func RiscvInstr.amominu_w = exec_atomic_memory_operation exec_amo_min_u word
  get_exec_func RiscvInstr.amoadd_d = exec_atomic_memory_operation exec_amo_add double
  get_exec_func RiscvInstr.amoand_d = exec_atomic_memory_operation exec_amo_and double
  get_exec_func RiscvInstr.amoor_d = exec_atomic_memory_operation exec_amo_or double
  get_exec_func RiscvInstr.amoxor_d = exec_atomic_memory_operation exec_amo_xor double
  get_exec_func RiscvInstr.amoswap_d = exec_atomic_memory_operation exec_amo_swap double
  get_exec_func RiscvInstr.amomax_d = exec_atomic_memory_operation exec_amo_max double
  get_exec_func RiscvInstr.amomin_d = exec_atomic_memory_operation exec_amo_min double
  get_exec_func RiscvInstr.amomaxu_d = exec_atomic_memory_operation exec_amo_max_u double
  get_exec_func RiscvInstr.amominu_d = exec_atomic_memory_operation exec_amo_min_u double
  get_exec_func RiscvInstr.lr_w = exec_lr word true
  get_exec_func RiscvInstr.sc_w = exec_sc debug word
  get_exec_func RiscvInstr.lr_d = exec_lr double false
  get_exec_func RiscvInstr.sc_d = exec_sc debug double
  get_exec_func RiscvInstr.sret = exec_sret
  get_exec_func RiscvInstr.sfence_vma = exec_sfence_vma
  get_exec_func RiscvInstr.c_add = exec_compress_arith (total (exec_add double))
  get_exec_func RiscvInstr.c_addi = exec_compress_arith (total (exec_add double))
  get_exec_func RiscvInstr.c_addi16sp = exec_compress_arith (total (exec_add double))
  get_exec_func RiscvInstr.c_addw = exec_compress_arith (total exec_addw)
  get_exec_func RiscvInstr.c_addiw = exec_compress_arith (total exec_addw)
  get_exec_func RiscvInstr.c_addi4spn = exec_addi4spn
  get_exec_func RiscvInstr.c_slli = exec_compress_arith (total (exec_sll double))
  get_exec_func RiscvInstr.c_srli = exec_compress_arith (total (exec_srl double))
  get_exec_func RiscvInstr.c_srai = exec_compress_arith (total (exec_sra double))
  get_exec_func RiscvInstr.c_mv = exec_compress_mv
  get_exec_func RiscvInstr.c_and = exec_compress_arith (total (exec_and double))
  get_exec_func RiscvInstr.c_andi = exec_compress_arith (total (exec_and double))
  get_exec_func RiscvInstr.c_or = exec_compress_arith (total (exec_or double))
  get_exec_func RiscvInstr.c_xor = exec_compress_arith (total (exec_xor double))
  get_exec_func RiscvInstr.c_sub = exec_compress_arith (total (exec_sub double))
  get_exec_func RiscvInstr.c_subw = exec_compress_arith (total exec_subw)
  get_exec_func RiscvInstr.c_nop = exec_compress_nop
  get_exec_func RiscvInstr.c_ebreak = exec_ebreak
  get_exec_func RiscvInstr.c_li = exec_compress_li
  get_exec_func RiscvInstr.c_lui = exec_compress_li
  get_exec_func RiscvInstr.c_lw = exec_compress_load word true
  get_exec_func RiscvInstr.c_ld = exec_compress_load double false
  get_exec_func RiscvInstr.c_lwsp = exec_compress_load_sp word true
  get_exec_func RiscvInstr.c_ldsp = exec_compress_load_sp double false
  get_exec_func RiscvInstr.c_sw = exec_compress_store word
  get_exec_func RiscvInstr.c_sd = exec_compress_store double
  get_exec_func RiscvInstr.c_swsp = exec_compress_store_sp word
  get_exec_func RiscvInstr.c_sdsp = exec_compress_store_sp double
  get_exec_func RiscvInstr.c_beqz = exec_compress_branch (exec_equal double)
  get_exec_func RiscvInstr.c_bnez = exec_compress_branch (exec_not_equal double)
  get_exec_func RiscvInstr.c_j = exec_compress_jump false
  get_exec_func RiscvInstr.c_jal = exec_compress_jump true
  get_exec_func RiscvInstr.c_jr = exec_compress_jump_reg false
  get_exec_func RiscvInstr.c_jalr = exec_compress_jump_reg true
  get_exec_func RiscvInstr.illegal = exec_illegal
  get_exec_func instr = units instr
