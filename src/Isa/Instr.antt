-- ===== src/Isa/Instr.antt =====
-- The instructions that src/isa/riscv/instruction/exec_mapping.rs names for the base set, M, A,
-- Zicsr and C; `other` stands for the floating point, vector and custom ones.
use here.Base.{ℕ}

pub data RiscvInstr : Type 0 where
  add addi addw addiw sub subw mul mulh mulhu mulhsu div divu rem remu mulw divw divuw remw remuw :
      RiscvInstr
  sll slli srl srli sra srai sraw sraiw sllw slliw srlw srliw : RiscvInstr
  slt slti sltu sltiu and andi or ori xor xori : RiscvInstr
  beq bne blt bge bltu bgeu : RiscvInstr
  lb lbu lh lhu lw lwu ld sb sh sw sd : RiscvInstr
  jal jalr auipc lui ebreak ecall fence fence_i : RiscvInstr
  csrrw csrrc csrrs csrrwi csrrci csrrsi mret sret wfi sfence_vma : RiscvInstr
  c_add c_addi c_addi16sp c_addw c_addiw c_addi4spn c_slli c_srli c_srai c_mv c_and c_andi c_or
        c_xor c_sub c_subw c_nop c_ebreak c_li c_lui :
      RiscvInstr
  c_lw c_ld c_lwsp c_ldsp c_sw c_sd c_swsp c_sdsp c_flw c_fld c_flwsp c_fldsp c_fsw c_fsd c_fswsp
        c_fsdsp :
      RiscvInstr
  c_beqz c_bnez c_j c_jal c_jr c_jalr : RiscvInstr
  amoadd_w amoand_w amoor_w amoxor_w amoswap_w amomax_w amomin_w amomaxu_w amominu_w amoadd_d
        amoand_d amoor_d amoxor_d amoswap_d amomax_d amomin_d amomaxu_d amominu_d :
      RiscvInstr
  lr_w sc_w lr_d sc_d illegal : RiscvInstr
  other : ℕ → RiscvInstr
