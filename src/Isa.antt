-- ===== src/Isa.antt =====
-- src/isa/riscv/mod.rs and src/isa/riscv/instruction/mod.rs: raw instructions, formats and decoded
-- operands.
pub mod Instr
pub mod Decode
pub mod Immediates
pub mod Formats
pub mod ShiftAmounts
pub mod Encode
pub mod Slices
pub mod SliceBits
pub mod Compressed
pub mod Layouts
pub mod Tables
pub mod Funct
pub mod Specific
mod Examples
pub mod Submasks
use here.Base.{Bool, bit_and, if◌then◌else◌, ℕ, ◌==◌}
use here.Isa.Instr.{RiscvInstr}

-- `instr_len`
unfoldable pub instr_len : ℕ → ℕ
instr_len instr = if bit_and instr 0b11 == 0b11 then 4 else 2

-- `RawInstr::from`
unfoldable pub raw_from : ℕ → ℕ
unfolding instr_len
raw_from value = if instr_len value == 2 then bit_and value 0xFFFF else value

pub data InstrFormat : Type 0 where
  format_none format_r format_r_rm format_r4_rm : InstrFormat
  format_i format_s format_b format_u format_j format_a format_v : InstrFormat
  format_ci format_ciw format_ca format_cb format_cj : InstrFormat
  format_cl format_cr format_cs format_css : InstrFormat

pub data RvInstrInfo : Type 0 where
  info_none : RvInstrInfo
  info_r : (rs1 rs2 rd : ℕ) → RvInstrInfo
  info_r_rm : (rs1 rs2 rd rm : ℕ) → RvInstrInfo
  info_r4_rm : (rs1 rs2 rs3 rd rm : ℕ) → RvInstrInfo
  info_i : (rs1 rd imm : ℕ) → RvInstrInfo
  info_s : (rs1 rs2 imm : ℕ) → RvInstrInfo
  info_b : (rs1 rs2 imm : ℕ) → RvInstrInfo
  info_u : (rd imm : ℕ) → RvInstrInfo
  info_j : (rd imm : ℕ) → RvInstrInfo
  info_a : (rs1 rs2 rd : ℕ) (rl aq : Bool) → RvInstrInfo
  info_v : (rs1 rs2 rd : ℕ) (vm : Bool) (func6 : ℕ) → RvInstrInfo
  info_cr : (rd_rs1 rs2 : ℕ) → RvInstrInfo
  info_ci : (rd_rs1 imm : ℕ) → RvInstrInfo
  info_css : (rs2 imm : ℕ) → RvInstrInfo
  info_ciw : (rd imm : ℕ) → RvInstrInfo
  info_cl : (rd rs1 imm : ℕ) → RvInstrInfo
  info_cs : (rs1 rs2 imm : ℕ) → RvInstrInfo
  info_ca : (rd_rs1 rs2 : ℕ) → RvInstrInfo
  info_cb : (rd_rs1 imm : ℕ) → RvInstrInfo
  info_cj : (target : ℕ) → RvInstrInfo

pub record DecodeInstr : Type 0 where
  pub instr : RiscvInstr
  pub info : RvInstrInfo
  pub len : ℕ
