-- ===== src/Isa/Formats.antt =====
-- The layouts of the 32-bit formats as the ISA manual draws them, for the operands that
-- src/isa/riscv/decoder/mod.rs reads.
use here.Base.{Bool, Option, false, none, some, true, ℕ, ◌%◌, ◌*◌, ◌+◌, ◌/◌, ◌<◌, ◌^◌, ◌≡◌}
use here.Word.{sign_extend}
use here.Isa.{
  InstrFormat, RvInstrInfo, format_a, format_b, format_i, format_j, format_none, format_r, format_s,
  format_u, info_a, info_b, info_i, info_j, info_r, info_s, info_u,
}
use here.Isa.Instr.{RiscvInstr}

abbrev pub bit_of : Bool → ℕ
bit_of true = 1
bit_of false = 0

-- The number of bits that a right shift by a constant leaves for its amount; the bits above are a
-- part of the function code.
abbrev pub shift_width : RiscvInstr → Option ℕ
shift_width RiscvInstr.srli = some 6
shift_width RiscvInstr.srai = some 6
shift_width RiscvInstr.srliw = some 5
shift_width RiscvInstr.sraiw = some 5
shift_width _ = none

-- The upper twelve bits of the format I: the immediate, or the amount of a right shift below the
-- function code of the format R, whose lowest bit a shift of 64 bits takes.
abbrev pub upper_i : Option ℕ → (f7 imm : ℕ) → ℕ
upper_i none f7 imm = imm % 2 ^ 12
upper_i (some w) f7 imm = f7 * 2 ^ 5 / 2 ^ w * 2 ^ w + imm

-- An instruction with opcode `op` and function codes `f3` and `f7`; the formats without a layout
-- here encode to 0.
abbrev pub encode : RiscvInstr → (op f3 f7 : ℕ) → RvInstrInfo → ℕ
encode instr op f3 f7 (info_r rs1 rs2 rd) =
    op + rd * 2 ^ 7 + f3 * 2 ^ 12 + rs1 * 2 ^ 15 + rs2 * 2 ^ 20 + f7 * 2 ^ 25
encode instr op f3 f7 (info_i rs1 rd imm) =
    op + rd * 2 ^ 7 + f3 * 2 ^ 12 + rs1 * 2 ^ 15 + upper_i (shift_width instr) f7 imm * 2 ^ 20
encode instr op f3 f7 (info_s rs1 rs2 imm) =
    op
    + imm % 2 ^ 5 * 2 ^ 7
    + f3 * 2 ^ 12
    + rs1 * 2 ^ 15
    + rs2 * 2 ^ 20
    + imm / 2 ^ 5 % 2 ^ 7 * 2 ^ 25
encode instr op f3 f7 (info_b rs1 rs2 imm) =
    op
    + imm / 2 ^ 11 % 2 * 2 ^ 7
    + imm / 2 % 2 ^ 4 * 2 ^ 8
    + f3 * 2 ^ 12
    + rs1 * 2 ^ 15
    + rs2 * 2 ^ 20
    + imm / 2 ^ 5 % 2 ^ 6 * 2 ^ 25
    + imm / 2 ^ 12 % 2 * 2 ^ 31
encode instr op f3 f7 (info_u rd imm) = op + rd * 2 ^ 7 + imm / 2 ^ 12 % 2 ^ 20 * 2 ^ 12
encode instr op f3 f7 (info_j rd imm) =
    op
    + rd * 2 ^ 7
    + imm / 2 ^ 12 % 2 ^ 8 * 2 ^ 12
    + imm / 2 ^ 11 % 2 * 2 ^ 20
    + imm / 2 % 2 ^ 10 * 2 ^ 21
    + imm / 2 ^ 20 % 2 * 2 ^ 31
encode instr op f3 f7 (info_a rs1 rs2 rd rl aq) =
    op
    + rd * 2 ^ 7
    + f3 * 2 ^ 12
    + rs1 * 2 ^ 15
    + rs2 * 2 ^ 20
    + bit_of rl * 2 ^ 25
    + bit_of aq * 2 ^ 26
    + f7 / 4 * 2 ^ 27
encode instr op f3 f7 info = 0

abbrev pub format_of : RvInstrInfo → InstrFormat
format_of (info_r rs1 rs2 rd) = format_r
format_of (info_i rs1 rd imm) = format_i
format_of (info_s rs1 rs2 imm) = format_s
format_of (info_b rs1 rs2 imm) = format_b
format_of (info_u rd imm) = format_u
format_of (info_j rd imm) = format_j
format_of (info_a rs1 rs2 rd rl aq) = format_a
format_of info = format_none

-- An immediate of the format I is the sign extension of its low bits, or an amount that fits.
abbrev pub IsImmediate : Option ℕ → ℕ → Type 0
IsImmediate none imm = sign_extend (imm % 2 ^ 12) 12 ≡ imm
IsImmediate (some w) imm = imm < 2 ^ w

-- Any other immediate is the sign extension of its low bits too; branch targets are even, and the low 12 bits
-- of an upper immediate are zero.
abbrev pub IsEncodable : RiscvInstr → RvInstrInfo → Type 0
IsEncodable instr (info_r rs1 rs2 rd) = (rs1 < 32) × (rs2 < 32) × (rd < 32)
IsEncodable instr (info_i rs1 rd imm) = (rs1 < 32) × (rd < 32) × IsImmediate (shift_width instr) imm
IsEncodable instr (info_s rs1 rs2 imm) =
    (rs1 < 32) × (rs2 < 32) × (sign_extend (imm % 2 ^ 12) 12 ≡ imm)
IsEncodable instr (info_b rs1 rs2 imm) =
    (rs1 < 32) × (rs2 < 32) × (sign_extend (imm % 2 ^ 13) 13 ≡ imm) × (imm % 2 ≡ 0)
IsEncodable instr (info_u rd imm) =
    (rd < 32) × (sign_extend (imm % 2 ^ 32) 32 ≡ imm) × (imm % 2 ^ 12 ≡ 0)
IsEncodable instr (info_j rd imm) =
    (rd < 32) × (sign_extend (imm % 2 ^ 21) 21 ≡ imm) × (imm % 2 ≡ 0)
IsEncodable instr (info_a rs1 rs2 rd rl aq) = (rs1 < 32) × (rs2 < 32) × (rd < 32)
IsEncodable instr info = ⊥
