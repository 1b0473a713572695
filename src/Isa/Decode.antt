-- ===== src/Isa/Decode.antt =====
-- src/isa/riscv/decoder/mod.rs: `decode_info`, which reads the operands of a 32-bit instruction.
use here.Base.{Option, bit_and, bit_or, none, not, some, ℕ, ◌%◌, ◌*◌, ◌==◌, ◌^◌}
use here.Word.{shr, sign_extend}
use here.Isa.{
  InstrFormat, RvInstrInfo, format_a, format_b, format_i, format_j, format_none, format_r,
  format_r4_rm, format_r_rm, format_s, format_u, format_v, info_a, info_b, info_i, info_j,
  info_none, info_r, info_r4_rm, info_r_rm, info_s, info_u, info_v,
}
use here.Isa.Instr.{RiscvInstr}

-- `x << k` on a `u32`
abbrev pub shl32 : ℕ → ℕ → ℕ
shl32 x k = x * 2 ^ k % 2 ^ 32

-- The shift amount of a right shift is masked, any other immediate is kept.
unfoldable pub mask_shift : RiscvInstr → ℕ → ℕ
mask_shift RiscvInstr.srli imm = bit_and imm 0x3F
mask_shift RiscvInstr.srai imm = bit_and imm 0x3F
mask_shift RiscvInstr.srliw imm = bit_and imm 0x1F
mask_shift RiscvInstr.sraiw imm = bit_and imm 0x1F
mask_shift _ imm = imm

unfoldable pub imm_s : ℕ → ℕ
imm_s raw = bit_or (shl32 (bit_and (shr raw 25) 0xFF) 5) (bit_and (shr raw 7) 0b11111)

unfoldable pub imm_b : ℕ → ℕ
imm_b raw =
    bit_or
      (bit_or (bit_or (shl32 (bit_and (shr raw 31) 1) 12) (shl32 (bit_and (shr raw 7) 1) 11))
        (shl32 (bit_and (shr raw 25) 0b111111) 5))
      (shl32 (bit_and (shr raw 8) 0b1111) 1)

unfoldable pub imm_j : ℕ → ℕ
imm_j raw =
    bit_or
      (bit_or (bit_or (shl32 (bit_and (shr raw 31) 1) 20) (shl32 (bit_and (shr raw 12) 0xFF) 12))
        (shl32 (bit_and (shr raw 20) 1) 11))
      (shl32 (bit_and (shr raw 21) 0x3FF) 1)

-- `none` is the unreachable arm of the compressed formats.
unfoldable pub decode_info : ℕ → RiscvInstr → InstrFormat → Option RvInstrInfo
unfolding sign_extend mask_shift imm_s imm_b imm_j
decode_info raw instr fmt =
    let rd = bit_and (shr raw 7) 0b11111 in
    let rs1 = bit_and (shr raw 15) 0b11111 in
    let rs2 = bit_and (shr raw 20) 0b11111 in
    let f3 = bit_and (shr raw 12) 0b111 in
    elim fmt [
      | format_v ↦
          some (info_v rs1 rs2 rd (not (bit_and raw (2 ^ 25) == 0)) (bit_and (shr raw 26) 0x3F))
      | format_r ↦ some (info_r rs1 rs2 rd)
      | format_r_rm ↦ some (info_r_rm rs1 rs2 rd f3)
      | format_r4_rm ↦ some (info_r4_rm rs1 rs2 (bit_and (shr raw 27) 0b11111) rd f3)
      | format_a ↦ some (
          info_a rs1 rs2 rd (not (bit_and (shr raw 25) 1 == 0)) (not (bit_and (shr raw 26) 1 == 0)))
      | format_i ↦
          some (info_i rs1 rd (sign_extend (mask_shift instr (bit_and (shr raw 20) 0xFFF)) 12))
      | format_s ↦ some (info_s rs1 rs2 (sign_extend (imm_s raw) 12))
      | format_u ↦ some (info_u rd (sign_extend (shl32 (shr raw 12) 12) 32))
      | format_b ↦ some (info_b rs1 rs2 (sign_extend (imm_b raw) 13))
      | format_j ↦ some (info_j rd (sign_extend (imm_j raw) 21))
      | format_none ↦ some info_none
      | _ ↦ none
    ]
