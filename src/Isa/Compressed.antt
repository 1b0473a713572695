-- ===== src/Isa/Compressed.antt =====
-- src/isa/riscv/decoder/compress_decoder.rs: `decode_compressed_info`.
use mathlib.Core.Option
use here.Base.{List, Option, [], none, some, ℕ, ◌+◌, ◌∷◌}
use here.Word.{extract_range, shl}
use here.Isa.{
  InstrFormat, RvInstrInfo, format_ca, format_cb, format_ci, format_ciw, format_cj, format_cl,
  format_cr, format_cs, format_css, format_none, info_ca, info_cb, info_ci, info_ciw, info_cj,
  info_cl, info_cr, info_cs, info_css, info_none,
}
use here.Isa.Instr.{RiscvInstr}
use here.Isa.Slices.{Slice, sign_ext_extract, slice, zero_ext_extract}

unfoldable pub cvt_short_reg : ℕ → ℕ
cvt_short_reg reg_idx = reg_idx + 8

abbrev pub slices_6 : List Slice
slices_6 = slice 5 5 12 ∷ slice 4 0 2 ∷ []

abbrev pub slices_cb : List Slice
slices_cb = slice 8 8 12 ∷ slice 4 3 10 ∷ slice 7 6 5 ∷ slice 2 1 3 ∷ slice 5 5 2 ∷ []

abbrev pub slices_addi16sp : List Slice
slices_addi16sp = slice 9 9 12 ∷ slice 4 4 6 ∷ slice 6 6 5 ∷ slice 8 7 3 ∷ slice 5 5 2 ∷ []

abbrev pub slices_ldsp : List Slice
slices_ldsp = slice 5 5 12 ∷ slice 4 3 5 ∷ slice 8 6 2 ∷ []

abbrev pub slices_lwsp : List Slice
slices_lwsp = slice 5 5 12 ∷ slice 4 2 4 ∷ slice 7 6 2 ∷ []

abbrev pub slices_ciw : List Slice
slices_ciw = slice 5 4 11 ∷ slice 9 6 7 ∷ slice 2 2 6 ∷ slice 3 3 5 ∷ []

abbrev pub slices_cj : List Slice
slices_cj =
    slice 11 11 12
    ∷ slice 4 4 11
    ∷ slice 9 8 9
    ∷ slice 10 10 8
    ∷ slice 6 6 7
    ∷ slice 7 7 6
    ∷ slice 3 1 3
    ∷ slice 5 5 2
    ∷ []

abbrev pub slices_ld : List Slice
slices_ld = slice 5 3 10 ∷ slice 7 6 5 ∷ []

abbrev pub slices_lw : List Slice
slices_lw = slice 5 3 10 ∷ slice 2 2 6 ∷ slice 6 6 5 ∷ []

abbrev pub slices_sdsp : List Slice
slices_sdsp = slice 5 3 10 ∷ slice 8 6 7 ∷ []

abbrev pub slices_swsp : List Slice
slices_swsp = slice 5 2 9 ∷ slice 7 6 7 ∷ []

-- The offset of the format CB; `none` is the unreachable arm, here and below.
unfoldable pub offset_cb : RiscvInstr → ℕ → Option ℕ
unfolding sign_ext_extract
offset_cb RiscvInstr.c_srli raw = some (sign_ext_extract raw slices_6)
offset_cb RiscvInstr.c_srai raw = some (sign_ext_extract raw slices_6)
offset_cb RiscvInstr.c_andi raw = some (sign_ext_extract raw slices_6)
offset_cb RiscvInstr.c_beqz raw = some (sign_ext_extract raw slices_cb)
offset_cb RiscvInstr.c_bnez raw = some (sign_ext_extract raw slices_cb)
offset_cb _ raw = none

unfoldable pub imm_ci : RiscvInstr → ℕ → ℕ
unfolding sign_ext_extract zero_ext_extract
imm_ci RiscvInstr.c_addi16sp raw = sign_ext_extract raw slices_addi16sp
imm_ci RiscvInstr.c_ldsp raw = zero_ext_extract raw slices_ldsp
imm_ci RiscvInstr.c_fldsp raw = zero_ext_extract raw slices_ldsp
imm_ci RiscvInstr.c_lwsp raw = zero_ext_extract raw slices_lwsp
imm_ci RiscvInstr.c_flwsp raw = zero_ext_extract raw slices_lwsp
imm_ci RiscvInstr.c_lui raw = shl (sign_ext_extract raw slices_6) 12
imm_ci _ raw = sign_ext_extract raw slices_6

unfoldable pub uimm_mem : RiscvInstr → ℕ → Option ℕ
unfolding zero_ext_extract
uimm_mem RiscvInstr.c_fld raw = some (zero_ext_extract raw slices_ld)
uimm_mem RiscvInstr.c_ld raw = some (zero_ext_extract raw slices_ld)
uimm_mem RiscvInstr.c_fsd raw = some (zero_ext_extract raw slices_ld)
uimm_mem RiscvInstr.c_sd raw = some (zero_ext_extract raw slices_ld)
uimm_mem RiscvInstr.c_lw raw = some (zero_ext_extract raw slices_lw)
uimm_mem RiscvInstr.c_flw raw = some (zero_ext_extract raw slices_lw)
uimm_mem RiscvInstr.c_sw raw = some (zero_ext_extract raw slices_lw)
uimm_mem RiscvInstr.c_fsw raw = some (zero_ext_extract raw slices_lw)
uimm_mem _ raw = none

unfoldable pub uimm_css : RiscvInstr → ℕ → Option ℕ
unfolding zero_ext_extract
uimm_css RiscvInstr.c_fsdsp raw = some (zero_ext_extract raw slices_sdsp)
uimm_css RiscvInstr.c_sdsp raw = some (zero_ext_extract raw slices_sdsp)
uimm_css RiscvInstr.c_swsp raw = some (zero_ext_extract raw slices_swsp)
uimm_css RiscvInstr.c_fswsp raw = some (zero_ext_extract raw slices_swsp)
uimm_css _ raw = none

unfoldable pub decode_compressed_info : ℕ → RiscvInstr → InstrFormat → Option RvInstrInfo
unfolding extract_range cvt_short_reg offset_cb imm_ci uimm_mem uimm_css sign_ext_extract
    zero_ext_extract
decode_compressed_info raw instr fmt =
    let rs2 = extract_range raw 2 6 in
    let rd_rs1 = extract_range raw 7 11 in
    let rd_rs2_short = cvt_short_reg (extract_range raw 2 4) in
    let rd_rs1_short = cvt_short_reg (extract_range raw 7 9) in
    elim fmt [
      | format_ca ↦ some (info_ca rd_rs1_short rd_rs2_short)
      | format_cb ↦ Option.map (λ imm. info_cb rd_rs1_short imm) (offset_cb instr raw)
      | format_ci ↦ some (info_ci rd_rs1 (imm_ci instr raw))
      | format_ciw ↦ some (info_ciw rd_rs2_short (zero_ext_extract raw slices_ciw))
      | format_cj ↦ some (info_cj (sign_ext_extract raw slices_cj))
      | format_cl ↦ Option.map (λ imm. info_cl rd_rs2_short rd_rs1_short imm) (uimm_mem instr raw)
      | format_cs ↦ Option.map (λ imm. info_cs rd_rs1_short rd_rs2_short imm) (uimm_mem instr raw)
      | format_css ↦ Option.map (λ imm. info_css rs2 imm) (uimm_css instr raw)
      | format_cr ↦ some (info_cr rd_rs1 rs2)
      | format_none ↦ some info_none
      | _ ↦ none
    ]
