-- ===== src/Isa/Examples.antt =====
-- Decoding at concrete instructions.
use here.Base.{List, [], arith, bit_and, refl, some, ℕ, ◌<◌, ◌==◌, ◌∷◌, ◌≡◌}
use here.Word.{sign_extend}
use here.Isa.{RvInstrInfo, format_b, format_ci, format_none, info_b, info_i}
use here.Isa.Compressed.{slices_cj}
use here.Isa.Decode.{decode_info}
use here.Isa.Encode.{decode_info-encode}
use here.Isa.Formats.{IsEncodable, encode}
use here.Isa.Funct.{submasks}
use here.Isa.Instr.{RiscvInstr}
use here.Isa.Layouts.{encode_c, extract_field-encode_c, layout_cj}
use here.Isa.Slices.{extract_field}
use here.Isa.Specific.{IsBestMatch, find_mask-IsBestMatch}
use here.Isa.Submasks.{contains, submasks-ends}
use here.Isa.Tables.{RvInstrDesc, count_zeros, find_mask, masks_from_isa}

-- `beq x1, x2, -4`
abbrev branch_back : RvInstrInfo
branch_back = info_b 1 2 0xFFFF_FFFF_FFFF_FFFC

branch_code : encode RiscvInstr.beq 0x63 0 0 branch_back ≡ 0xFE20_8EE3
branch_code = refl

branch_back-IsEncodable : IsEncodable RiscvInstr.beq branch_back
unfolding sign_extend
branch_back-IsEncodable = (omega arith, omega arith, refl, refl)

decode_info-encode_example :
    decode_info (encode RiscvInstr.beq 0x63 0 0 branch_back) RiscvInstr.beq format_b
    ≡ some branch_back
decode_info-encode_example =
    decode_info-encode 0x63 0 0 RiscvInstr.beq branch_back (omega arith) (omega arith) (omega arith)
      branch_back-IsEncodable

-- `srai x5, x6, 42`, whose function code is 0b0100000
shift_code : encode RiscvInstr.srai 0x13 5 0b0100000 (info_i 6 5 42) ≡ 0x42A3_5293
shift_code = refl

-- `c.j` by 0x2A6
extract_field-encode_c_example : extract_field (encode_c layout_cj 1 5 0 0 0x2A6) slices_cj ≡ 0x2A6
extract_field-encode_c_example =
    extract_field-encode_c layout_cj 1 5 0 0 0x2A6 (omega arith) (omega arith) (omega arith) refl

-- `c.nop` is the more specific pattern of the two.
abbrev two_patterns : List RvInstrDesc
two_patterns =
    record { instr = RiscvInstr.c_addi; format = format_ci; mask = 0xE003; key = 0x0001 }
    ∷ record { instr = RiscvInstr.c_nop; format = format_none; mask = 0xEF83; key = 0x0001 }
    ∷ []

nop_found :
    find_mask (masks_from_isa two_patterns) 1
    ≡ some (record { key = 1; mask = 0xEF83 }, RiscvInstr.c_nop, format_none)
unfolding find_mask masks_from_isa count_zeros
nop_found = refl

find_mask-IsBestMatch_example :
    IsBestMatch 1 two_patterns (find_mask (masks_from_isa two_patterns) 1)
find_mask-IsBestMatch_example = find_mask-IsBestMatch two_patterns 1

submasks-ends_example :
    (l : List ℕ) × (submasks 0b101 ≡ some l)
    × ((s : ℕ) → s < 128 → contains l s ≡ (bit_and s 0b101 == s))
submasks-ends_example = submasks-ends 0b101 (omega arith)
