-- ===== src/Isa/Encode.antt =====
-- `decode_info` of src/isa/riscv/decoder/mod.rs reads back what the 32-bit formats hold.
use here.Base.{Bool, ap, arith, false, not, refl, some, true, ℕ, ◌/◌, ◌<◌, ◌==◌, ◌^◌, ◌∙◌, ◌≡◌, ◌≤◌}
use here.Bits.{bit_and_ones}
use here.Word.{sign_extend}
use here.Isa.{
  RvInstrInfo, format_a, format_b, format_i, format_j, format_r, format_s, format_u, info_a, info_b,
  info_i, info_j, info_r, info_s, info_u,
}
use here.Isa.Decode.{decode_info, mask_shift}
use here.Isa.Formats.{IsEncodable, bit_of, encode, format_of, shift_width, upper_i}
use here.Isa.Immediates.{imm_b-eq, imm_j-eq, imm_s-eq}
use here.Isa.Instr.{RiscvInstr}
use here.Isa.ShiftAmounts.{upper_i-read}
use here.Ram.{read}

decode_r :
    (op f3 f7 rs1 rs2 rd : ℕ) (instr : RiscvInstr)
    → op < 2 ^ 7
    → f3 < 8
    → f7 < 2 ^ 7
    → IsEncodable instr (info_r rs1 rs2 rd)
    → decode_info (encode instr op f3 f7 (info_r rs1 rs2 rd)) instr format_r
      ≡ some (info_r rs1 rs2 rd)
unfolding decode_info
decode_r op f3 f7 rs1 rs2 rd instr ho h3 h7 h =
    let raw = encode instr op f3 f7 (info_r rs1 rs2 rd) in
    fields (omega (arith, bit_and_ones 5 (raw / 2 ^ 15)))
      (omega (arith, bit_and_ones 5 (raw / 2 ^ 20))) (omega (arith, bit_and_ones 5 (raw / 2 ^ 7)))
  where
    fields :
        {a b c : ℕ} → a ≡ rs1 → b ≡ rs2 → c ≡ rd → some (info_r a b c) ≡ some (info_r rs1 rs2 rd)
    fields ea eb ec = rw (ea, eb, ec) refl

decode_s :
    (op f3 f7 rs1 rs2 imm : ℕ) (instr : RiscvInstr)
    → op < 2 ^ 7
    → f3 < 8
    → f7 < 2 ^ 7
    → IsEncodable instr (info_s rs1 rs2 imm)
    → decode_info (encode instr op f3 f7 (info_s rs1 rs2 imm)) instr format_s
      ≡ some (info_s rs1 rs2 imm)
unfolding decode_info
decode_s op f3 f7 rs1 rs2 imm instr ho h3 h7 (h1, h2, hi) =
    let raw = encode instr op f3 f7 (info_s rs1 rs2 imm) in
    fields (omega (arith, bit_and_ones 5 (raw / 2 ^ 15)))
      (omega (arith, bit_and_ones 5 (raw / 2 ^ 20)))
      (ap (λ (n : ℕ). sign_extend n 12) (imm_s-eq raw (omega arith) ∙ omega arith) ∙ hi)
  where
    fields :
        {a b c : ℕ} → a ≡ rs1 → b ≡ rs2 → c ≡ imm → some (info_s a b c) ≡ some (info_s rs1 rs2 imm)
    fields ea eb ec = rw (ea, eb, ec) refl

decode_b :
    (op f3 f7 rs1 rs2 imm : ℕ) (instr : RiscvInstr)
    → op < 2 ^ 7
    → f3 < 8
    → f7 < 2 ^ 7
    → IsEncodable instr (info_b rs1 rs2 imm)
    → decode_info (encode instr op f3 f7 (info_b rs1 rs2 imm)) instr format_b
      ≡ some (info_b rs1 rs2 imm)
unfolding decode_info
decode_b op f3 f7 rs1 rs2 imm instr ho h3 h7 (h1, h2, hi, he) =
    let raw = encode instr op f3 f7 (info_b rs1 rs2 imm) in
    fields (omega (arith, bit_and_ones 5 (raw / 2 ^ 15)))
      (omega (arith, bit_and_ones 5 (raw / 2 ^ 20)))
      (ap (λ (n : ℕ). sign_extend n 13) (imm_b-eq raw (omega arith) ∙ omega arith) ∙ hi)
  where
    fields :
        {a b c : ℕ} → a ≡ rs1 → b ≡ rs2 → c ≡ imm → some (info_b a b c) ≡ some (info_b rs1 rs2 imm)
    fields ea eb ec = rw (ea, eb, ec) refl

decode_i :
    (op f3 f7 rs1 rd imm : ℕ) (instr : RiscvInstr)
    → op < 2 ^ 7
    → f3 < 8
    → f7 < 2 ^ 7
    → IsEncodable instr (info_i rs1 rd imm)
    → decode_info (encode instr op f3 f7 (info_i rs1 rd imm)) instr format_i
      ≡ some (info_i rs1 rd imm)
unfolding decode_info
decode_i op f3 f7 rs1 rd imm instr ho h3 h7 (h1, h2, hi) =
    let raw = encode instr op f3 f7 (info_i rs1 rd imm) in
    let upper = upper_i (shift_width instr) f7 imm in
    let (lt, read) = upper_i-read instr (shift_width instr) f7 imm refl h7 hi in
    fields (omega (arith, bit_and_ones 5 (raw / 2 ^ 15), lt))
      (omega (arith, bit_and_ones 5 (raw / 2 ^ 7), lt))
      (ap (λ (n : ℕ). sign_extend (mask_shift instr n) 12)
          (omega (arith, bit_and_ones 12 (raw / 2 ^ 20), lt))
        ∙ read)
  where
    fields :
        {a b c : ℕ} → a ≡ rs1 → b ≡ rd → c ≡ imm → some (info_i a b c) ≡ some (info_i rs1 rd imm)
    fields ea eb ec = rw (ea, eb, ec) refl

decode_u :
    (op f3 f7 rd imm : ℕ) (instr : RiscvInstr)
    → op < 2 ^ 7
    → f3 < 8
    → f7 < 2 ^ 7
    → IsEncodable instr (info_u rd imm)
    → decode_info (encode instr op f3 f7 (info_u rd imm)) instr format_u ≡ some (info_u rd imm)
unfolding decode_info
decode_u op f3 f7 rd imm instr ho h3 h7 (h1, hi, he) =
    let raw = encode instr op f3 f7 (info_u rd imm) in
    fields (omega (arith, bit_and_ones 5 (raw / 2 ^ 7)))
      (ap (λ (n : ℕ). sign_extend n 32) (omega arith) ∙ hi)
  where
    fields : {a b : ℕ} → a ≡ rd → b ≡ imm → some (info_u a b) ≡ some (info_u rd imm)
    fields ea eb = rw (ea, eb) refl

decode_j :
    (op f3 f7 rd imm : ℕ) (instr : RiscvInstr)
    → op < 2 ^ 7
    → f3 < 8
    → f7 < 2 ^ 7
    → IsEncodable instr (info_j rd imm)
    → decode_info (encode instr op f3 f7 (info_j rd imm)) instr format_j ≡ some (info_j rd imm)
unfolding decode_info
decode_j op f3 f7 rd imm instr ho h3 h7 (h1, hi, he) =
    let raw = encode instr op f3 f7 (info_j rd imm) in
    fields (omega (arith, bit_and_ones 5 (raw / 2 ^ 7)))
      (ap (λ (n : ℕ). sign_extend n 21) (imm_j-eq raw (omega arith) ∙ omega arith) ∙ hi)
  where
    fields : {a b : ℕ} → a ≡ rd → b ≡ imm → some (info_j a b) ≡ some (info_j rd imm)
    fields ea eb = rw (ea, eb) refl

decode_a :
    (op f3 f7 rs1 rs2 rd : ℕ) (rl aq : Bool) (instr : RiscvInstr)
    → op < 2 ^ 7
    → f3 < 8
    → f7 < 2 ^ 7
    → IsEncodable instr (info_a rs1 rs2 rd rl aq)
    → decode_info (encode instr op f3 f7 (info_a rs1 rs2 rd rl aq)) instr format_a
      ≡ some (info_a rs1 rs2 rd rl aq)
unfolding decode_info
decode_a op f3 f7 rs1 rs2 rd rl aq instr ho h3 h7 (h1, h2, hd) =
    let raw = encode instr op f3 f7 (info_a rs1 rs2 rd rl aq) in
    fields (omega (arith, bit_and_ones 5 (raw / 2 ^ 15), bit_of-le aq, bit_of-le rl))
      (omega (arith, bit_and_ones 5 (raw / 2 ^ 20), bit_of-le aq, bit_of-le rl))
      (omega (arith, bit_and_ones 5 (raw / 2 ^ 7), bit_of-le aq, bit_of-le rl))
      (flag_bit rl (omega (arith, bit_and_ones 1 (raw / 2 ^ 25), bit_of-le aq, bit_of-le rl)))
      (flag_bit aq (omega (arith, bit_and_ones 1 (raw / 2 ^ 26), bit_of-le aq, bit_of-le rl)))
  where
    bit_of-le : (b : Bool) → bit_of b ≤ 1
    bit_of-le true = omega arith
    bit_of-le false = omega arith

    flag_bit : {x : ℕ} (b : Bool) → x ≡ bit_of b → not (x == 0) ≡ b
    flag_bit true e = ground (arith, e)
    flag_bit false e = ground (arith, e)

    fields :
        {a b c : ℕ} {r q : Bool}
        → a ≡ rs1
        → b ≡ rs2
        → c ≡ rd
        → r ≡ rl
        → q ≡ aq
        → some (info_a a b c r q) ≡ some (info_a rs1 rs2 rd rl aq)
    fields ea eb ec er eq = rw (ea, eb, ec, er, eq) refl

-- Decoding an encoded instruction gives back its registers, flags and immediate, for the formats R,
-- I, S, B, U, J and A, whatever the opcode and the function codes, where each register is below 32
-- and the immediate is one that its format holds; for a right shift by a constant that is an amount
-- below 64, or below 32 for those of 32 bits, under a function code that is not zero.
pub decode_info-encode :
    (op f3 f7 : ℕ) (instr : RiscvInstr) (info : RvInstrInfo)
    → op < 2 ^ 7
    → f3 < 8
    → f7 < 2 ^ 7
    → IsEncodable instr info
    → decode_info (encode instr op f3 f7 info) instr (format_of info) ≡ some info
decode_info-encode op f3 f7 instr (info_r rs1 rs2 rd) ho h3 h7 h =
    decode_r op f3 f7 rs1 rs2 rd instr ho h3 h7 h
decode_info-encode op f3 f7 instr (info_i rs1 rd imm) ho h3 h7 h =
    decode_i op f3 f7 rs1 rd imm instr ho h3 h7 h
decode_info-encode op f3 f7 instr (info_s rs1 rs2 imm) ho h3 h7 h =
    decode_s op f3 f7 rs1 rs2 imm instr ho h3 h7 h
decode_info-encode op f3 f7 instr (info_b rs1 rs2 imm) ho h3 h7 h =
    decode_b op f3 f7 rs1 rs2 imm instr ho h3 h7 h
decode_info-encode op f3 f7 instr (info_u rd imm) ho h3 h7 h =
    decode_u op f3 f7 rd imm instr ho h3 h7 h
decode_info-encode op f3 f7 instr (info_j rd imm) ho h3 h7 h =
    decode_j op f3 f7 rd imm instr ho h3 h7 h
decode_info-encode op f3 f7 instr (info_a rs1 rs2 rd rl aq) ho h3 h7 h =
    decode_a op f3 f7 rs1 rs2 rd rl aq instr ho h3 h7 h
decode_info-encode op f3 f7 instr info ho h3 h7 h = absurd h
