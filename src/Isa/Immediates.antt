-- ===== src/Isa/Immediates.antt =====
-- The immediates that src/isa/riscv/decoder/mod.rs reads are those that the instruction formats lay
-- out.
use mathlib.Core.Path.{ap₂}
use here.Base.{arith, bit_or, ℕ, ◌%◌, ◌*◌, ◌+◌, ◌/◌, ◌<◌, ◌^◌, ◌∙◌, ◌≡◌}
use here.Bits.{bit_and_ones, bit_or_sum}
use here.Isa.Decode.{imm_b, imm_j, imm_s}

pub imm_s-eq : (raw : ℕ) → raw < 2 ^ 32 → imm_s raw ≡ raw / 2 ^ 25 * 2 ^ 5 + raw / 2 ^ 7 % 2 ^ 5
unfolding imm_s
imm_s-eq raw h = ground (
  arith,
  bit_and_ones 8 (raw / 2 ^ 25),
  bit_and_ones 5 (raw / 2 ^ 7),
  bit_or_sum 5 (raw / 2 ^ 25) (raw / 2 ^ 7 % 2 ^ 5) (omega arith),
)

-- Or with bits below those that are set adds.
or_low : {x y : ℕ} (k q r : ℕ) → x ≡ q * 2 ^ k → y ≡ r → r < 2 ^ k → bit_or x y ≡ q * 2 ^ k + r
or_low k q r e f h = ap₂ bit_or e f ∙ bit_or_sum k q r h

pub imm_b-eq :
    (raw : ℕ)
    → raw < 2 ^ 32
    → imm_b raw
      ≡ raw / 2 ^ 31 * 2 ^ 12
        + raw / 2 ^ 7 % 2 * 2 ^ 11
        + raw / 2 ^ 25 % 2 ^ 6 * 2 ^ 5
        + raw / 2 ^ 8 % 2 ^ 4 * 2
unfolding imm_b
imm_b-eq raw h =
    or_low 5 (raw / 2 ^ 31 * 2 ^ 7 + raw / 2 ^ 7 % 2 * 2 ^ 6 + raw / 2 ^ 25 % 2 ^ 6)
      (raw / 2 ^ 8 % 2 ^ 4 * 2)
      (or_low 11 (raw / 2 ^ 31 * 2 + raw / 2 ^ 7 % 2) (raw / 2 ^ 25 % 2 ^ 6 * 2 ^ 5)
          (or_low 12 (raw / 2 ^ 31) (raw / 2 ^ 7 % 2 * 2 ^ 11)
              (omega (arith, bit_and_ones 1 (raw / 2 ^ 31)))
              (omega (arith, bit_and_ones 1 (raw / 2 ^ 7))) (omega arith)
            ∙ omega arith)
          (omega (arith, bit_and_ones 6 (raw / 2 ^ 25))) (omega arith)
        ∙ omega arith)
      (omega (arith, bit_and_ones 4 (raw / 2 ^ 8))) (omega arith)
    ∙ omega arith

pub imm_j-eq :
    (raw : ℕ)
    → raw < 2 ^ 32
    → imm_j raw
      ≡ raw / 2 ^ 31 * 2 ^ 20
        + raw / 2 ^ 12 % 2 ^ 8 * 2 ^ 12
        + raw / 2 ^ 20 % 2 * 2 ^ 11
        + raw / 2 ^ 21 % 2 ^ 10 * 2
unfolding imm_j
imm_j-eq raw h =
    or_low 11 (raw / 2 ^ 31 * 2 ^ 9 + raw / 2 ^ 12 % 2 ^ 8 * 2 + raw / 2 ^ 20 % 2)
      (raw / 2 ^ 21 % 2 ^ 10 * 2)
      (or_low 12 (raw / 2 ^ 31 * 2 ^ 8 + raw / 2 ^ 12 % 2 ^ 8) (raw / 2 ^ 20 % 2 * 2 ^ 11)
          (or_low 20 (raw / 2 ^ 31) (raw / 2 ^ 12 % 2 ^ 8 * 2 ^ 12)
              (omega (arith, bit_and_ones 1 (raw / 2 ^ 31)))
              (omega (arith, bit_and_ones 8 (raw / 2 ^ 12))) (omega arith)
            ∙ omega arith)
          (omega (arith, bit_and_ones 1 (raw / 2 ^ 20))) (omega arith)
        ∙ omega arith)
      (omega (arith, bit_and_ones 10 (raw / 2 ^ 21))) (omega arith)
    ∙ omega arith
