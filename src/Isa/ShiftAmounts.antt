-- ===== src/Isa/ShiftAmounts.antt =====
-- The amounts of the right shifts by a constant, which src/isa/riscv/decoder/mod.rs masks.
use mathlib.Core.Option.{some-injective}
use here.Base.{
  ==_iff, Bool-cases, Option, ap, arith, bit_and, inl, inr, none, refl, some, subst, sym, ℕ, ◌%◌,
  ◌-◌, ◌<◌, ◌==◌, ◌^◌, ◌∙◌, ◌≡◌, ◌≤◌,
}
use here.Bits.{bit_and_ones}
use here.Word.{sign_extend}
use here.Isa.Decode.{mask_shift}
use here.Isa.Formats.{IsImmediate, shift_width, upper_i}
use here.Isa.Instr.{RiscvInstr}

mask_shift-kept :
    (instr : RiscvInstr) (imm : ℕ) → shift_width instr ≡ none → mask_shift instr imm ≡ imm
unfolding mask_shift
mask_shift-kept RiscvInstr.srli imm e = absurd (cc e)
mask_shift-kept RiscvInstr.srai imm e = absurd (cc e)
mask_shift-kept RiscvInstr.srliw imm e = absurd (cc e)
mask_shift-kept RiscvInstr.sraiw imm e = absurd (cc e)
mask_shift-kept instr imm e = refl

amount :
    (k w x : ℕ)
    → some k ≡ some w
    → k ≤ 6
    → 5 ≤ k
    → (w ≤ 6) × (5 ≤ w) × (bit_and x (2 ^ k - 1) ≡ x % 2 ^ w)
amount k w x e le ge =
    subst (λ j. (j ≤ 6) × (5 ≤ j) × (bit_and x (2 ^ k - 1) ≡ x % 2 ^ j)) (some-injective k w e)
      (le, ge, bit_and_ones k x)

-- The mask of a right shift leaves the low bits of its amount.
mask_shift-amount :
    (instr : RiscvInstr) (w x : ℕ)
    → shift_width instr ≡ some w
    → (w ≤ 6) × (5 ≤ w) × (mask_shift instr x ≡ x % 2 ^ w)
unfolding mask_shift
mask_shift-amount RiscvInstr.srli w x e = amount 6 w x e (omega arith) (omega arith)
mask_shift-amount RiscvInstr.srai w x e = amount 6 w x e (omega arith) (omega arith)
mask_shift-amount RiscvInstr.srliw w x e = amount 5 w x e (omega arith) (omega arith)
mask_shift-amount RiscvInstr.sraiw w x e = amount 5 w x e (omega arith) (omega arith)
mask_shift-amount instr w x e = absurd (cc e)

-- An amount is below the sign bit, and is its own extension.
sign_extend-amount : (imm : ℕ) → imm < 2 ^ 6 → sign_extend imm 12 ≡ imm
unfolding sign_extend
sign_extend-amount imm h = ground arith

-- The upper bits hold an amount of `w` bits in their low bits.
abbrev HoldsAmount : ℕ → Type 0
HoldsAmount w =
    (f7 imm : ℕ)
    → f7 < 2 ^ 7
    → imm < 2 ^ w
    → (upper_i (some w) f7 imm < 2 ^ 12) × (upper_i (some w) f7 imm % 2 ^ w ≡ imm) × (imm < 2 ^ 6)

five_bits : HoldsAmount 5
five_bits f7 imm h hi = (omega arith, omega arith, omega arith)

six_bits : HoldsAmount 6
six_bits f7 imm h hi = (omega arith, omega arith, omega arith)

amount_bits : (w : ℕ) → 5 ≤ w → w ≤ 6 → HoldsAmount w
amount_bits w ge le = elim (Bool-cases (w == 5)) [
  | inl e ↦ subst HoldsAmount (sym ((==_iff w 5).0 e)) five_bits
  | inr e ↦ let six : w ≡ 6 = ground (arith, e) in subst HoldsAmount (sym six) six_bits
]

-- The field of the format I gives back the immediate.
pub upper_i-read :
    (instr : RiscvInstr) (o : Option ℕ) (f7 imm : ℕ)
    → shift_width instr ≡ o
    → f7 < 2 ^ 7
    → IsImmediate o imm
    → (upper_i o f7 imm < 2 ^ 12) × (sign_extend (mask_shift instr (upper_i o f7 imm)) 12 ≡ imm)
upper_i-read instr none f7 imm e h7 hi =
    (omega arith, ap (λ (n : ℕ). sign_extend n 12) (mask_shift-kept instr (imm % 2 ^ 12) e) ∙ hi)
upper_i-read instr (some w) f7 imm e h7 hi =
    let (le, ge, masked) = mask_shift-amount instr w (upper_i (some w) f7 imm) e in
    let (lt, low, small) = amount_bits w ge le f7 imm h7 hi in
    (lt, ap (λ (n : ℕ). sign_extend n 12) (masked ∙ low) ∙ sign_extend-amount imm small)
