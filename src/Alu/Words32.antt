-- ===== src/Alu/Words32.antt =====
-- The 32-bit instructions of src/isa/riscv/instruction/exec_function.rs against the same operations
-- at the width of 32 bits.
use native.Mathlib.Nat.{div-le_self, mod-le}
use mathlib.Core.Path.{ap₂}
use here.Base.{
  Bool-cases, ap, arith, bit_and, inl, inr, refl, ℕ, ◌%◌, ◌*◌, ◌+◌, ◌-◌, ◌/◌, ◌<◌, ◌==◌, ◌^◌, ◌∙◌,
  ◌≡◌,
}
use here.Word.{double, sign_extend, truncate_to, word}
use here.Alu.{
  as_signed_i128, exec_add, exec_div_signed, exec_div_unsigned, exec_mul_low, exec_rem_signed,
  exec_rem_unsigned, exec_sext, exec_sll, exec_sra, exec_srl, exec_sub, from_signed_i128, max_of,
  shift_amount,
}
use here.Alu.Signed.{as_signed_i128-eq}
use here.Alu.Words.{
  as_i32, exec_addw, exec_divuw, exec_divw, exec_mulw, exec_remuw, exec_remw, exec_sllw, exec_sraw,
  exec_srlw, exec_subw, sign_extend_u32,
}
use here.Int.{negsuc, pos, shr_ℤ, wrapping_div, wrapping_rem, ℤ}

-- A 32-bit operation applied to the low words, with its result sign extended.
abbrev pub at_word : (ℕ → ℕ → ℕ) → ℕ → ℕ → ℕ
at_word f a b = exec_sext double word (f (truncate_to word a) (truncate_to word b))

sign_extend_u32-sext : (v : ℕ) → v < 2 ^ 32 → sign_extend_u32 v ≡ exec_sext double word v
unfolding sign_extend_u32 sign_extend exec_sext from_signed_i128
sign_extend_u32-sext v h = ground (arith, as_signed_i128-eq word v h)

as_i32-eq : (v : ℕ) → v < 2 ^ 32 → as_i32 v ≡ as_signed_i128 word v
as_i32-eq v h = ground (arith, as_signed_i128-eq word v h)

extended : (v w : ℕ) → v < 2 ^ 32 → v ≡ w → sign_extend_u32 v ≡ exec_sext double word w
extended v w h e = sign_extend_u32-sext v h ∙ ap (exec_sext double word) e

div_low : (a b : ℕ) → a < 2 ^ 32 → a / b < 2 ^ 32
div_low a b h = omega (arith, div-le_self a b)

mod_low : (a b : ℕ) → a < 2 ^ 32 → a % b < 2 ^ 32
mod_low a b h = omega (arith, mod-le a b)

from_signed-lt : (x : ℤ) → from_signed_i128 word x < 2 ^ 32
unfolding from_signed_i128
from_signed-lt (pos n) = omega arith
from_signed-lt (negsuc n) = omega arith

sum_words :
    (a b : ℕ)
    → (exec_addw a b ≡ at_word (exec_add word) a b)
      × (exec_subw a b ≡ at_word (exec_sub word) a b)
      × (exec_mulw a b ≡ at_word (exec_mul_low word) a b)
unfolding exec_addw exec_subw exec_mulw exec_add exec_sub exec_mul_low
sum_words a b = (
  sign_extend_u32-sext ((a % 2 ^ 32 + b % 2 ^ 32) % 2 ^ 32) (omega arith),
  sign_extend_u32-sext ((a % 2 ^ 32 + 2 ^ 32 - b % 2 ^ 32) % 2 ^ 32) (omega arith),
  sign_extend_u32-sext (a % 2 ^ 32 * (b % 2 ^ 32) % 2 ^ 32) (omega arith),
)

signed_word :
    (op : ℤ → ℤ → ℤ) (a b : ℕ)
    → a < 2 ^ 32
    → b < 2 ^ 32
    → sign_extend_u32 (from_signed_i128 word (op (as_i32 a) (as_i32 b)))
      ≡ exec_sext double word
          (from_signed_i128 word (op (as_signed_i128 word a) (as_signed_i128 word b)))
signed_word op a b ha hb =
    extended (from_signed_i128 word (op (as_i32 a) (as_i32 b)))
      (from_signed_i128 word (op (as_signed_i128 word a) (as_signed_i128 word b)))
      (from_signed-lt (op (as_i32 a) (as_i32 b)))
      (ap₂ (λ x y. from_signed_i128 word (op x y)) (as_i32-eq a ha) (as_i32-eq b hb))

all_ones_word : 2 ^ 64 - 1 ≡ exec_sext double word (max_of word)
unfolding exec_sext as_signed_i128 from_signed_i128
all_ones_word = refl

div_words :
    (a b : ℕ)
    → (exec_divw a b ≡ at_word (exec_div_signed word) a b)
      × (exec_divuw a b ≡ at_word (exec_div_unsigned word) a b)
unfolding exec_divw exec_divuw exec_div_signed exec_div_unsigned
div_words a b = elim (Bool-cases (b % 2 ^ 32 == 0)) [
  | inl e ↦ (simp e all_ones_word, simp e all_ones_word)
  | inr e ↦ (
    simp e (signed_word wrapping_div (a % 2 ^ 32) (b % 2 ^ 32) (omega arith) (omega arith)),
    simp e (
        sign_extend_u32-sext (a % 2 ^ 32 / (b % 2 ^ 32))
          (div_low (a % 2 ^ 32) (b % 2 ^ 32) (omega arith))),
  )
]

rem_words :
    (a b : ℕ)
    → (exec_remw a b ≡ at_word (exec_rem_signed word) a b)
      × (exec_remuw a b ≡ at_word (exec_rem_unsigned word) a b)
unfolding exec_remw exec_remuw exec_rem_signed exec_rem_unsigned
rem_words a b = elim (Bool-cases (b % 2 ^ 32 == 0)) [
  | inl e ↦ (
    simp e (sign_extend_u32-sext (a % 2 ^ 32) (omega arith)),
    simp e (sign_extend_u32-sext (a % 2 ^ 32) (omega arith)),
  )
  | inr e ↦ (
    simp e (signed_word wrapping_rem (a % 2 ^ 32) (b % 2 ^ 32) (omega arith) (omega arith)),
    simp e (
        sign_extend_u32-sext (a % 2 ^ 32 % (b % 2 ^ 32))
          (mod_low (a % 2 ^ 32) (b % 2 ^ 32) (omega arith))),
  )
]

shift_word : (b : ℕ) → bit_and (b % 2 ^ 32) 0x1F ≡ shift_amount word (truncate_to word b)
unfolding shift_amount
shift_word b = ap (λ (s : ℕ). bit_and s 0x1F) (omega arith)

shift_words :
    (a b : ℕ)
    → (exec_sllw a b ≡ at_word (exec_sll word) a b)
      × (exec_srlw a b ≡ at_word (exec_srl word) a b)
      × (exec_sraw a b ≡ at_word (exec_sra word) a b)
unfolding exec_sllw exec_srlw exec_sraw exec_sll exec_srl exec_sra
shift_words a b = (
  extended (a % 2 ^ 32 * 2 ^ bit_and (b % 2 ^ 32) 0x1F % 2 ^ 32)
      (a % 2 ^ 32 * 2 ^ shift_amount word (b % 2 ^ 32) % 2 ^ 32) (omega arith)
      (ap (λ (k : ℕ). a % 2 ^ 32 * 2 ^ k % 2 ^ 32) (shift_word b)),
  extended (a % 2 ^ 32 / 2 ^ bit_and (b % 2 ^ 32) 0x1F)
      (a % 2 ^ 32 / 2 ^ shift_amount word (b % 2 ^ 32))
      (div_low (a % 2 ^ 32) (2 ^ bit_and (b % 2 ^ 32) 0x1F) (omega arith))
      (ap (λ (k : ℕ). a % 2 ^ 32 / 2 ^ k) (shift_word b)),
  extended
      (from_signed_i128 word (shr_ℤ (as_signed_i128 word (a % 2 ^ 32)) (bit_and (b % 2 ^ 32) 0x1F)))
      (from_signed_i128 word
        (shr_ℤ (as_signed_i128 word (a % 2 ^ 32)) (shift_amount word (b % 2 ^ 32))))
      (from_signed-lt (shr_ℤ (as_signed_i128 word (a % 2 ^ 32)) (bit_and (b % 2 ^ 32) 0x1F)))
      (ap (λ (k : ℕ). from_signed_i128 word (shr_ℤ (as_signed_i128 word (a % 2 ^ 32)) k))
        (shift_word b)),
)

-- The instructions on 32 bits, each with the operation that it should be on words of that width.
pub data WordOp : Type 0 where
  op_addw op_subw op_mulw op_divw op_divuw op_remw op_remuw op_sllw op_srlw op_sraw : WordOp

abbrev pub run_word_op : WordOp → ℕ → ℕ → ℕ
run_word_op op_addw = exec_addw
run_word_op op_subw = exec_subw
run_word_op op_mulw = exec_mulw
run_word_op op_divw = exec_divw
run_word_op op_divuw = exec_divuw
run_word_op op_remw = exec_remw
run_word_op op_remuw = exec_remuw
run_word_op op_sllw = exec_sllw
run_word_op op_srlw = exec_srlw
run_word_op op_sraw = exec_sraw

abbrev pub meaning : WordOp → ℕ → ℕ → ℕ
meaning op_addw = exec_add word
meaning op_subw = exec_sub word
meaning op_mulw = exec_mul_low word
meaning op_divw = exec_div_signed word
meaning op_divuw = exec_div_unsigned word
meaning op_remw = exec_rem_signed word
meaning op_remuw = exec_rem_unsigned word
meaning op_sllw = exec_sll word
meaning op_srlw = exec_srl word
meaning op_sraw = exec_sra word

-- Each of the ten instructions on 32 bits is the operation of the same name at the width of 32
-- bits, on the low words, with its result sign extended: division by zero and overflow included.
pub word_ops-refine : (op : WordOp) (a b : ℕ) → run_word_op op a b ≡ at_word (meaning op) a b
word_ops-refine op_addw a b = (sum_words a b).0
word_ops-refine op_subw a b = (sum_words a b).1
word_ops-refine op_mulw a b = (sum_words a b).2
word_ops-refine op_divw a b = (div_words a b).0
word_ops-refine op_divuw a b = (div_words a b).1
word_ops-refine op_remw a b = (rem_words a b).0
word_ops-refine op_remuw a b = (rem_words a b).1
word_ops-refine op_sllw a b = (shift_words a b).0
word_ops-refine op_srlw a b = (shift_words a b).1
word_ops-refine op_sraw a b = (shift_words a b).2
