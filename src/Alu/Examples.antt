-- ===== src/Alu/Examples.antt =====
-- The integer operations at concrete operands.
use here.Base.{arith, refl, ◌*◌, ◌+◌, ◌^◌, ◌≡◌}
use here.Word.{byte, word}
use here.Alu.{
  as_signed_i128, exec_add, exec_div_signed, exec_mul_high_signed, exec_mul_low, exec_rem_signed,
}
use here.Alu.Division.{div-rem_signed}
use here.Alu.Product.{mul_high_signed-product, wide}
use here.Alu.Words32.{at_word, op_divw, run_word_op, word_ops-refine}
use here.Int.{◌*ℤ◌}

-- -128 / -1, which overflows, and 7 / 0.
overflowing_division : exec_div_signed byte 0x80 0xFF ≡ 0x80
unfolding exec_div_signed
overflowing_division = refl

division_by_zero : exec_div_signed byte 7 0 ≡ 0xFF
unfolding exec_div_signed
division_by_zero = refl

div-rem_signed_example :
    exec_add byte
      (exec_mul_low byte (exec_div_signed byte 0x80 0xFF) 0xFF)
      (exec_rem_signed byte 0x80 0xFF)
    ≡ 0x80
div-rem_signed_example = div-rem_signed byte 0x80 0xFF (omega arith) (omega arith)

mul_high_signed-product_example :
    exec_mul_high_signed byte 0x80 3 * 2 ^ 8 + exec_mul_low byte 0x80 3
    ≡ wide byte (as_signed_i128 byte 0x80 *ℤ as_signed_i128 byte 3)
mul_high_signed-product_example = mul_high_signed-product byte 0x80 3 (omega arith) (omega arith)

word_ops-refine_example :
    run_word_op op_divw 0x8000_0000 0xFFFF_FFFF_FFFF_FFFF
    ≡ at_word (exec_div_signed word) 0x8000_0000 0xFFFF_FFFF_FFFF_FFFF
word_ops-refine_example = word_ops-refine op_divw 0x8000_0000 0xFFFF_FFFF_FFFF_FFFF
