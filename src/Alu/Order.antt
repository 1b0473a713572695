-- ===== src/Alu/Order.antt =====
-- The comparisons of src/isa/riscv/instruction/exec_function.rs.
use here.Base.{arith, ltb, ℕ, ◌%◌, ◌+◌, ◌-◌, ◌<◌, ◌^◌, ◌≡◌}
use here.Word.{Width, bits_of, byte, double, half, word}
use here.Alu.Compare.{exec_signed_less}
use here.Alu.Signed.{as_signed_i128-eq}

-- A signed comparison is the unsigned one after the sign bits are inverted.
pub signed_less-biased :
    (t : Width) (a b : ℕ)
    → a < 2 ^ bits_of t
    → b < 2 ^ bits_of t
    → exec_signed_less t a b
      ≡ ltb ((a + 2 ^ (bits_of t - 1)) % 2 ^ bits_of t) ((b + 2 ^ (bits_of t - 1)) % 2 ^ bits_of t)
unfolding exec_signed_less
signed_less-biased byte a b ha hb =
    ground (arith, as_signed_i128-eq byte a ha, as_signed_i128-eq byte b hb)
signed_less-biased half a b ha hb =
    ground (arith, as_signed_i128-eq half a ha, as_signed_i128-eq half b hb)
signed_less-biased word a b ha hb =
    ground (arith, as_signed_i128-eq word a ha, as_signed_i128-eq word b hb)
signed_less-biased double a b ha hb =
    ground (arith, as_signed_i128-eq double a ha, as_signed_i128-eq double b hb)
