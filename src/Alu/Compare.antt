-- ===== src/Alu/Compare.antt =====
-- src/isa/riscv/instruction/exec_function.rs, part "Compare".
use here.Base.{Bool, if◌then◌else◌, leb, ltb, max, min, not, ℕ, ◌==◌}
use here.Word.{Width}
use here.Alu.{as_signed_i128}
use here.Int.{lt_ℤ}

unfoldable pub exec_signed_less : Width → ℕ → ℕ → Bool
unfolding as_signed_i128
exec_signed_less t a b = lt_ℤ (as_signed_i128 t a) (as_signed_i128 t b)

-- The implementation of `ExecSignedLess` with a value for its result.
unfoldable pub exec_slt : Width → ℕ → ℕ → ℕ
unfolding exec_signed_less
exec_slt t a b = if exec_signed_less t a b then 1 else 0

unfoldable pub exec_unsigned_less : Width → ℕ → ℕ → Bool
exec_unsigned_less t a b = ltb a b

unfoldable pub exec_sltu : Width → ℕ → ℕ → ℕ
unfolding exec_unsigned_less
exec_sltu t a b = if exec_unsigned_less t a b then 1 else 0

unfoldable pub exec_equal : Width → ℕ → ℕ → Bool
exec_equal t a b = a == b

unfoldable pub exec_not_equal : Width → ℕ → ℕ → Bool
exec_not_equal t a b = not (a == b)

unfoldable pub exec_signed_great_equal : Width → ℕ → ℕ → Bool
unfolding as_signed_i128
exec_signed_great_equal t a b = not (lt_ℤ (as_signed_i128 t a) (as_signed_i128 t b))

unfoldable pub exec_unsigned_great_equal : Width → ℕ → ℕ → Bool
exec_unsigned_great_equal t a b = leb b a

unfoldable pub exec_max : Width → ℕ → ℕ → ℕ
unfolding as_signed_i128
exec_max t a b = if lt_ℤ (as_signed_i128 t b) (as_signed_i128 t a) then a else b

unfoldable pub exec_maxu : Width → ℕ → ℕ → ℕ
exec_maxu t a b = max a b

unfoldable pub exec_min : Width → ℕ → ℕ → ℕ
unfolding as_signed_i128
exec_min t a b = if lt_ℤ (as_signed_i128 t a) (as_signed_i128 t b) then a else b

unfoldable pub exec_minu : Width → ℕ → ℕ → ℕ
exec_minu t a b = min a b
