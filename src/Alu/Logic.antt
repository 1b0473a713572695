-- ===== src/Alu/Logic.antt =====
-- src/isa/riscv/instruction/exec_function.rs: the bitwise operations, on values below `2 ^ bits`.
use here.Base.{bit_and, bit_or, bit_xor, ℕ, ◌-◌}
use here.Word.{Width}
use here.Alu.{max_of}

abbrev pub not_of : Width → ℕ → ℕ
not_of t x = max_of t - x

unfoldable pub exec_and : Width → ℕ → ℕ → ℕ
exec_and t a b = bit_and a b

unfoldable pub exec_nand : Width → ℕ → ℕ → ℕ
exec_nand t a b = not_of t (bit_and a b)

unfoldable pub exec_andn : Width → ℕ → ℕ → ℕ
exec_andn t a b = bit_and a (not_of t b)

unfoldable pub exec_or : Width → ℕ → ℕ → ℕ
exec_or t a b = bit_or a b

unfoldable pub exec_nor : Width → ℕ → ℕ → ℕ
exec_nor t a b = not_of t (bit_or a b)

unfoldable pub exec_orn : Width → ℕ → ℕ → ℕ
exec_orn t a b = bit_or a (not_of t b)

unfoldable pub exec_xor : Width → ℕ → ℕ → ℕ
exec_xor t a b = bit_xor a b

unfoldable pub exec_xnor : Width → ℕ → ℕ → ℕ
exec_xnor t a b = not_of t (bit_xor a b)
