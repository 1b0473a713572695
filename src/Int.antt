-- ===== src/Int.antt =====
-- The i128 arithmetic that src/isa/riscv/instruction/exec_function.rs computes with: integers over
-- the native numbers. No operation here leaves the range of an i128 on operands of 64 bits.
use here.Base.{Bool, false, if◌then◌else◌, leb, ltb, suc, true, zero, ℕ, ◌%◌, ◌*◌, ◌-◌, ◌/◌, ◌^◌}

pub data ℤ : Type 0 where
  pos negsuc : ℕ → ℤ

abbrev pub nat_abs : ℤ → ℕ
nat_abs (pos n) = n
nat_abs (negsuc n) = suc n

-- The integer `- n`
abbrev pub neg_of : ℕ → ℤ
neg_of zero = pos 0
neg_of (suc n) = negsuc n

-- `a as i128 - b as i128`
abbrev pub sub_ℕ : ℕ → ℕ → ℤ
sub_ℕ a b = if leb b a then pos (a - b) else negsuc (b - a - 1)

infixl 70 ◌*ℤ◌
abbrev pub ◌*ℤ◌ : ℤ → ℤ → ℤ
pos m *ℤ pos n = pos (m * n)
pos m *ℤ negsuc n = neg_of (m * suc n)
negsuc m *ℤ pos n = neg_of (suc m * n)
negsuc m *ℤ negsuc n = pos (suc m * suc n)

-- `wrapping_div`, which rounds towards zero
abbrev pub wrapping_div : ℤ → ℤ → ℤ
wrapping_div (pos m) (pos n) = pos (m / n)
wrapping_div (pos m) (negsuc n) = neg_of (m / suc n)
wrapping_div (negsuc m) (pos n) = neg_of (suc m / n)
wrapping_div (negsuc m) (negsuc n) = pos (suc m / suc n)

-- `wrapping_rem`, whose sign is the dividend's
abbrev pub wrapping_rem : ℤ → ℤ → ℤ
wrapping_rem (pos m) b = pos (m % nat_abs b)
wrapping_rem (negsuc m) b = neg_of (suc m % nat_abs b)

-- `>>` on an i128, which rounds down
abbrev pub shr_ℤ : ℤ → ℕ → ℤ
shr_ℤ (pos m) k = pos (m / 2 ^ k)
shr_ℤ (negsuc m) k = negsuc (m / 2 ^ k)

abbrev pub lt_ℤ : ℤ → ℤ → Bool
lt_ℤ (pos m) (pos n) = ltb m n
lt_ℤ (pos m) (negsuc n) = false
lt_ℤ (negsuc m) (pos n) = true
lt_ℤ (negsuc m) (negsuc n) = ltb n m
