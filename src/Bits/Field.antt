-- ===== src/Bits/Field.antt =====
-- `&` with a mask of ones that starts above the lowest digit is a field, left in its place.
use native.Mathlib.Nat.{mul-one}
use here.Base.{ap, arith, bit_and, suc, zero, ℕ, ◌%◌, ◌*◌, ◌-◌, ◌/◌, ◌^◌, ◌≡◌}
use here.Bits.Digit.{half_first}
use here.Bits.Masks.{bit_and_ones, doubled}
use here.Bits.Step.{bit_and_step}

pub bit_and_field : (s k b : ℕ) → bit_and b ((2 ^ k - 1) * 2 ^ s) ≡ b / 2 ^ s % 2 ^ k * 2 ^ s
bit_and_field zero k b = ground (arith, bit_and_ones k b, ap (bit_and b) (mul-one (2 ^ k - 1)))
bit_and_field (suc s) k b = omega (
  arith,
  bit_and_step b ((2 ^ k - 1) * 2 ^ suc s),
  doubled (2 ^ k - 1) s,
  ap (λ (t : ℕ). bit_and (b / 2) t) (halved (2 ^ k - 1) s),
  bit_and_field s k (b / 2),
  doubled (b / 2 / 2 ^ s % 2 ^ k) s,
  ap (λ (t : ℕ). t % 2 ^ k * 2 ^ suc s) (half_first b s),
)
  where
    halved : (q s : ℕ) → q * 2 ^ suc s / 2 ≡ q * 2 ^ s
    halved q s = omega (arith, doubled q s)
