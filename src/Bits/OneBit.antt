-- ===== src/Bits/OneBit.antt =====
-- Masks of a single bit.
use native.Mathlib.Nat.{pow-suc}
use here.Base.{
  ℕ, zero, suc, ◌-◌, ◌*◌, ◌/◌, ◌^◌, bit_and, ◌≡◌, refl, ap, ◌∙◌, arith, ◌==◌, if◌then◌else◌,
}
use here.Bits.Step.{bit_and_step}
use here.Bits.Masks.{bit_and-zero}
use here.Bits.Digit.{digit, digit_zero, digit_shl}

digit_of_one : (i : ℕ) → digit i 1 ≡ (if i == 0 then 1 else 0)
unfolding digit
digit_of_one zero = refl
digit_of_one (suc i) = digit_zero i ∙ ground arith

pub digit_one_bit : (i k : ℕ) → digit i (1 * 2 ^ k) ≡ (if i == k then 1 else 0)
digit_one_bit i k = ground (arith, digit_shl k i 1, digit_of_one (i - k))

-- Testing by a mask of one bit reads that digit.
pub test_bit : (k w : ℕ) → bit_and w (1 * 2 ^ k) ≡ digit k w * 2 ^ k
unfolding digit
test_bit zero w = omega (arith, bit_and_step w 1, bit_and-zero (w / 2))
test_bit (suc k) w = ground (
  arith,
  bit_and_step w (1 * 2 ^ suc k),
  pow-suc 2 k,
  test_bit k (w / 2),
  ap (λ (t : ℕ). digit k (w / 2) * t) (pow-suc 2 k),
)
