-- ===== src/Bits/Step.antt =====
-- The lowest digit of `bit_and` and `bit_or`, and what is above it. The natives stand for a
-- recursion on digits whose fuel is the first operand; more fuel makes no difference.
use Prim.Native.Nat.{digits, bitwise, bit_and-bitwise, bit_or-bitwise}
use here.Base.{
  ap, arith, bit_and, bit_or, max, min, refl, suc, zero, ◌%◌, ◌*◌, ◌+◌, ◌-◌, ◌/◌, ◌∙◌, ◌≡◌, ◌≤◌, ℕ,
}

module _ (rest : ℕ → ℕ) (op : ℕ → ℕ → ℕ) where
  settled :
      (fuel x : ℕ) (y : ℕ) → x ≤ fuel → digits rest op (suc fuel) x y ≡ digits rest op fuel x y
  settled zero zero y h = refl
  settled (suc fuel) zero y h = refl
  settled zero (suc x) y h = absurd (omega arith)
  settled (suc fuel) (suc x) y h =
      ap (λ (t : ℕ). t * 2 + op (suc x % 2) (y % 2))
        (settled fuel (suc x / 2) (y / 2) (omega arith))

  spare_fuel : (k x y : ℕ) → digits rest op (k + x) x y ≡ bitwise rest op x y
  spare_fuel zero x y = ap (λ (t : ℕ). digits rest op t x y) (zero_plus x)
    where
      zero_plus : (x : ℕ) → 0 + x ≡ x
      zero_plus x = omega arith
  spare_fuel (suc k) x y =
      ap (λ (t : ℕ). digits rest op t x y) (suc_plus k x)
      ∙ settled (k + x) x y (omega arith)
      ∙ spare_fuel k x y
    where
      suc_plus : (k x : ℕ) → suc k + x ≡ suc (k + x)
      suc_plus k x = omega arith

  next_digit :
      (x y : ℕ)
      → bitwise rest op (suc x) y ≡ bitwise rest op (suc x / 2) (y / 2) * 2 + op (suc x % 2) (y % 2)
  next_digit x y =
      ap (λ (t : ℕ). t * 2 + op (suc x % 2) (y % 2))
        (ap (λ (t : ℕ). digits rest op t (suc x / 2) (y / 2)) (split x)
          ∙ spare_fuel (x - suc x / 2) (suc x / 2) (y / 2))
    where
      split : (x : ℕ) → x ≡ x - suc x / 2 + suc x / 2
      split x = omega arith

pub bit_and_step : (x y : ℕ) → bit_and x y ≡ bit_and (x / 2) (y / 2) * 2 + min (x % 2) (y % 2)
bit_and_step zero y = bit_and-bitwise 0 y ∙ omega (arith, bit_and-bitwise 0 (y / 2))
bit_and_step (suc x) y = simp bit_and-bitwise (next_digit (λ _. 0) min x y)

pub bit_or_step : (x y : ℕ) → bit_or x y ≡ bit_or (x / 2) (y / 2) * 2 + max (x % 2) (y % 2)
bit_or_step zero y = bit_or-bitwise 0 y ∙ omega (arith, bit_or-bitwise 0 (y / 2))
bit_or_step (suc x) y = simp bit_or-bitwise (next_digit (λ t. t) max x y)
