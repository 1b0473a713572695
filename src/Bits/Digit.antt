-- ===== src/Bits/Digit.antt =====
-- `digit i x` is binary digit `i` of `x`; two numbers with the same digits are equal.
use Prim.Native.Nat.add
use native.Mathlib.Nat.{pow-suc, one-le-pow, div-one, mul-one, div-div-eq-div-mul}
use here.Base.{
  ℕ, zero, suc, ◌+◌, ◌-◌, ◌*◌, ◌/◌, ◌%◌, ◌^◌, ◌≤◌, ◌<◌, min, max, bit_and, bit_or, ◌≡◌, refl, sym,
  ap, ◌∙◌, arith, ltb, if◌then◌else◌,
}
use here.Bits.Step.{bit_or_step, bit_and_step}

unfoldable pub digit : ℕ → ℕ → ℕ
digit zero x = x % 2
digit (suc i) x = digit i (x / 2)

pub digit-le-one : (i x : ℕ) → digit i x ≤ 1
unfolding digit
digit-le-one zero x = omega arith
digit-le-one (suc i) x = digit-le-one i (x / 2)

pub digit_zero : (i : ℕ) → digit i 0 ≡ 0
unfolding digit
digit_zero zero = refl
digit_zero (suc i) = digit_zero i

pub digit-bit_and : (i a b : ℕ) → digit i (bit_and a b) ≡ min (digit i a) (digit i b)
unfolding digit
digit-bit_and zero a b = omega (arith, bit_and_step a b)
digit-bit_and (suc i) a b =
    ap (digit i) (omega (arith, bit_and_step a b)) ∙ digit-bit_and i (a / 2) (b / 2)

pub digit-bit_or : (i a b : ℕ) → digit i (bit_or a b) ≡ max (digit i a) (digit i b)
unfolding digit
digit-bit_or zero a b = omega (arith, bit_or_step a b)
digit-bit_or (suc i) a b =
    ap (digit i) (omega (arith, bit_or_step a b)) ∙ digit-bit_or i (a / 2) (b / 2)

-- The mask of `k` low ones.
pub digit_ones : (i k : ℕ) → digit i (2 ^ k - 1) ≡ (if ltb i k then 1 else 0)
unfolding digit
digit_ones i zero = digit_zero i ∙ ground arith
digit_ones zero (suc k) = ground (arith, pow-suc 2 k, one-le-pow k 2)
digit_ones (suc i) (suc k) =
    ap (digit i) (omega (arith, pow-suc 2 k, one-le-pow k 2)) ∙ digit_ones i k ∙ ground arith

-- The complement within `n` digits.
pub digit_not : (n i x : ℕ) → x < 2 ^ n → i < n → digit i (2 ^ n - 1 - x) ≡ 1 - digit i x
unfolding digit
digit_not zero i x h lt = absurd (omega arith)
digit_not (suc n) zero x h lt = omega (arith, pow-suc 2 n, one-le-pow n 2)
digit_not (suc n) (suc i) x h lt =
    ap (digit i) (omega (arith, pow-suc 2 n, one-le-pow n 2))
    ∙ digit_not n i (x / 2) (omega (arith, pow-suc 2 n)) (omega arith)

suc_add : (k i : ℕ) → suc (k + i) ≡ suc k + i
suc_add k i = omega arith

pub half_first : (x k : ℕ) → x / 2 ^ suc k ≡ x / 2 / 2 ^ k
half_first x k =
    ap (λ (t : ℕ). x / t) (omega (arith, pow-suc 2 k)) ∙ sym (div-div-eq-div-mul x 2 (2 ^ k))

-- A right shift moves the digits down.
pub digit_shr : (k i x : ℕ) → digit i (x / 2 ^ k) ≡ digit (k + i) x
unfolding digit
digit_shr zero i x = simp (div-one, add.zero)
digit_shr (suc k) i x =
    ap (digit i) (half_first x k) ∙ digit_shr k i (x / 2) ∙ ap (λ (t : ℕ). digit t x) (suc_add k i)

-- A left shift moves the digits up and brings in zeros.
pub digit_shl : (k i x : ℕ) → digit i (x * 2 ^ k) ≡ (if ltb i k then 0 else digit (i - k) x)
unfolding digit
digit_shl zero i x = ground (arith, ap (digit i) (mul-one x))
digit_shl (suc k) zero x = ground (arith, pow-suc 2 k, ap (λ (t : ℕ). x * t) (pow-suc 2 k))
digit_shl (suc k) (suc i) x =
    ap (digit i) (omega (arith, ap (λ (t : ℕ). x * t) (pow-suc 2 k)))
    ∙ digit_shl k i x
    ∙ ground arith

pub digit_ext :
    (n a b : ℕ) → a < 2 ^ n → b < 2 ^ n → ((i : ℕ) → i < n → digit i a ≡ digit i b) → a ≡ b
unfolding digit
digit_ext zero a b ha hb h = omega arith
digit_ext (suc n) a b ha hb h = omega (
  arith,
  h 0 (omega arith),
  digit_ext n (a / 2) (b / 2) (omega (arith, pow-suc 2 n)) (omega (arith, pow-suc 2 n))
      (λ i lt. h (suc i) (omega arith)),
)
