-- ===== src/Bits/Masks.antt =====
-- `&` with a mask of low ones is a remainder, and `|` of fields that do not meet is a sum.
use Prim.Native.Nat.{bit_or-bitwise}
use native.Mathlib.Nat.{pow-suc, one-le-pow, mul-one}
use here.Base.{
  ℕ, zero, suc, ◌+◌, ◌-◌, ◌*◌, ◌/◌, ◌%◌, ◌^◌, ◌≤◌, ◌<◌, bit_and, bit_or, ◌≡◌, refl, ap, arith,
}
use here.Bits.Step.{bit_or_step, bit_and_step}

and-zero_fuel : (n a : ℕ) → a ≤ n → bit_and a 0 ≡ 0
and-zero_fuel n zero h = refl
and-zero_fuel zero (suc a) h = absurd (omega arith)
and-zero_fuel (suc n) (suc a) h =
    omega (arith, bit_and_step (suc a) 0, and-zero_fuel n (suc a / 2) (omega arith))

pub bit_and-zero : (a : ℕ) → bit_and a 0 ≡ 0
bit_and-zero a = and-zero_fuel a a (omega arith)

or-zero_fuel : (n a : ℕ) → a ≤ n → bit_or a 0 ≡ a
or-zero_fuel n zero h = refl
or-zero_fuel zero (suc a) h = absurd (omega arith)
or-zero_fuel (suc n) (suc a) h =
    omega (arith, bit_or_step (suc a) 0, or-zero_fuel n (suc a / 2) (omega arith))

pub bit_or-zero : (a : ℕ) → bit_or a 0 ≡ a
bit_or-zero a = or-zero_fuel a a (omega arith)

pub pow-le : (j n : ℕ) → j ≤ n → 2 ^ j ≤ 2 ^ n
pow-le zero n h = one-le-pow n 2 (omega arith)
pow-le (suc j) zero h = absurd (omega arith)
pow-le (suc j) (suc n) h = omega (arith, pow-suc 2 j, pow-suc 2 n, pow-le j n (omega arith))

pub pow-lt : (j n : ℕ) → j < n → 2 ^ j < 2 ^ n
pow-lt j n h = omega (arith, pow-suc 2 j, one-le-pow j 2, pow-le (suc j) n h)

pub doubled : (q k : ℕ) → q * 2 ^ suc k ≡ 2 * (q * 2 ^ k)
doubled q k = omega (arith, ap (λ (t : ℕ). q * t) (pow-suc 2 k))

pub bit_or_sum : (k q r : ℕ) → r < 2 ^ k → bit_or (q * 2 ^ k) r ≡ q * 2 ^ k + r
bit_or_sum zero q r h = ground (arith, bit_or-zero q)
bit_or_sum (suc k) q r h =
    ground (arith, doubled q k, bit_or_step (q * 2 ^ suc k) r, bit_or_sum k q (r / 2) (omega arith))

pub bit_or_sum_left : (k q r : ℕ) → r < 2 ^ k → bit_or r (q * 2 ^ k) ≡ r + q * 2 ^ k
bit_or_sum_left zero q zero h = simp bit_or-bitwise (omega arith)
bit_or_sum_left zero q (suc r) h = absurd (omega arith)
bit_or_sum_left (suc k) q r h =
    ground
      (arith, doubled q k, bit_or_step r (q * 2 ^ suc k), bit_or_sum_left k q (r / 2) (omega arith))

low_part : (k q r : ℕ) → r < 2 ^ k → bit_and (q * 2 ^ k + r) (2 ^ k - 1) ≡ r
low_part zero q r h = omega (arith, bit_and-zero (q * 2 ^ 0 + r))
low_part (suc k) q r h = ground (
  arith,
  doubled q k,
  pow-suc 2 k,
  bit_and_step (q * 2 ^ suc k + r) (2 ^ suc k - 1),
  low_part k q (r / 2) (omega arith),
)

pub bit_and_ones : (k a : ℕ) → bit_and a (2 ^ k - 1) ≡ a % 2 ^ k
bit_and_ones k a = ground (arith, one-le-pow k 2, low_part k (a / 2 ^ k) (a % 2 ^ k))

pub pow-sum : (a b : ℕ) → 2 ^ (a + b) ≡ 2 ^ b * 2 ^ a
pow-sum zero b = ground (arith, mul-one (2 ^ b))
pow-sum (suc a) b = ground (arith, doubled (2 ^ b) a, pow-sum a b, pow-suc 2 (a + b))
