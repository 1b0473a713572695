-- ===== src/Word/Laws.antt =====
-- What the helpers of src/utils.rs compute, as arithmetic and digit by digit.
use native.Mathlib.Nat.{pow-suc, one-le-pow, mod-eq_of_lt}
use mathlib.Core.Path.{ap₂}
use here.Base.{
  ap, arith, bit_and, bit_or, refl, suc, zero, ℕ, ◌%◌, ◌*◌, ◌+◌, ◌-◌, ◌/◌, ◌<◌, ◌==◌, ◌^◌, ◌∙◌, ◌≡◌,
  ◌≤◌,
}
use here.Bits.{bit_and_ones, bit_or_sum_left, pow-le}
use here.Word.{
  Width, bit_ones, byte, check_align, double, extract_range, half, shl, shr, size_of, word,
}

-- An access is aligned exactly when its address is a multiple of its size.
pub check_align-eq_mod : (t : Width) (a : ℕ) → check_align t a ≡ (a % size_of t == 0)
unfolding check_align
check_align-eq_mod byte a = ground (arith, bit_and_ones 0 a)
check_align-eq_mod half a = ground (arith, bit_and_ones 1 a)
check_align-eq_mod word a = ground (arith, bit_and_ones 2 a)
check_align-eq_mod double a = ground (arith, bit_and_ones 3 a)

shl_one : (n : ℕ) → n < 64 → shl 1 n ≡ 1 * 2 ^ n
shl_one n h = mod-eq_of_lt (omega (arith, pow-suc 2 n, one-le-pow n 2, pow-le (suc n) 64 h))

pub bit_ones-eq : (n : ℕ) → n ≤ 64 → bit_ones n ≡ 2 ^ n - 1
unfolding bit_ones
bit_ones-eq zero h = refl
bit_ones-eq (suc n) h =
    ap₂ bit_or (bit_ones-eq n (omega arith)) (shl_one n (omega arith))
    ∙ bit_or_sum_left n 1 (2 ^ n - 1) (omega (arith, one-le-pow n 2))
    ∙ omega (arith, pow-suc 2 n, one-le-pow n 2)

pub extract_range-eq :
    (x l r : ℕ) → l ≤ r → r < 64 → extract_range x l r ≡ x / 2 ^ l % 2 ^ (r - l + 1)
unfolding extract_range
extract_range-eq x l r h lt =
    ap (bit_and (shr x l)) (bit_ones-eq (r - l + 1) (omega arith))
    ∙ bit_and_ones (r - l + 1) (shr x l)
