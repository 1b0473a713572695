-- ===== src/Plic/BitReg/Laws.antt =====
-- The bit operations act on one source and leave the others.

use native.Mathlib.Nat.{one-le-pow}
use here.Base.{
  arith, bit_and, false, if◌then◌else◌, refl, true, update, ℕ, ◌%◌, ◌*◌, ◌/◌, ◌==◌, ◌^◌, ◌≡◌,
}
use here.Bits.{
  digit, digit-bit_and, digit-bit_or, digit-le-one, digit_not, digit_one_bit, digit_zero, pow-lt,
  test_bit,
}
use here.Plic.BitReg.{
  PlicBitReg, clear_bit, get_bit, new, not_word, set_bit, source_zero_bit_mask,
  source_zero_word_index, take_bit, write_word,
}

pub get_bit-eq : (r : PlicBitReg) (i : ℕ) → get_bit r i ≡ (digit (i % 32) (r.bits (i / 32)) == 1)
unfolding get_bit
get_bit-eq r i = ground (
  arith,
  test_bit (i % 32) (r.bits (i / 32)),
  digit-le-one (i % 32) (r.bits (i / 32)),
  one-le-pow (i % 32) 2,
)

pub get_bit-set_bit :
    (r : PlicBitReg) (i j : ℕ) → get_bit (set_bit r i) j ≡ (if i == j then true else get_bit r j)
unfolding set_bit
get_bit-set_bit r i j = ground (
  arith,
  get_bit-eq r j,
  get_bit-eq (set_bit r i) j,
  digit-bit_or (j % 32) (r.bits (i / 32)) (1 * 2 ^ (i % 32)),
  digit_one_bit (j % 32) (i % 32),
  digit-le-one (j % 32) (r.bits (i / 32)),
)

pub get_bit-clear_bit :
    (r : PlicBitReg) (i j : ℕ) → get_bit (clear_bit r i) j ≡ (if i == j then false else get_bit r j)
unfolding clear_bit
get_bit-clear_bit r i j = ground (
  arith,
  get_bit-eq r j,
  get_bit-eq (clear_bit r i) j,
  digit-bit_and (j % 32) (r.bits (i / 32)) (not_word (1 * 2 ^ (i % 32))),
  digit_not 32 (j % 32) (1 * 2 ^ (i % 32)) (omega (arith, pow-lt (i % 32) 32)) (omega arith),
  digit_one_bit (j % 32) (i % 32),
  digit-le-one (j % 32) (r.bits (i / 32)),
)

pub take_bit-eq : (r : PlicBitReg) (i : ℕ) → take_bit r i ≡ (clear_bit r i, get_bit r i)
unfolding take_bit clear_bit get_bit
take_bit-eq r i = refl

pub get_bit-new : (i : ℕ) → get_bit new i ≡ false
unfolding get_bit new
get_bit-new i = ground (arith, get_bit-eq new i, digit_zero (i % 32))

-- Writing a word with the bit of source 0 masked off leaves source 0 clear.
pub get_bit-write_word_zero :
    (r : PlicBitReg) (index value : ℕ)
    → get_bit r 0 ≡ false
    → get_bit
        (write_word r index (
          if index == source_zero_word_index
          then bit_and value (not_word source_zero_bit_mask)
          else value))
        0
      ≡ false
unfolding write_word
get_bit-write_word_zero r index value h = ground (
  arith,
  get_bit-eq r 0,
  get_bit-eq
      (record {
        bits =
            update r.bits index
              (if index == 0 then bit_and value (not_word (1 * 2 ^ 0)) else value);
      })
      0,
  digit-bit_and 0 value (not_word (1 * 2 ^ 0)),
  digit_not 32 0 (1 * 2 ^ 0) (omega arith) (omega arith),
  digit_one_bit 0 0,
)
