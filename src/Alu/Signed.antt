-- ===== src/Alu/Signed.antt =====
-- What the signed readings of src/utils.rs are, and that they respect products modulo the width.
use here.Base.{
  arith, if◌then◌else◌, ltb, refl, suc, zero, ℕ, ◌%◌, ◌*◌, ◌+◌, ◌-◌, ◌<◌, ◌^◌, ◌≡◌, ◌≤◌,
}
use here.Bits.{bit_and_field}
use here.Word.{Width, bits_of, byte, double, half, word}
use here.Alu.{as_signed_i128, from_signed_i128}
use here.Int.{neg_of, negsuc, pos}

pub as_signed_i128-eq :
    (t : Width) (v : ℕ)
    → v < 2 ^ bits_of t
    → as_signed_i128 t v
      ≡ (if ltb v (2 ^ (bits_of t - 1)) then pos v else negsuc (2 ^ bits_of t - 1 - v))
unfolding as_signed_i128
as_signed_i128-eq byte v h = ground (arith, bit_and_field 7 1 v)
as_signed_i128-eq half v h = ground (arith, bit_and_field 15 1 v)
as_signed_i128-eq word v h = ground (arith, bit_and_field 31 1 v)
as_signed_i128-eq double v h = ground (arith, bit_and_field 63 1 v)

pub from_signed_i128-as_signed_i128 :
    (t : Width) (v : ℕ) → v < 2 ^ bits_of t → from_signed_i128 t (as_signed_i128 t v) ≡ v
unfolding from_signed_i128
from_signed_i128-as_signed_i128 byte v h = ground (arith, as_signed_i128-eq byte v h)
from_signed_i128-as_signed_i128 half v h = ground (arith, as_signed_i128-eq half v h)
from_signed_i128-as_signed_i128 word v h = ground (arith, as_signed_i128-eq word v h)
from_signed_i128-as_signed_i128 double v h = ground (arith, as_signed_i128-eq double v h)

pub from_signed-neg_of :
    (t : Width) (x : ℕ)
    → from_signed_i128 t (neg_of x) ≡ (2 ^ bits_of t - x % 2 ^ bits_of t) % 2 ^ bits_of t
unfolding from_signed_i128
from_signed-neg_of byte zero = refl
from_signed-neg_of half zero = refl
from_signed-neg_of word zero = refl
from_signed-neg_of double zero = refl
from_signed-neg_of byte (suc x) = omega arith
from_signed-neg_of half (suc x) = omega arith
from_signed-neg_of word (suc x) = omega arith
from_signed-neg_of double (suc x) = omega arith

complement_mul : (m q b : ℕ) → q ≤ m → (m - q) * b + q * b ≡ m * b
complement_mul m q b h = grind arith

mul_complement : (m q b : ℕ) → b ≤ m → q * (m - b) + q * b ≡ q * m
mul_complement m q b h = grind arith
