-- ===== src/Alu/Product.antt =====
-- The multiplications of src/isa/riscv/instruction/exec_function.rs as halves of one product.
use native.Mathlib.Nat.{add-mul-mod_self_right}
use here.Base.{ap, arith, inl, inr, refl, suc, sym, ℕ, ◌%◌, ◌*◌, ◌+◌, ◌-◌, ◌<◌, ◌^◌, ◌∙◌, ◌≡◌}
use here.Word.{Width, bits_of, byte, double, half, word}
use here.Alu.{
  as_signed_i128, exec_mul_high_signed, exec_mul_high_signed_unsigned, exec_mul_low,
  from_signed_i128,
}
use here.Alu.Division.{sign-cases}
use here.Alu.Signed.{from_signed-neg_of}
use here.Int.{negsuc, pos, shr_ℤ, ℤ, ◌*ℤ◌}

-- The residue of an integer modulo `2 ^ (2 * bits)`, the type of twice the width.
abbrev pub wide : Width → ℤ → ℕ
wide t (pos n) = n % (2 ^ bits_of t * 2 ^ bits_of t)
wide t (negsuc n) = 2 ^ bits_of t * 2 ^ bits_of t - 1 - n % (2 ^ bits_of t * 2 ^ bits_of t)

halves :
    (t : Width) (p : ℤ)
    → from_signed_i128 t (shr_ℤ p (bits_of t)) * 2 ^ bits_of t + from_signed_i128 t p ≡ wide t p
unfolding from_signed_i128
halves byte (pos n) = omega arith
halves half (pos n) = omega arith
halves word (pos n) = omega arith
halves double (pos n) = omega arith
halves byte (negsuc n) = omega arith
halves half (negsuc n) = omega arith
halves word (negsuc n) = omega arith
halves double (negsuc n) = omega arith

same_mod : (m x y k l : ℕ) → x + l * m ≡ y + k * m → x % m ≡ y % m
same_mod m x y k l e =
    sym (add-mul-mod_self_right x l m) ∙ ap (λ (t : ℕ). t % m) e ∙ add-mul-mod_self_right y k m

negated :
    (t : Width) (x y k : ℕ)
    → x + y ≡ k * 2 ^ bits_of t
    → (2 ^ bits_of t - y % 2 ^ bits_of t) % 2 ^ bits_of t ≡ x % 2 ^ bits_of t
negated byte x y k e = omega arith
negated half x y k e = omega arith
negated word x y k e = omega arith
negated double x y k e = omega arith

module _ (t : Width) (a b : ℕ) where
  product_pos_neg :
      (n : ℕ)
      → suc n + b ≡ 2 ^ bits_of t
      → from_signed_i128 t (pos a *ℤ negsuc n) ≡ exec_mul_low t a b
  unfolding exec_mul_low
  product_pos_neg n e =
      from_signed-neg_of t (a * suc n)
      ∙ negated t (a * b) (a * suc n) a (grind (arith, ap (λ s. a * s) e))

  product_neg_pos :
      (n : ℕ)
      → suc n + a ≡ 2 ^ bits_of t
      → from_signed_i128 t (negsuc n *ℤ pos b) ≡ exec_mul_low t a b
  unfolding exec_mul_low
  product_neg_pos n e =
      from_signed-neg_of t (suc n * b)
      ∙ negated t (a * b) (suc n * b) b (grind (arith, ap (λ s. s * b) e))

  product_neg_neg :
      (n k : ℕ)
      → suc n + a ≡ 2 ^ bits_of t
      → suc k + b ≡ 2 ^ bits_of t
      → from_signed_i128 t (negsuc n *ℤ negsuc k) ≡ exec_mul_low t a b
  unfolding exec_mul_low from_signed_i128
  product_neg_neg n k e f =
      same_mod (2 ^ bits_of t) (suc n * suc k) (a * b) (suc n) b
        (grind (arith, ap (λ s. s * b) e, ap (λ s. suc n * s) f))

pub from_signed-mul :
    (t : Width) (a b : ℕ)
    → a < 2 ^ bits_of t
    → b < 2 ^ bits_of t
    → from_signed_i128 t (as_signed_i128 t a *ℤ as_signed_i128 t b) ≡ exec_mul_low t a b
unfolding from_signed_i128 exec_mul_low
from_signed-mul t a b ha hb = elim (sign-cases t a ha) [
  | inl p ↦ elim (sign-cases t b hb) [
    | inl q ↦ rw (p, q) refl
    | inr (k, q, f, lt) ↦ rw (p, q) (product_pos_neg t a b k f)
  ]
  | inr (n, p, e, lt) ↦ elim (sign-cases t b hb) [
    | inl q ↦ rw (p, q) (product_neg_pos t a b n e)
    | inr (k, q, f, lt') ↦ rw (p, q) (product_neg_neg t a b n k e f)
  ]
]

-- `MULH` and `MUL` are the high and the low half of the signed product of the operands, in two's
-- complement of twice the width.
pub mul_high_signed-product :
    (t : Width) (a b : ℕ)
    → a < 2 ^ bits_of t
    → b < 2 ^ bits_of t
    → exec_mul_high_signed t a b * 2 ^ bits_of t + exec_mul_low t a b
      ≡ wide t (as_signed_i128 t a *ℤ as_signed_i128 t b)
unfolding exec_mul_high_signed
mul_high_signed-product t a b ha hb =
    ap (λ low. exec_mul_high_signed t a b * 2 ^ bits_of t + low) (sym (from_signed-mul t a b ha hb))
    ∙ halves t (as_signed_i128 t a *ℤ as_signed_i128 t b)

signed_unsigned_low :
    (t : Width) (a b : ℕ)
    → a < 2 ^ bits_of t
    → from_signed_i128 t (as_signed_i128 t a *ℤ pos b) ≡ exec_mul_low t a b
unfolding from_signed_i128 exec_mul_low
signed_unsigned_low t a b ha = elim (sign-cases t a ha) [
  | inl p ↦ rw p refl
  | inr (n, p, e, lt) ↦ rw p (product_neg_pos t a b n e)
]

-- `MULHSU` and `MUL` are the halves of the product of a signed and an unsigned operand.
pub mul_high_signed_unsigned-product :
    (t : Width) (a b : ℕ)
    → a < 2 ^ bits_of t
    → exec_mul_high_signed_unsigned t a b * 2 ^ bits_of t + exec_mul_low t a b
      ≡ wide t (as_signed_i128 t a *ℤ pos b)
unfolding exec_mul_high_signed_unsigned
mul_high_signed_unsigned-product t a b ha =
    ap (λ low. exec_mul_high_signed_unsigned t a b * 2 ^ bits_of t + low)
      (sym (signed_unsigned_low t a b ha))
    ∙ halves t (as_signed_i128 t a *ℤ pos b)
