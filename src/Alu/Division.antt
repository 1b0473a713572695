-- ===== src/Alu/Division.antt =====
-- The quotient and the remainder of src/isa/riscv/instruction/exec_function.rs belong together, for
-- every divisor and on overflow.
use native.Mathlib.Nat.{mod-eq_of_lt, add-mul-mod_self_right, add-mod, mod-add-div, mod-add-mod}
use native.Mathlib.Nat.{one-le-pow}
use native.Mathlib.Nat.{div-add-mod, div-le_self, mod-le}
use mathlib.Core.Path.{ap₂}
use here.Base.{
  Bool-cases, ap, arith, inl, inr, ltb, suc, sym, true, ℕ, ◌%◌, ◌*◌, ◌+◌, ◌-◌, ◌/◌, ◌<◌, ◌==◌, ◌^◌,
  ◌∙◌, ◌≡◌, ◌⊎◌,
}
use here.Word.{Width, bits_of}
use here.Alu.{
  as_signed_i128, exec_add, exec_div_signed, exec_div_unsigned, exec_mul_low, exec_rem_signed,
  exec_rem_unsigned, from_signed_i128, max_of,
}
use here.Alu.Signed.{as_signed_i128-eq, from_signed-neg_of}
use here.Int.{neg_of, negsuc, pos, wrapping_div, wrapping_rem, ℤ}

mod_unique : (m z a k l : ℕ) → a < m → z + k * m ≡ a + l * m → z % m ≡ a
mod_unique m z a k l h e =
    sym (add-mul-mod_self_right z k m)
    ∙ ap (λ (t : ℕ). t % m) e
    ∙ add-mul-mod_self_right a l m
    ∙ mod-eq_of_lt h

-- pos / neg
pos_neg : (m Q q b c r a : ℕ) → a < m → Q + q ≡ m → b + c ≡ m → q * c + r ≡ a → (Q * b + r) % m ≡ a
pos_neg m Q q b c r a h hq hb e =
    mod_unique m (Q * b + r) a (c + q) m h
      (grind (arith, ap (λ t. Q * t) hb, ap (λ t. t * c) hq, ap (λ t. t * m) hq))

neg_pos :
    (m Q q b R r p a : ℕ)
    → a < m
    → Q + q ≡ m
    → R + r ≡ m
    → q * b + r ≡ p
    → a + p ≡ m
    → (Q * b + R) % m ≡ a
neg_pos m Q q b R r p a h hq hr e hp = mod_unique m (Q * b + R) a 0 b h (grind arith)

neg_neg :
    (m q b c R r p a : ℕ)
    → a < m
    → b + c ≡ m
    → R + r ≡ m
    → q * c + r ≡ p
    → a + p ≡ m
    → (q * b + R) % m ≡ a
neg_neg m q b c R r p a h hb hr e hp = mod_unique m (q * b + R) a 0 q h (grind arith)

wrap_sum : (m x b r : ℕ) → (x % m * b % m + r % m) % m ≡ (x * b + r) % m
wrap_sum m x b r =
    sym (add-mod (x % m * b) r m)
    ∙ sym (add-mul-mod_self_right (x % m * b + r) (x / m * b) m)
    ∙ ap (λ (t : ℕ). t % m) (grind (arith, ap (λ t. t * b) (mod-add-div x m)))

pub sign-cases :
    (t : Width) (v : ℕ)
    → v < 2 ^ bits_of t
    → (as_signed_i128 t v ≡ pos v)
      ⊎ ((n : ℕ) × (as_signed_i128 t v ≡ negsuc n)
          × (suc n + v ≡ 2 ^ bits_of t)
          × (suc n < 2 ^ bits_of t))
sign-cases t v h = elim (Bool-cases (ltb v (2 ^ (bits_of t - 1)))) [
  | inl e ↦ inl (as_signed_i128-eq t v h ∙ simp e)
  | inr e ↦ inr (
    2 ^ bits_of t - 1 - v,
    as_signed_i128-eq t v h ∙ simp e,
    omega arith,
    ground (arith, one-le-pow (bits_of t - 1) 2),
  )
]

combine :
    (t : Width) (Q b R : ℕ)
    → exec_add t (exec_mul_low t (Q % 2 ^ bits_of t) b) (R % 2 ^ bits_of t)
      ≡ (Q * b + R) % 2 ^ bits_of t
unfolding exec_add exec_mul_low
combine t Q b R = wrap_sum (2 ^ bits_of t) Q b R

division : (a b : ℕ) → a / b * b + a % b ≡ a
division a b = grind (arith, div-add-mod a b)

settle : (m z r a : ℕ) → a < m → z + r ≡ a → (z % m + r) % m ≡ a
settle m z r a h e = mod-add-mod z m r ∙ ap (λ (t : ℕ). t % m) e ∙ mod-eq_of_lt h

by_zero :
    (t : Width) (a b : ℕ)
    → a < 2 ^ bits_of t
    → (b == 0) ≡ true
    → exec_add t (exec_mul_low t (max_of t) b) a ≡ a
unfolding exec_add exec_mul_low
by_zero t a b h e = settle (2 ^ bits_of t) (max_of t * b) a a h (grind (arith, e))

pub div-rem_unsigned :
    (t : Width) (a b : ℕ)
    → a < 2 ^ bits_of t
    → exec_add t (exec_mul_low t (exec_div_unsigned t a b) b) (exec_rem_unsigned t a b) ≡ a
unfolding exec_add exec_mul_low exec_div_unsigned exec_rem_unsigned
div-rem_unsigned t a b h = elim (Bool-cases (b == 0)) [
  | inl e ↦ simp e (by_zero t a b h e)
  | inr e ↦ simp e (settle (2 ^ bits_of t) (a / b * b) (a % b) a h (division a b))
]

from_signed-neg_small :
    (t : Width) (x : ℕ)
    → x < 2 ^ bits_of t
    → from_signed_i128 t (neg_of x) ≡ (2 ^ bits_of t - x) % 2 ^ bits_of t
from_signed-neg_small t x h =
    from_signed-neg_of t x ∙ ap (λ (y : ℕ). (2 ^ bits_of t - y) % 2 ^ bits_of t) (mod-eq_of_lt h)

-- The value that the instructions give back, for a reading of each operand.
abbrev recombined : Width → ℕ → ℤ → ℤ → ℕ
recombined t b x y =
    exec_add t (exec_mul_low t (from_signed_i128 t (wrapping_div x y)) b)
      (from_signed_i128 t (wrapping_rem x y))

module _ (t : Width) (a b : ℕ) (ha : a < 2 ^ bits_of t) where
  recombined_pos_pos : recombined t b (pos a) (pos b) ≡ a
  unfolding from_signed_i128
  recombined_pos_pos =
      combine t (a / b) b (a % b)
      ∙ ap (λ (z : ℕ). z % 2 ^ bits_of t) (division a b)
      ∙ mod-eq_of_lt ha

  recombined_pos_neg : (n : ℕ) → suc n + b ≡ 2 ^ bits_of t → recombined t b (pos a) (negsuc n) ≡ a
  unfolding from_signed_i128
  recombined_pos_neg n hb =
      let M = 2 ^ bits_of t in
      let q = a / suc n in
      let r = a % suc n in
      ap (λ (z : ℕ). exec_add t (exec_mul_low t z b) (r % M))
        (from_signed-neg_small t q (omega (arith, div-le_self a (suc n))))
      ∙ combine t (M - q) b r
      ∙ pos_neg M (M - q) q b (suc n) r a ha (omega (arith, div-le_self a (suc n))) (omega arith)
          (division a (suc n))

  recombined_neg_pos :
      (n : ℕ)
      → suc n + a ≡ 2 ^ bits_of t
      → suc n < 2 ^ bits_of t
      → recombined t b (negsuc n) (pos b) ≡ a
  recombined_neg_pos n hp hn =
      let M = 2 ^ bits_of t in
      let q = suc n / b in
      let r = suc n % b in
      ap₂ (λ (z w : ℕ). exec_add t (exec_mul_low t z b) w)
        (from_signed-neg_small t q (omega (arith, div-le_self (suc n) b)))
        (from_signed-neg_small t r (omega (arith, mod-le (suc n) b)))
      ∙ combine t (M - q) b (M - r)
      ∙ neg_pos M (M - q) q b (M - r) r (suc n) a ha (omega (arith, div-le_self (suc n) b))
          (omega (arith, mod-le (suc n) b)) (division (suc n) b) (omega arith)

  recombined_neg_neg :
      (n k : ℕ)
      → suc n + a ≡ 2 ^ bits_of t
      → suc n < 2 ^ bits_of t
      → suc k + b ≡ 2 ^ bits_of t
      → recombined t b (negsuc n) (negsuc k) ≡ a
  unfolding from_signed_i128
  recombined_neg_neg n k hp hn hb =
      let M = 2 ^ bits_of t in
      let q = suc n / suc k in
      let r = suc n % suc k in
      ap (λ (w : ℕ). exec_add t (exec_mul_low t (q % M) b) w)
        (from_signed-neg_small t r (omega (arith, mod-le (suc n) (suc k))))
      ∙ combine t q b (M - r)
      ∙ neg_neg M q b (suc k) (M - r) r (suc n) a ha (omega arith)
          (omega (arith, mod-le (suc n) (suc k))) (division (suc n) (suc k)) (omega arith)

recombined-eq :
    (t : Width) (a b : ℕ)
    → a < 2 ^ bits_of t
    → b < 2 ^ bits_of t
    → recombined t b (as_signed_i128 t a) (as_signed_i128 t b) ≡ a
recombined-eq t a b ha hb = elim (sign-cases t a ha) [
  | inl p ↦ elim (sign-cases t b hb) [
    | inl q ↦ rw (p, q) (recombined_pos_pos t a b ha)
    | inr (k, q, e, lt) ↦ rw (p, q) (recombined_pos_neg t a b ha k e)
  ]
  | inr (n, p, e, lt) ↦ elim (sign-cases t b hb) [
    | inl q ↦ rw (p, q) (recombined_neg_pos t a b ha n e lt)
    | inr (k, q, f, lt') ↦ rw (p, q) (recombined_neg_neg t a b ha n k e lt f)
  ]
]

-- For all operands of a width, the divisor zero and the overflow of the least value by -1 included,
-- `DIV` times the divisor plus `REM` wraps to the dividend.
pub div-rem_signed :
    (t : Width) (a b : ℕ)
    → a < 2 ^ bits_of t
    → b < 2 ^ bits_of t
    → exec_add t (exec_mul_low t (exec_div_signed t a b) b) (exec_rem_signed t a b) ≡ a
unfolding exec_div_signed exec_rem_signed
div-rem_signed t a b ha hb = elim (Bool-cases (b == 0)) [
  | inl e ↦ simp e (by_zero t a b ha e)
  | inr e ↦ simp e (recombined-eq t a b ha hb)
]
