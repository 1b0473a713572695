-- ===== src/Csr/Fields.antt =====
-- Fields of a register's value, digit by digit: what a validated write of a field changes.
use native.Mathlib.Nat.{one-le-pow, mod-lt, mod-eq_of_lt, mul-div_cancel, mul-lt-mul_of_pos_right}
use here.Base.{
  ap, arith, bit_and, if◌then◌else◌, leb, ltb, suc, zero, ℕ, ◌%◌, ◌&&◌, ◌*◌, ◌+◌, ◌-◌, ◌/◌, ◌<◌,
  ◌==◌, ◌^◌, ◌∙◌, ◌≡◌, ◌≤◌, ◌⊎◌,
}
use here.Bits.{
  bit_and_field, digit, digit-bit_and, digit-bit_or, digit-le-one, digit_ext, digit_not, digit_ones,
  digit_shl, digit_shr, pow-le, pow-sum,
}
use here.Word.{bit_not, bit_ones, shl}
use here.Word.Laws.{bit_ones-eq}
use here.Csr.{get_new_value}
use here.Csr.File.{field_of}

-- A write under a mask takes the digits of the new value where the mask is one.
pub digit-get_new_value :
    (i m old v : ℕ)
    → m < 2 ^ 64
    → i < 64
    → digit i (get_new_value m old v) ≡ (if digit i m == 1 then digit i v else digit i old)
unfolding get_new_value
digit-get_new_value i m old v h lt = ground (
  arith,
  digit-bit_or i (bit_and old (bit_not m)) (bit_and v m),
  digit-bit_and i old (bit_not m),
  digit-bit_and i v m,
  digit_not 64 i m h lt,
  digit-le-one i m,
  digit-le-one i old,
  digit-le-one i v,
)

minus_one : (a b : ℕ) → (a - 1) * b ≡ a * b - b
minus_one zero b = omega arith
minus_one (suc a) b = ground arith

room : (low len : ℕ) → low + len ≤ 64 → 2 ^ len * 2 ^ low ≤ 2 ^ 64
room low len h = omega (arith, pow-sum low len, pow-le (low + len) 64 h)

-- The mask of a field.
mask-eq : (low len : ℕ) → low + len ≤ 64 → shl (bit_ones len) low ≡ (2 ^ len - 1) * 2 ^ low
mask-eq low len h =
    ap (λ (t : ℕ). t * 2 ^ low % 2 ^ 64) (bit_ones-eq len (omega arith))
    ∙ mod-eq_of_lt (omega (arith, minus_one (2 ^ len) (2 ^ low), room low len h, one-le-pow low 2))

digit_mask :
    (i low len : ℕ)
    → low + len ≤ 64
    → digit i (shl (bit_ones len) low) ≡ (if leb low i && ltb i (low + len) then 1 else 0)
digit_mask i low len h = ground (
  arith,
  ap (digit i) (mask-eq low len h),
  digit_shl low i (2 ^ len - 1),
  digit_ones (i - low) len,
)

-- A field is the value shifted down and reduced to the field's length.
pub field_of-eq : (v low len : ℕ) → low + len ≤ 64 → field_of v low len ≡ v / 2 ^ low % 2 ^ len
unfolding field_of
field_of-eq v low len h =
    ap (λ (t : ℕ). bit_and v t / 2 ^ low) (mask-eq low len h)
    ∙ ap (λ (t : ℕ). t / 2 ^ low) (bit_and_field low len v)
    ∙ mul-div_cancel (v / 2 ^ low % 2 ^ len) (one-le-pow low 2 (omega arith))

digit-field_of :
    (i v low len : ℕ)
    → low + len ≤ 64
    → digit i (field_of v low len) ≡ (if ltb i len then digit (low + i) v else 0)
unfolding field_of
digit-field_of i v low len h = ground (
  arith,
  digit_shr low i (bit_and v (shl (bit_ones len) low)),
  digit-bit_and (low + i) v (shl (bit_ones len) low),
  digit_mask (low + i) low len h,
  digit-le-one (low + i) v,
)

-- A value written to a field, under the register's mask, as `set_` does.
unfoldable pub put_field : ℕ → ℕ → ℕ → ℕ → ℕ → ℕ
put_field mask old low len val =
    get_new_value mask old (get_new_value (shl (bit_ones len) low) old (shl val low))

shl-eq : (val low len : ℕ) → low + len ≤ 64 → val < 2 ^ len → shl val low ≡ val * 2 ^ low
shl-eq val low len h lt =
    mod-eq_of_lt
      (omega (arith, room low len h, mul-lt-mul_of_pos_right lt (one-le-pow low 2 (omega arith))))

ones_word : (low len : ℕ) → low + len ≤ 64 → shl (bit_ones len) low < 2 ^ 64
ones_word low len h =
    omega
      (arith, mask-eq low len h, minus_one (2 ^ len) (2 ^ low), room low len h, one-le-pow low 2)

pub digit-put_field :
    (i mask old low len val : ℕ)
    → mask < 2 ^ 64
    → i < 64
    → low + len ≤ 64
    → val < 2 ^ len
    → digit i (put_field mask old low len val) ≡ (
        if (digit i mask == 1) && (leb low i && ltb i (low + len))
        then digit (i - low) val
        else digit i old)
unfolding put_field
digit-put_field i mask old low len val hm lt h hv = ground (
  arith,
  digit-get_new_value i mask old (get_new_value (shl (bit_ones len) low) old (shl val low)) hm lt,
  digit-get_new_value i (shl (bit_ones len) low) old (shl val low) (ones_word low len h) lt,
  digit_mask i low len h,
  ap (digit i) (shl-eq val low len h hv),
  digit_shl low i val,
)

pub field_of_lt : (v low len : ℕ) → low + len ≤ 64 → field_of v low len < 2 ^ len
field_of_lt v low len h = omega (
  arith,
  field_of-eq v low len h,
  one-le-pow len 2,
  mod-lt (v / 2 ^ low) {m = 2 ^ len} (one-le-pow len 2 (omega arith)),
)

-- The mask lets the whole field be written.
abbrev pub IsWritable : ℕ → ℕ → ℕ → Type 0
IsWritable mask low len = (i : ℕ) → i < len → digit (low + i) mask ≡ 1

self_digit :
    (i mask old low len val : ℕ)
    → mask < 2 ^ 64
    → low + len ≤ 64
    → val < 2 ^ len
    → digit (low + i) mask ≡ 1
    → i < len
    → digit i (field_of (put_field mask old low len val) low len) ≡ digit i val
self_digit i mask old low len val hm h hv w lt = ground (
  arith,
  digit-field_of i (put_field mask old low len val) low len h,
  digit-put_field (low + i) mask old low len val hm (omega arith) h hv,
  ap (λ (t : ℕ). digit t val) (back low i),
)
  where
    back : (low i : ℕ) → low + i - low ≡ i
    back low i = omega arith

-- A writable field reads as it was written.
pub field_of-put_self :
    (mask old low len val : ℕ)
    → mask < 2 ^ 64
    → low + len ≤ 64
    → val < 2 ^ len
    → IsWritable mask low len
    → field_of (put_field mask old low len val) low len ≡ val
field_of-put_self mask old low len val hm h hv w =
    digit_ext len (field_of (put_field mask old low len val) low len) val
      (field_of_lt (put_field mask old low len val) low len h) hv
      (λ i lt. self_digit i mask old low len val hm h hv (w i lt) lt)

other_digit :
    (i mask old low len val low' len' : ℕ)
    → mask < 2 ^ 64
    → low + len ≤ 64
    → low' + len' ≤ 64
    → val < 2 ^ len
    → (low + len ≤ low') ⊎ (low' + len' ≤ low)
    → i < len'
    → digit i (field_of (put_field mask old low len val) low' len')
      ≡ digit i (field_of old low' len')
other_digit i mask old low len val low' len' hm h h' hv apart lt = ground (
  arith,
  digit-field_of i (put_field mask old low len val) low' len' h',
  digit-field_of i old low' len' h',
  digit-put_field (low' + i) mask old low len val hm (omega arith) h hv,
)

-- A write of a field changes no field apart from it.
pub field_of-put_other :
    (mask old low len val low' len' : ℕ)
    → mask < 2 ^ 64
    → low + len ≤ 64
    → low' + len' ≤ 64
    → val < 2 ^ len
    → (low + len ≤ low') ⊎ (low' + len' ≤ low)
    → field_of (put_field mask old low len val) low' len' ≡ field_of old low' len'
field_of-put_other mask old low len val low' len' hm h h' hv apart =
    digit_ext len' (field_of (put_field mask old low len val) low' len') (field_of old low' len')
      (field_of_lt (put_field mask old low len val) low' len' h') (field_of_lt old low' len' h')
      (λ i lt. other_digit i mask old low len val low' len' hm h h' hv apart lt)
