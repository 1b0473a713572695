-- ===== src/Alu.antt =====
-- The `ExecTrait::exec` functions of src/isa/riscv/instruction/exec_function.rs, with the helpers of
-- src/utils.rs that they call. `t` is the type argument; every function of the source returns `Ok`
-- of what stands here.

pub mod Compare
pub mod Logic
pub mod Words
pub mod Signed
pub mod Division
pub mod Product
pub mod Order
pub mod Words32
mod Examples
use here.Base.{bit_and, if◌then◌else◌, ℕ, ◌%◌, ◌*◌, ◌+◌, ◌-◌, ◌/◌, ◌==◌, ◌^◌}
use here.Word.{Width, bits_of, truncate_to}
use here.Int.{negsuc, pos, shr_ℤ, sub_ℕ, wrapping_div, wrapping_rem, ℤ, ◌*ℤ◌}

unfoldable pub shift_amount : Width → ℕ → ℕ
shift_amount t value = bit_and (value % 2 ^ 32) (bits_of t - 1)

unfoldable pub as_signed_i128 : Width → ℕ → ℤ
as_signed_i128 t value =
    let sign_mask = 2 ^ (bits_of t - 1) in
    if bit_and value sign_mask == 0 then pos value else sub_ℕ value (2 ^ bits_of t)

-- The cast of an i128 to a `u128`, truncated to the type.
unfoldable pub from_signed_i128 : Width → ℤ → ℕ
from_signed_i128 t (pos n) = n % 2 ^ bits_of t
from_signed_i128 t (negsuc n) = 2 ^ bits_of t - 1 - n % 2 ^ bits_of t

-- `T::MAX`
abbrev pub max_of : Width → ℕ
max_of t = 2 ^ bits_of t - 1

unfoldable pub exec_add : Width → ℕ → ℕ → ℕ
exec_add t a b = (a + b) % 2 ^ bits_of t

unfoldable pub exec_sub : Width → ℕ → ℕ → ℕ
exec_sub t a b = (a + 2 ^ bits_of t - b) % 2 ^ bits_of t

unfoldable pub exec_rev_sub : Width → ℕ → ℕ → ℕ
exec_rev_sub t a b = (b + 2 ^ bits_of t - a) % 2 ^ bits_of t

unfoldable pub exec_mul_low : Width → ℕ → ℕ → ℕ
exec_mul_low t a b = a * b % 2 ^ bits_of t

unfoldable pub exec_mul_high_unsigned : Width → ℕ → ℕ → ℕ
exec_mul_high_unsigned t a b = truncate_to t (a * b / 2 ^ bits_of t)

unfoldable pub exec_mul_high_signed : Width → ℕ → ℕ → ℕ
unfolding as_signed_i128 from_signed_i128
exec_mul_high_signed t a b =
    let product = as_signed_i128 t a *ℤ as_signed_i128 t b in
    from_signed_i128 t (shr_ℤ product (bits_of t))

unfoldable pub exec_mul_high_signed_unsigned : Width → ℕ → ℕ → ℕ
unfolding as_signed_i128 from_signed_i128
exec_mul_high_signed_unsigned t a b =
    let product = as_signed_i128 t a *ℤ pos b in from_signed_i128 t (shr_ℤ product (bits_of t))

unfoldable pub exec_div_signed : Width → ℕ → ℕ → ℕ
unfolding as_signed_i128 from_signed_i128
exec_div_signed t a b =
    if b == 0
    then max_of t
    else from_signed_i128 t (wrapping_div (as_signed_i128 t a) (as_signed_i128 t b))

unfoldable pub exec_div_unsigned : Width → ℕ → ℕ → ℕ
exec_div_unsigned t a b = if b == 0 then max_of t else a / b

unfoldable pub exec_rem_signed : Width → ℕ → ℕ → ℕ
unfolding as_signed_i128 from_signed_i128
exec_rem_signed t a b =
    if b == 0
    then a
    else from_signed_i128 t (wrapping_rem (as_signed_i128 t a) (as_signed_i128 t b))

unfoldable pub exec_rem_unsigned : Width → ℕ → ℕ → ℕ
exec_rem_unsigned t a b = if b == 0 then a else a % b

unfoldable pub exec_sll : Width → ℕ → ℕ → ℕ
unfolding shift_amount
exec_sll t a b = a * 2 ^ shift_amount t b % 2 ^ bits_of t

unfoldable pub exec_srl : Width → ℕ → ℕ → ℕ
unfolding shift_amount
exec_srl t a b = a / 2 ^ shift_amount t b

unfoldable pub exec_sra : Width → ℕ → ℕ → ℕ
unfolding shift_amount as_signed_i128 from_signed_i128
exec_sra t a b = from_signed_i128 t (shr_ℤ (as_signed_i128 t a) (shift_amount t b))

unfoldable pub exec_zext : Width → Width → ℕ → ℕ
exec_zext tout tin a = truncate_to tout a

unfoldable pub exec_sext : Width → Width → ℕ → ℕ
unfolding as_signed_i128 from_signed_i128
exec_sext tout tin a = from_signed_i128 tout (as_signed_i128 tin a)

unfoldable pub exec_nsrl : Width → Width → ℕ → ℕ → ℕ
unfolding shift_amount
exec_nsrl tout tin a b = truncate_to tout (a / 2 ^ shift_amount tin b)

unfoldable pub exec_nsra : Width → Width → ℕ → ℕ → ℕ
unfolding shift_amount as_signed_i128 from_signed_i128
exec_nsra tout tin a b = from_signed_i128 tout (shr_ℤ (as_signed_i128 tin a) (shift_amount tin b))
