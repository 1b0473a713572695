-- ===== src/Alu/Words.antt =====
-- src/isa/riscv/instruction/exec_function.rs, parts "Arith word" and "Bit": the operations on the
-- low 32 bits, whose result is sign extended.
use here.Base.{bit_and, if◌then◌else◌, ltb, ℕ, ◌%◌, ◌*◌, ◌+◌, ◌-◌, ◌/◌, ◌==◌, ◌^◌}
use here.Word.{sign_extend, truncate_to, word}
use here.Alu.{as_signed_i128, from_signed_i128}
use here.Int.{pos, shr_ℤ, sub_ℕ, wrapping_div, wrapping_rem, ℤ}

-- `v as i32`
abbrev pub as_i32 : ℕ → ℤ
as_i32 v = if ltb v (2 ^ 31) then pos v else sub_ℕ v (2 ^ 32)

unfoldable pub sign_extend_u32 : ℕ → ℕ
unfolding sign_extend
sign_extend_u32 value = sign_extend value 32

unfoldable pub exec_addw : ℕ → ℕ → ℕ
unfolding sign_extend_u32
exec_addw a b =
    let sa = truncate_to word a in
    let sb = truncate_to word b in sign_extend_u32 ((sa + sb) % 2 ^ 32)

unfoldable pub exec_subw : ℕ → ℕ → ℕ
unfolding sign_extend_u32
exec_subw a b =
    let sa = truncate_to word a in
    let sb = truncate_to word b in sign_extend_u32 ((sa + 2 ^ 32 - sb) % 2 ^ 32)

unfoldable pub exec_mulw : ℕ → ℕ → ℕ
unfolding sign_extend_u32
exec_mulw a b =
    let sa = truncate_to word a in let sb = truncate_to word b in sign_extend_u32 (sa * sb % 2 ^ 32)

unfoldable pub exec_divw : ℕ → ℕ → ℕ
unfolding sign_extend_u32 from_signed_i128
exec_divw a b =
    let sa = truncate_to word a in
    let sb = truncate_to word b in
    if sb == 0
    then 2 ^ 64 - 1
    else sign_extend_u32 (from_signed_i128 word (wrapping_div (as_i32 sa) (as_i32 sb)))

unfoldable pub exec_remw : ℕ → ℕ → ℕ
unfolding sign_extend_u32 from_signed_i128
exec_remw a b =
    let sa = truncate_to word a in
    let sb = truncate_to word b in
    if sb == 0
    then sign_extend_u32 sa
    else sign_extend_u32 (from_signed_i128 word (wrapping_rem (as_i32 sa) (as_i32 sb)))

unfoldable pub exec_divuw : ℕ → ℕ → ℕ
unfolding sign_extend_u32
exec_divuw a b =
    let sa = truncate_to word a in
    let sb = truncate_to word b in if sb == 0 then 2 ^ 64 - 1 else sign_extend_u32 (sa / sb)

unfoldable pub exec_remuw : ℕ → ℕ → ℕ
unfolding sign_extend_u32
exec_remuw a b =
    let sa = truncate_to word a in
    let sb = truncate_to word b in if sb == 0 then sign_extend_u32 sa else sign_extend_u32 (sa % sb)

unfoldable pub exec_sllw : ℕ → ℕ → ℕ
unfolding sign_extend_u32
exec_sllw a b = sign_extend_u32 (truncate_to word a * 2 ^ bit_and (b % 2 ^ 32) 0x1F % 2 ^ 32)

unfoldable pub exec_srlw : ℕ → ℕ → ℕ
unfolding sign_extend_u32
exec_srlw a b = sign_extend_u32 (truncate_to word a / 2 ^ bit_and (b % 2 ^ 32) 0x1F)

unfoldable pub exec_sraw : ℕ → ℕ → ℕ
unfolding sign_extend_u32 as_signed_i128 from_signed_i128
exec_sraw a b =
    let shamt = bit_and (b % 2 ^ 32) 0x1F in
    let sa = as_signed_i128 word (truncate_to word a) in
    sign_extend_u32 (from_signed_i128 word (shr_ℤ sa shamt))
