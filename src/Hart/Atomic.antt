-- ===== src/Hart/Atomic.antt =====
-- src/isa/riscv/instruction/exec_atomic_function.rs. An operation of the standard library's atomics
-- gives the old value and what the cell then holds; its memory ordering has no effect on one hart.
use here.Base.{
  Bool, Option, Result, bit_and, bit_or, bit_xor, if◌then◌else◌, ltb, max, min, none, ok, some, ℕ,
  ◌%◌, ◌+◌, ◌-◌, ◌^◌,
}
use here.Word.{Width, bits_of, double, truncate_to, word}
use here.Alu.Words.{sign_extend_u32}
use here.Hart.{
  Op, cpu_load_reserved, cpu_store_conditional, done, fetch_and_op_amo, reg, reg_write, ◌>>=◌,
}
use here.Hart.Core.{get_cpu, retire, unreachable}
use here.Int.{lt_ℤ, pos, sub_ℕ, ℤ}
use here.Isa.{RvInstrInfo, info_a}
use here.Mmio.{DeviceArena}
use here.Trap.{Exception}

-- `AMOTrait::exec` of each implementor; a maximum or minimum is signed or not.
unfoldable pub exec_amo_add : Width → ℕ → ℕ → Result Exception ℕ × ℕ
exec_amo_add t rhs v = (ok v, (v + rhs) % 2 ^ bits_of t)

unfoldable pub exec_amo_and : Width → ℕ → ℕ → Result Exception ℕ × ℕ
exec_amo_and t rhs v = (ok v, bit_and v rhs)

unfoldable pub exec_amo_or : Width → ℕ → ℕ → Result Exception ℕ × ℕ
exec_amo_or t rhs v = (ok v, bit_or v rhs)

unfoldable pub exec_amo_xor : Width → ℕ → ℕ → Result Exception ℕ × ℕ
exec_amo_xor t rhs v = (ok v, bit_xor v rhs)

-- `v as i64` or `v as i32`
abbrev as_signed : Width → ℕ → ℤ
as_signed t v = if ltb v (2 ^ (bits_of t - 1)) then pos v else sub_ℕ v (2 ^ bits_of t)

unfoldable pub exec_amo_max : Width → ℕ → ℕ → Result Exception ℕ × ℕ
exec_amo_max t rhs v = (ok v, if lt_ℤ (as_signed t rhs) (as_signed t v) then v else rhs)

unfoldable pub exec_amo_min : Width → ℕ → ℕ → Result Exception ℕ × ℕ
exec_amo_min t rhs v = (ok v, if lt_ℤ (as_signed t rhs) (as_signed t v) then rhs else v)

unfoldable pub exec_amo_max_u : Width → ℕ → ℕ → Result Exception ℕ × ℕ
exec_amo_max_u t rhs v = (ok v, max v rhs)

unfoldable pub exec_amo_min_u : Width → ℕ → ℕ → Result Exception ℕ × ℕ
exec_amo_min_u t rhs v = (ok v, min v rhs)

unfoldable pub exec_amo_swap : Width → ℕ → ℕ → Result Exception ℕ × ℕ
exec_amo_swap t rhs v = (ok v, rhs)

-- `sign_extend_to_wordtype` of the two types that are words
unfoldable pub sign_extend_to_wordtype : Width → ℕ → Option ℕ
unfolding sign_extend_u32
sign_extend_to_wordtype word v = some (sign_extend_u32 v)
sign_extend_to_wordtype double v = some v
sign_extend_to_wordtype _ v = none

module _ {A : DeviceArena} where
  abbrev or_panic : Option ℕ → Op A ℕ
  or_panic none = unreachable
  or_panic (some v) = done v

  unfoldable pub exec_atomic_memory_operation :
      (Width → ℕ → ℕ → Result Exception ℕ × ℕ) → Width → RvInstrInfo → Op A (Unit {0})
  unfolding fetch_and_op_amo sign_extend_to_wordtype reg_write retire
  exec_atomic_memory_operation f t (info_a rs1 rs2 rd rl aq) = do
    cpu ← get_cpu
    old ← fetch_and_op_amo t (reg cpu rs1) (f t (truncate_to t (reg cpu rs2)))
    res ← or_panic (sign_extend_to_wordtype t old)
    _ ← reg_write rd res
    retire 4
  exec_atomic_memory_operation f t info = unreachable

  unfoldable pub exec_lr : Width → Bool → RvInstrInfo → Op A (Unit {0})
  unfolding cpu_load_reserved sign_extend_to_wordtype reg_write retire
  exec_lr t extend (info_a rs1 rs2 rd rl aq) = do
    cpu ← get_cpu
    v ← cpu_load_reserved t (reg cpu rs1)
    res ← (if extend then or_panic (sign_extend_to_wordtype t v) else done v)
    _ ← reg_write rd res
    retire 4
  exec_lr t extend info = unreachable

  -- `debug` is the build profile, which the bus reads.
  unfoldable pub exec_sc : Bool → Width → RvInstrInfo → Op A (Unit {0})
  unfolding cpu_store_conditional reg_write retire
  exec_sc debug t (info_a rs1 rs2 rd rl aq) = do
    cpu ← get_cpu
    success ← cpu_store_conditional debug t (reg cpu rs1) (truncate_to t (reg cpu rs2))
    _ ← reg_write rd (if success then 0 else 1)
    retire 4
  exec_sc debug t info = unreachable
