-- ===== src/Csr/Status.antt =====
-- `sstatus` as a view of `mstatus` (src/isa/riscv/csr_reg): what a write through it can change.
use here.Base.{
  Bool, all_below, ap, arith, below, bit_and, if◌then◌else◌, refl, true, ℕ, ◌<◌, ◌==◌, ◌^◌, ◌||◌,
  ◌≡◌, ◌≢◌,
}
use here.Bits.{digit}
use here.Word.{bit_ones, make_mask}
use here.Csr.{combine_shadow_read_ops, combine_validators, get_new_value, validate, write_with_mask}
use here.Csr.Fields.{digit-get_new_value}
use here.Csr.File.{CsrRegFile, resolve_shadow_addr, write_uncheck_privilege}
use here.Csr.Table.Lower.{sstatus, sstatus_fields}
use here.Csr.Table.Machine.{mstatus, mstatus_fields}

-- The bits that a write of `mstatus` may change, as its validators give them.
abbrev pub mstatus_mask : ℕ
mstatus_mask = combine_validators 0 mstatus_fields 0 (record { extension = 0; context_xlen = 0 })

-- The bits of the writable fields of `sstatus`: SIE, SPIE, UBE, SPP, VS, FS, SUM, MXR, SPELP, SDT
-- and SD. XS is fixed in `mstatus`, and UXL in both.
pub is_sstatus_bit : ℕ → Bool
is_sstatus_bit i =
    i == 1
    || i == 5
    || i == 6
    || i == 8
    || i == 9
    || i == 10
    || i == 13
    || i == 14
    || i == 18
    || i == 19
    || i == 23
    || i == 24
    || i == 63

both_masks : ℕ
both_masks =
    bit_and mstatus_mask
      (combine_validators 0 sstatus_fields 0 (record { extension = 0; context_xlen = 0 }))

bit_agrees : ℕ → Bool
bit_agrees i = digit i both_masks == (if is_sstatus_bit i then 1 else 0)

bits_agree : all_below 64 bit_agrees ≡ true
unfolding bit_agrees is_sstatus_bit digit combine_validators both_masks make_mask bit_ones
bits_agree = refl

both_masks_lt : both_masks < 2 ^ 64
unfolding both_masks combine_validators make_mask bit_ones
both_masks_lt = omega arith

sstatus_write :
    (f : CsrRegFile) (v : ℕ)
    → (write_uncheck_privilege f sstatus v).value_at mstatus
      ≡ get_new_value both_masks (f.value_at mstatus) v
unfolding write_uncheck_privilege both_masks combine_validators make_mask bit_ones
    resolve_shadow_addr validate write_with_mask combine_shadow_read_ops
sstatus_write f v = refl

-- After a write of `sstatus`, a bit of `mstatus` is the new value's if it belongs to a writable
-- field of `sstatus`, and is unchanged otherwise, so that no write by the supervisor reaches MIE,
-- MPIE, MPP or MPRV.
pub write_uncheck_privilege-sstatus :
    (f : CsrRegFile) (v i : ℕ)
    → i < 64
    → digit i ((write_uncheck_privilege f sstatus v).value_at mstatus)
      ≡ (if is_sstatus_bit i then digit i v else digit i (f.value_at mstatus))
unfolding bit_agrees
write_uncheck_privilege-sstatus f v i lt = ground (
  arith,
  ap (digit i) (sstatus_write f v),
  digit-get_new_value i both_masks (f.value_at mstatus) v both_masks_lt lt,
  below 64 bit_agrees i bits_agree lt,
)

sstatus_elsewhere :
    (f : CsrRegFile) (v a : ℕ)
    → a ≢ mstatus
    → (write_uncheck_privilege f sstatus v).value_at a ≡ f.value_at a
unfolding write_uncheck_privilege resolve_shadow_addr combine_shadow_read_ops
sstatus_elsewhere f v a ne = ground arith
