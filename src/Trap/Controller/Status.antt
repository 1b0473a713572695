-- ===== src/Trap/Controller/Status.antt =====
-- What the setters of `mstatus` and `sstatus` compute: a field put under the mask of `mstatus`.
use here.Base.{
  ap, arith, leb, le→leb, refl, some, suc, true, zero, ℕ, ◌+◌, ◌<◌, ◌^◌, ◌∙◌, ◌≡◌, ◌≤◌, ◌⊎◌,
}
use here.Bits.{digit}
use here.Word.{bit_ones, make_mask}
use here.Word.Laws.{bit_ones-eq}
use here.Csr.{CsrReg_write, combine_shadow_read_ops, combine_validators}
use here.Csr.Fields.{IsWritable, field_of-put_other, field_of-put_self, put_field}
use here.Csr.File.{CsrRegFile, field_of, get_field, resolve_shadow_addr, set_field, store_at}
use here.Csr.Status.{mstatus_mask}
use here.Csr.Table.Lower.{sstatus}
use here.Csr.Table.Machine.{mstatus}

pub mask_lt : mstatus_mask < 2 ^ 64
unfolding combine_validators make_mask bit_ones
mask_lt = omega arith

-- `mstatus` after a setter of a field.
abbrev pub with_field : CsrRegFile → ℕ → ℕ → ℕ → CsrRegFile
with_field f low len val =
    store_at f mstatus (put_field mstatus_mask (f.value_at mstatus) low len val)

fits : (len val : ℕ) → len ≤ 64 → val < 2 ^ len → leb val (bit_ones len) ≡ true
fits len val h lt = le→leb val (bit_ones len) (omega (arith, bit_ones-eq len h))

pub set_field-mstatus :
    (f : CsrRegFile) (low len val : ℕ)
    → len ≤ 64
    → val < 2 ^ len
    → set_field f mstatus low len val ≡ some (with_field f low len val)
unfolding set_field resolve_shadow_addr CsrReg_write put_field combine_validators make_mask
set_field-mstatus f low len val h lt = simp (fits len val h lt)

pub set_field-sstatus :
    (f : CsrRegFile) (low len val : ℕ)
    → len ≤ 64
    → val < 2 ^ len
    → set_field f sstatus low len val ≡ some (with_field f low len val)
unfolding set_field resolve_shadow_addr combine_shadow_read_ops CsrReg_write put_field
    combine_validators make_mask
set_field-sstatus f low len val h lt = simp (fits len val h lt)

pub get_field-mstatus :
    (f : CsrRegFile) (low len : ℕ)
    → get_field f mstatus low len ≡ some (field_of (f.value_at mstatus) low len)
unfolding get_field resolve_shadow_addr
get_field-mstatus f low len = refl

pub get_field-sstatus :
    (f : CsrRegFile) (low len : ℕ)
    → get_field f sstatus low len ≡ some (field_of (f.value_at mstatus) low len)
unfolding get_field resolve_shadow_addr combine_shadow_read_ops
get_field-sstatus f low len = refl

-- The fields that the entries and the returns write are writable.
bit-IsWritable : (i : ℕ) → digit i mstatus_mask ≡ 1 → IsWritable mstatus_mask i 1
bit-IsWritable i h zero lt = ap (λ (t : ℕ). digit t mstatus_mask) (omega arith) ∙ h
bit-IsWritable i h (suc j) lt = absurd (omega arith)

pub sie-IsWritable : IsWritable mstatus_mask 1 1
unfolding digit combine_validators make_mask bit_ones
sie-IsWritable = bit-IsWritable 1 refl

pub mie-IsWritable : IsWritable mstatus_mask 3 1
unfolding digit combine_validators make_mask bit_ones
mie-IsWritable = bit-IsWritable 3 refl

pub spie-IsWritable : IsWritable mstatus_mask 5 1
unfolding digit combine_validators make_mask bit_ones
spie-IsWritable = bit-IsWritable 5 refl

pub mpie-IsWritable : IsWritable mstatus_mask 7 1
unfolding digit combine_validators make_mask bit_ones
mpie-IsWritable = bit-IsWritable 7 refl

pub spp-IsWritable : IsWritable mstatus_mask 8 1
unfolding digit combine_validators make_mask bit_ones
spp-IsWritable = bit-IsWritable 8 refl

pub mprv-IsWritable : IsWritable mstatus_mask 17 1
unfolding digit combine_validators make_mask bit_ones
mprv-IsWritable = bit-IsWritable 17 refl

pub mpp-IsWritable : IsWritable mstatus_mask 11 2
unfolding digit combine_validators make_mask bit_ones
mpp-IsWritable zero lt = refl
mpp-IsWritable (suc zero) lt = refl
mpp-IsWritable (suc (suc i)) lt = absurd (omega arith)

-- A field reads as it was set, and the others as before.
pub read_self :
    (f : CsrRegFile) (low len val : ℕ)
    → low + len ≤ 64
    → val < 2 ^ len
    → IsWritable mstatus_mask low len
    → field_of ((with_field f low len val).value_at mstatus) low len ≡ val
read_self f low len val h hv w =
    field_of-put_self mstatus_mask (f.value_at mstatus) low len val mask_lt h hv w

pub read_other :
    (f : CsrRegFile) (low len val low' len' : ℕ)
    → low + len ≤ 64
    → low' + len' ≤ 64
    → val < 2 ^ len
    → (low + len ≤ low') ⊎ (low' + len' ≤ low)
    → field_of ((with_field f low len val).value_at mstatus) low' len'
      ≡ field_of (f.value_at mstatus) low' len'
read_other f low len val low' len' h h' hv apart =
    field_of-put_other mstatus_mask (f.value_at mstatus) low len val low' len' mask_lt h h' hv apart
