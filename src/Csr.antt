-- ===== src/Csr.antt =====
-- src/isa/riscv/csr_reg: the control and status registers, their write and read validators, the
-- shadow registers and the privilege of an access. A `CsrWriteOp` is its mask. The set of
-- registers and their validators are fixed by `from`, so the file keeps the values and `reg_at`
-- puts a value and its validators together. Indices are those of an instruction, below CSR_SIZE.
pub mod Fields
pub mod Table
pub mod File
pub mod Privilege
pub mod Status
mod Examples
use here.Base.{
  List, Option, [], bit_and, bit_or, if◌then◌else◌, leb, none, some, suc, zero, ℕ, ◌&&◌, ◌+◌, ◌-◌,
  ◌^◌, ◌∷◌,
}
use here.Word.{bit_not, extract_range, make_mask}

pub data PrivilegeLevel : Type 0 where
  user supervisor virtual machine : PrivilegeLevel

-- `as u8`
abbrev pub level_of : PrivilegeLevel → ℕ
level_of user = 0
level_of supervisor = 1
level_of virtual = 2
level_of machine = 3

-- `PrivilegeLevel::try_from`
abbrev pub try_from : ℕ → Option PrivilegeLevel
try_from zero = some user
try_from (suc zero) = some supervisor
try_from (suc (suc zero)) = some virtual
try_from (suc (suc (suc zero))) = some machine
try_from _ = none

-- `CsrContext`
pub record CsrContext : Type 0 where
  pub extension : ℕ
  pub context_xlen : ℕ

abbrev pub new_write_all : ℕ
new_write_all = 2 ^ 64 - 1

unfoldable pub get_new_value : ℕ → ℕ → ℕ → ℕ
get_new_value mask old_value value = bit_or (bit_and old_value (bit_not mask)) (bit_and value mask)

-- `merge` and `mask` of two write operations
abbrev pub merge : ℕ → ℕ → ℕ
merge a b = bit_or a b

abbrev pub mask_with : ℕ → ℕ → ℕ
mask_with a b = bit_and a b

abbrev pub WriteValidator : Type 0
WriteValidator = ℕ → CsrContext → ℕ

pub record ReadValidator : Type 0 where
  pub target_index : ℕ
  pub view_mask : ℕ

-- `ReadValidator::combine`
abbrev pub combine : ReadValidator → ℕ → ReadValidator
combine r other = record r { view_mask = bit_or r.view_mask other }

pub record CsrReg : Type 0 where
  pub value : ℕ
  pub write_validator : Option WriteValidator
  pub read_validator : Option ReadValidator

unfoldable pub validate : CsrReg → ℕ → CsrContext → ℕ
validate reg new_value context = elim reg.write_validator [
  | none ↦ new_write_all
  | some validator ↦ validator new_value context
]

unfoldable pub CsrReg_write : CsrReg → ℕ → CsrContext → CsrReg
unfolding get_new_value
CsrReg_write reg new_value context = elim reg.write_validator [
  | none ↦ record reg { value = new_value }
  | some validator ↦ record reg {
    value = get_new_value (validator new_value context) reg.value new_value;
  }
]

unfoldable pub write_with_mask : CsrReg → ℕ → CsrContext → ℕ → CsrReg
unfolding get_new_value
write_with_mask reg new_value context mask = elim reg.write_validator [
  | none ↦ record reg { value = new_value }
  | some validator ↦ record reg {
    value = get_new_value (mask_with (validator new_value context) mask) reg.value new_value;
  }
]

-- The validators of a field: any write, none, or, for the bits from `l` to `r`, the values in a
-- range.
pub data Rule : Type 0 where
  write_any read_only : Rule
  in_range : ℕ → ℕ → ℕ → ℕ → Rule

-- A field of a register in the macro's table: its lowest bit, its length and its validator.
pub record Field : Type 0 where
  pub low : ℕ
  pub len : ℕ
  pub rule : Rule

abbrev pub field : ℕ → ℕ → Field
field l n = record { low = l; len = n; rule = write_any }

abbrev pub fixed : ℕ → ℕ → Field
fixed l n = record { low = l; len = n; rule = read_only }

-- `validate_write_any`, `validate_readonly` and `validate_range`
unfoldable pub validate_field : Field → WriteValidator
validate_field f new_value context = elim f.rule [
  | write_any ↦ make_mask f.low (f.low + f.len - 1)
  | read_only ↦ 0
  | in_range l r low high ↦
      (let extracted = extract_range new_value l r in
        if leb low extracted && leb extracted high then make_mask l r else 0)
]

-- `combine_validators!`
unfoldable pub combine_validators : ℕ → List Field → WriteValidator
unfolding validate_field
combine_validators combined [] new_value context = combined
combine_validators combined (f ∷ fs) new_value context =
    combine_validators (merge combined (validate_field f new_value context)) fs new_value context

-- `combine_shadow_read_ops!`
unfoldable pub combine_shadow_read_ops : ReadValidator → List Field → ReadValidator
combine_shadow_read_ops combined [] = combined
combine_shadow_read_ops combined (f ∷ fs) =
    combine_shadow_read_ops (combine combined (make_mask f.low (f.low + f.len - 1))) fs

-- A row of the macro's table.
pub record Row : Type 0 where
  pub index : ℕ
  pub initial : ℕ
  pub shadow_of : Option ℕ
  pub fields : List Field
