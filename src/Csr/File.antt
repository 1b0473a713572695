-- ===== src/Csr/File.antt =====
-- src/isa/riscv/csr_reg/mod.rs: the register file, its accesses by address and by field.
use here.Base.{
  Bool, List, Option, [], bit_and, bit_or, false, if◌then◌else◌, leb, none, some, true, update, ℕ,
  ◌==◌, ◌∷◌,
}
use here.Word.{bit_not, bit_ones, shl, shr}
use here.Csr.{
  CsrContext, CsrReg, CsrReg_write, PrivilegeLevel, ReadValidator, Row, combine_shadow_read_ops,
  combine_validators, get_new_value, machine, validate, write_with_mask,
}
use here.Csr.Table.{csr_reg_table}
use here.Csr.Table.Lower.{fcsr, vcsr}

abbrev pub find_row : List Row → ℕ → Option Row
find_row [] a = none
find_row (r ∷ rs) a = if r.index == a then some r else find_row rs a

abbrev pub row_of : ℕ → Option Row
row_of a = find_row csr_reg_table a

-- `resolve_shadow_addr`
unfoldable pub resolve_shadow_addr : ℕ → Option ReadValidator
unfolding combine_shadow_read_ops
resolve_shadow_addr a = elim (row_of a) [
  | none ↦ none
  | some r ↦ elim r.shadow_of [
    | none ↦ none
    | some base ↦
        some (combine_shadow_read_ops (record { target_index = base; view_mask = 0 }) r.fields)
  ]
]

pub record CsrRegFile : Type 0 where
  pub value_at : ℕ → ℕ
  pub cpl : PrivilegeLevel
  pub ctx : CsrContext

abbrev initial_at : ℕ → ℕ
initial_at a = elim (row_of a) [ none ↦ 0 | some r ↦ r.initial ]

-- `CsrRegFile::from(CSR_REG_TABLE)`
abbrev pub csr_new : CsrRegFile
csr_new = record {
  value_at = initial_at;
  cpl = machine;
  ctx = record { extension = 0; context_xlen = 0 };
}

-- `table[a]`
abbrev pub reg_at : CsrRegFile → ℕ → Option CsrReg
reg_at f a = elim (row_of a) [
  | none ↦ none
  | some r ↦ some (record {
    value = f.value_at a;
    write_validator = some (combine_validators 0 r.fields);
    read_validator = resolve_shadow_addr a;
  })
]

abbrev pub store_at : CsrRegFile → ℕ → ℕ → CsrRegFile
store_at f a v = record f { value_at = update f.value_at a v }

-- `get_by_type_existing`: the index of the register behind a type; `none` where there is none.
abbrev pub base_index : ℕ → ℕ
base_index a = elim (resolve_shadow_addr a) [ none ↦ a | some r ↦ r.target_index ]

-- `get_` and `set_` of a field; `none` is the failed assertion or the missing register.
unfoldable pub field_of : ℕ → ℕ → ℕ → ℕ
field_of v low len = shr (bit_and v (shl (bit_ones len) low)) low

unfoldable pub get_field : CsrRegFile → ℕ → ℕ → ℕ → Option ℕ
get_field f a low len = elim (reg_at f (base_index a)) [
  | none ↦ none
  | some reg ↦ some (field_of reg.value low len)
]

unfoldable pub set_field : CsrRegFile → ℕ → ℕ → ℕ → ℕ → Option CsrRegFile
set_field f a low len val = elim (reg_at f (base_index a)) [
  | none ↦ none
  | some reg ↦
      if leb val (bit_ones len)
      then (let put = get_new_value (shl (bit_ones len) low) reg.value (shl val low) in
          some (store_at f (base_index a) (CsrReg_write reg put f.ctx).value))
      else none
]

-- `write_directly`
unfoldable pub write_directly : CsrRegFile → ℕ → ℕ → Bool × CsrRegFile
write_directly f a new_value = elim (row_of a) [
  | none ↦ (false, f)
  | some _ ↦ (true, store_at f a new_value)
]

-- The last branch of `write_uncheck_privilege`: an unknown register is left alone, and a shadow
-- writes to its base what both validators allow.
unfoldable pub write_register : CsrRegFile → ℕ → ℕ → CsrRegFile
write_register f a new_value = elim (reg_at f a) [
  | none ↦ f
  | some csr ↦ elim csr.read_validator [
    | none ↦ store_at f a (CsrReg_write csr new_value f.ctx).value
    | some r ↦ elim (reg_at f r.target_index) [
      | none ↦ f
      | some base_csr ↦
          store_at f r.target_index
            (write_with_mask base_csr new_value f.ctx (validate csr new_value f.ctx)).value
    ]
  ]
]

abbrev set_part : ℕ → ℕ → ℕ → ℕ
set_part v mask part = bit_or (bit_and v (bit_not mask)) part

unfoldable pub write_uncheck_privilege : CsrRegFile → ℕ → ℕ → CsrRegFile
unfolding write_register
write_uncheck_privilege f a new_value =
    if a == 0x001
    then store_at f fcsr (set_part (f.value_at fcsr) 0b11111 (bit_and new_value 0b11111))
    else if a == 0x002
    then store_at f fcsr (set_part (f.value_at fcsr) 0b11100000 (shl (bit_and new_value 0b111) 5))
    else if a == fcsr
    then store_at f fcsr (bit_and new_value 0xff)
    else if a == 0x009
    then store_at f vcsr (set_part (f.value_at vcsr) 0b1 (bit_and new_value 0b1))
    else if a == 0x00a
    then store_at f vcsr (set_part (f.value_at vcsr) 0b110 (shl (bit_and new_value 0b11) 1))
    else write_register f a new_value

unfoldable pub read_register : CsrRegFile → ℕ → Option ℕ
read_register f a = elim (resolve_shadow_addr a) [
  | some r ↦ some (bit_and (f.value_at r.target_index) r.view_mask)
  | none ↦ elim (row_of a) [ none ↦ none | some _ ↦ some (f.value_at a) ]
]

unfoldable pub read_uncheck_privilege : CsrRegFile → ℕ → Option ℕ
unfolding read_register
read_uncheck_privilege f a =
    if a == 0x001
    then some (bit_and (f.value_at fcsr) 0b11111)
    else if a == 0x002
    then some (bit_and (shr (f.value_at fcsr) 5) 0b111)
    else if a == 0x009
    then some (bit_and (f.value_at vcsr) 0b1)
    else if a == 0x00a
    then some (bit_and (shr (f.value_at vcsr) 1) 0b11)
    else read_register f a

abbrev pub set_current_privileged : CsrRegFile → PrivilegeLevel → CsrRegFile
set_current_privileged f level = record f { cpl = level }
