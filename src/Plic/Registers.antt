-- ===== src/Plic/Registers.antt =====
-- The register map of src/device/plic: `decode_register`, `read_register`, `write_register`.
pub mod Map
use here.Base.{Option, if◌then◌else◌, leb, ltb, none, not, some, ℕ, ◌%◌, ◌&&◌, ◌-◌, ◌/◌, ◌==◌, ◌^◌}
use here.Plic.BitReg.{plic_interrupt_words, read_word, register_bytes, virt_max_contexts}
use here.Plic.BitSet.{BitSet}
use here.Plic.Layout.{
  PlicLayout, is_valid_interrupt_id, read_claim, write_complete, write_enable_word, write_priority,
  write_priority_threshold,
}
use here.Plic.Layout.Invariant.{
  IsValid, read_claim-IsValid, write_complete-IsValid, write_enable_word-IsValid,
  write_priority-IsValid, write_priority_threshold-IsValid,
}

-- `PlicRegister` of src/device/plic/types.rs
pub data PlicRegister : Type 0 where
  source_priority : ℕ → PlicRegister
  pending_word : ℕ → PlicRegister
  enable_word : ℕ → ℕ → PlicRegister
  threshold : ℕ → PlicRegister
  claim_complete : ℕ → PlicRegister

abbrev pub pending_bit_offset : ℕ
pending_bit_offset = 0x001000

abbrev pub context_enable_bit_offset : ℕ
context_enable_bit_offset = 0x002000

abbrev pub context_enable_bit_size : ℕ
context_enable_bit_size = 0x80

abbrev pub context_config_offset : ℕ
context_config_offset = 0x200000

abbrev pub context_config_size : ℕ
context_config_size = 0x1000

abbrev pub plic_size : ℕ
plic_size = 0x400_0000

abbrev pub claim_complete_register_index : ℕ
claim_complete_register_index = 1

abbrev pub decode_priority : ℕ → Option PlicRegister
decode_priority addr =
    let id = addr / register_bytes % 2 ^ 32 in
    if is_valid_interrupt_id id then some (source_priority id) else none

abbrev pub decode_pending : ℕ → Option PlicRegister
decode_pending offset =
    let word_index = offset / register_bytes in
    if ltb word_index plic_interrupt_words then some (pending_word word_index) else none

abbrev pub decode_enable : ℕ → Option PlicRegister
decode_enable addr =
    let context = addr / context_enable_bit_size in
    let offset = addr % context_enable_bit_size in
    let word_index = offset / register_bytes in
    if ltb context virt_max_contexts && ltb word_index plic_interrupt_words
    then some (enable_word context word_index)
    else none

abbrev pub decode_config : ℕ → Option PlicRegister
decode_config addr =
    let context = addr / context_config_size in
    let offset = addr % context_config_size in
    let register_index = offset / register_bytes in
    if leb virt_max_contexts context
    then none
    else if register_index == 0
    then some (threshold context)
    else if register_index == claim_complete_register_index
    then some (claim_complete context)
    else none

unfoldable pub decode_register : ℕ → Option PlicRegister
decode_register addr =
    if not (addr % register_bytes == 0)
    then none
    else if ltb addr pending_bit_offset
    then decode_priority addr
    else if ltb addr context_enable_bit_offset
    then decode_pending (addr - pending_bit_offset)
    else if ltb addr context_config_offset
    then decode_enable (addr - context_enable_bit_offset)
    else if ltb addr plic_size
    then decode_config (addr - context_config_offset)
    else none

module _ (B : BitSet) where
  unfoldable pub read_register : PlicLayout B → PlicRegister → ℕ × PlicLayout B
  read_register l (source_priority id) = (l.priority id, l)
  read_register l (pending_word i) = (read_word l.pending i, l)
  read_register l (enable_word c i) = (read_word (l.contexts c).enable i, l)
  read_register l (threshold c) = ((l.contexts c).priority_threshold, l)
  read_register l (claim_complete c) = read_claim B l c

  unfoldable pub write_register : PlicLayout B → PlicRegister → ℕ → PlicLayout B
  write_register l (source_priority id) value = write_priority B l id value
  write_register l (enable_word c i) value = write_enable_word B l c i value
  write_register l (threshold c) value = write_priority_threshold B l c value
  write_register l (claim_complete c) value = write_complete B l c value
  write_register l (pending_word i) value = l

  pub read_register-IsValid :
      (l : PlicLayout B) (r : PlicRegister) → IsValid B l → IsValid B (read_register l r).1
  unfolding read_register
  read_register-IsValid l (claim_complete c) v = read_claim-IsValid B l c v
  read_register-IsValid l _ v = v

  pub write_register-IsValid :
      (l : PlicLayout B) (r : PlicRegister) (value : ℕ)
      → IsValid B l
      → IsValid B (write_register l r value)
  unfolding write_register
  write_register-IsValid l (source_priority id) value v = write_priority-IsValid B l id value v
  write_register-IsValid l (enable_word c i) value v = write_enable_word-IsValid B l c i value v
  write_register-IsValid l (threshold c) value v = write_priority_threshold-IsValid B l c value v
  write_register-IsValid l (claim_complete c) value v = write_complete-IsValid B l c value v
  write_register-IsValid l (pending_word i) value v = v
