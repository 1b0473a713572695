-- ===== src/Trap/Controller/Machine.antt =====
-- The entry into a machine-level handler.
use here.Base.{ap, arith, inl, inr, refl, some, ℕ, ◌-◌, ◌<◌, ◌^◌, ◌∙◌, ◌≡◌}
use here.Bits.{bit_and-zero, bit_and_ones, bit_or_sum}
use here.Word.{bit_ones, make_mask}
use here.Csr.{
  CsrReg_write, PrivilegeLevel, combine_validators, get_new_value, level_of, machine, supervisor,
  user, virtual,
}
use here.Csr.Fields.{field_of_lt}
use here.Csr.File.{
  CsrRegFile, field_of, get_field, resolve_shadow_addr, set_current_privileged, store_at,
  write_uncheck_privilege,
}
use here.Csr.Table.Machine.{mcause, mepc, mstatus, mtval, mtvec}
use here.Trap.{Trap, trap_into}
use here.Trap.Controller.{Cpu, next_pc_by_tvec, send_trap_signal_m_mode}
use here.Trap.Controller.Status.{
  get_field-mstatus, mie-IsWritable, mpie-IsWritable, mpp-IsWritable, read_other, read_self,
  set_field-mstatus, with_field,
}

full_mask : (old v : ℕ) → v < 2 ^ 64 → get_new_value (2 ^ 64 - 1) old v ≡ v
unfolding get_new_value
full_mask old v h = ground (arith, bit_and-zero old, bit_and_ones 64 v, bit_or_sum 64 0 v h)

write_mcause :
    (f : CsrRegFile) (v : ℕ) → v < 2 ^ 64 → write_uncheck_privilege f mcause v ≡ store_at f mcause v
unfolding write_uncheck_privilege resolve_shadow_addr CsrReg_write combine_validators make_mask
    bit_ones
write_mcause f v h = ap (store_at f mcause) (full_mask (f.value_at mcause) v h)

write_mepc :
    (f : CsrRegFile) (v : ℕ) → v < 2 ^ 64 → write_uncheck_privilege f mepc v ≡ store_at f mepc v
unfolding write_uncheck_privilege resolve_shadow_addr CsrReg_write combine_validators make_mask
    bit_ones
write_mepc f v h = ap (store_at f mepc) (full_mask (f.value_at mepc) v h)

write_mtval :
    (f : CsrRegFile) (v : ℕ) → v < 2 ^ 64 → write_uncheck_privilege f mtval v ≡ store_at f mtval v
unfolding write_uncheck_privilege resolve_shadow_addr CsrReg_write combine_validators make_mask
    bit_ones
write_mtval f v h = ap (store_at f mtval) (full_mask (f.value_at mtval) v h)

-- A machine-level handler entered from `cpu`: the level and MIE are kept in MPP and MPIE, the
-- cause, the pc and the value are in their registers, and interrupts are off.
pub record IsMachineEntry (cpu : Cpu) (code tval target : ℕ) (cpu' : Cpu) : Type 0 where
  pub at_machine : cpu'.csr.cpl ≡ machine
  pub mpp_kept : field_of (cpu'.csr.value_at mstatus) 11 2 ≡ level_of cpu.csr.cpl
  pub mie_off : field_of (cpu'.csr.value_at mstatus) 3 1 ≡ 0
  pub mpie_kept : field_of (cpu'.csr.value_at mstatus) 7 1 ≡ field_of (cpu.csr.value_at mstatus) 3 1
  pub cause_set : cpu'.csr.value_at mcause ≡ code
  pub epc_set : cpu'.csr.value_at mepc ≡ cpu.pc
  pub tval_set : cpu'.csr.value_at mtval ≡ tval
  pub pc_set : cpu'.pc ≡ target

get_field-mtvec :
    (f : CsrRegFile) (low len : ℕ)
    → get_field f mtvec low len ≡ some (field_of (f.value_at mtvec) low len)
unfolding get_field resolve_shadow_addr
get_field-mtvec f low len = refl

pub level_lt : (l : PrivilegeLevel) → level_of l < 2 ^ 2
level_lt user = omega arith
level_lt supervisor = omega arith
level_lt virtual = omega arith
level_lt machine = omega arith

module _ (cpu : Cpu) (code tval : ℕ) where
  levelled : CsrRegFile
  levelled = set_current_privileged (with_field cpu.csr 11 2 (level_of cpu.csr.cpl)) machine

  recorded : CsrRegFile
  recorded = store_at (store_at (store_at levelled mcause code) mepc cpu.pc) mtval tval

  enabled_lt : field_of (recorded.value_at mstatus) 3 1 < 2 ^ 1
  enabled_lt = field_of_lt (recorded.value_at mstatus) 3 1 (omega arith)

  saved : CsrRegFile
  saved = with_field recorded 7 1 (field_of (recorded.value_at mstatus) 3 1)

  entered : CsrRegFile
  entered = with_field saved 3 1 0

  run :
      (cause : Trap) (target : ℕ)
      → trap_into cause ≡ some code
      → code < 2 ^ 64
      → cpu.pc < 2 ^ 64
      → tval < 2 ^ 64
      → next_pc_by_tvec cause
          (field_of (cpu.csr.value_at mtvec) 0 2)
          (field_of (cpu.csr.value_at mtvec) 2 62)
        ≡ some target
      → send_trap_signal_m_mode cpu cause tval ≡ some (record { csr = entered; pc = target })
  unfolding send_trap_signal_m_mode entered saved recorded levelled
  run cause target hc lc lp lt ht = simp (
    set_field-mstatus cpu.csr 11 2 (level_of cpu.csr.cpl) (omega arith) (level_lt cpu.csr.cpl),
    hc,
    write_mcause levelled code lc,
    write_mepc (store_at levelled mcause code) cpu.pc lp,
    write_mtval (store_at (store_at levelled mcause code) mepc cpu.pc) tval lt,
    get_field-mstatus recorded 3 1,
    set_field-mstatus recorded 7 1 (field_of (recorded.value_at mstatus) 3 1) (omega arith)
        enabled_lt,
    set_field-mstatus saved 3 1 0 (omega arith) (omega arith),
    get_field-mtvec entered 0 2,
    get_field-mtvec entered 2 62,
    ht,
  )

  entry : (target : ℕ) → IsMachineEntry cpu code tval target (record { csr = entered; pc = target })
  unfolding entered saved recorded levelled
  entry target = record {
    at_machine = refl;
    mpp_kept =
        read_other saved 3 1 0 11 2 (omega arith) (omega arith) (omega arith) (inl (omega arith))
        ∙ read_other recorded 7 1 (field_of (recorded.value_at mstatus) 3 1) 11 2 (omega arith)
            (omega arith) enabled_lt (inl (omega arith))
        ∙ read_self cpu.csr 11 2 (level_of cpu.csr.cpl) (omega arith) (level_lt cpu.csr.cpl)
            mpp-IsWritable;
    mie_off = read_self saved 3 1 0 (omega arith) (omega arith) mie-IsWritable;
    mpie_kept =
        read_other saved 3 1 0 7 1 (omega arith) (omega arith) (omega arith) (inl (omega arith))
        ∙ read_self recorded 7 1 (field_of (recorded.value_at mstatus) 3 1) (omega arith) enabled_lt
            mpie-IsWritable
        ∙ read_other cpu.csr 11 2 (level_of cpu.csr.cpl) 3 1 (omega arith) (omega arith)
            (level_lt cpu.csr.cpl) (inr (omega arith));
    cause_set = refl;
    epc_set = refl;
    tval_set = refl;
    pc_set = refl;
  }

-- A machine-level entry for a cause with a code, whose handler's address is defined, where code,
-- pc and trap value are words, does not panic and enters the handler with the state saved.
pub send_trap_signal_m_mode-IsMachineEntry :
    (cpu : Cpu) (cause : Trap) (code tval target : ℕ)
    → trap_into cause ≡ some code
    → code < 2 ^ 64
    → cpu.pc < 2 ^ 64
    → tval < 2 ^ 64
    → next_pc_by_tvec cause
        (field_of (cpu.csr.value_at mtvec) 0 2)
        (field_of (cpu.csr.value_at mtvec) 2 62)
      ≡ some target
    → (cpu' : Cpu) × (send_trap_signal_m_mode cpu cause tval ≡ some cpu')
      × IsMachineEntry cpu code tval target cpu'
send_trap_signal_m_mode-IsMachineEntry cpu cause code tval target hc lc lp lt ht = (
  record { csr = entered cpu code tval; pc = target },
  run cpu code tval cause target hc lc lp lt ht,
  entry cpu code tval target,
)
