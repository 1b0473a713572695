-- ===== src/Trap/Controller/Supervisor.antt =====
-- The entry into a supervisor-level handler.
use here.Base.{arith, inl, inr, refl, some, ℕ, ◌<◌, ◌^◌, ◌∙◌, ◌≡◌}
use here.Csr.{level_of, supervisor}
use here.Csr.Fields.{field_of_lt}
use here.Csr.File.{
  CsrRegFile, field_of, get_field, resolve_shadow_addr, set_current_privileged, store_at,
  write_directly,
}
use here.Csr.Table.Lower.{scause, sepc, stval, stvec}
use here.Csr.Table.Machine.{mstatus}
use here.Trap.{Trap, trap_into}
use here.Trap.Controller.{Cpu, must_write_directly, next_pc_by_tvec, send_trap_signal_s_mode}
use here.Trap.Controller.Status.{
  get_field-sstatus, read_other, read_self, set_field-sstatus, sie-IsWritable, spie-IsWritable,
  spp-IsWritable, with_field,
}

get_field-stvec :
    (f : CsrRegFile) (low len : ℕ)
    → get_field f stvec low len ≡ some (field_of (f.value_at stvec) low len)
unfolding get_field resolve_shadow_addr
get_field-stvec f low len = refl

write_scause :
    (f : CsrRegFile) (v : ℕ) → must_write_directly f scause v ≡ some (store_at f scause v)
unfolding must_write_directly write_directly
write_scause f v = refl

write_sepc : (f : CsrRegFile) (v : ℕ) → must_write_directly f sepc v ≡ some (store_at f sepc v)
unfolding must_write_directly write_directly
write_sepc f v = refl

write_stval : (f : CsrRegFile) (v : ℕ) → must_write_directly f stval v ≡ some (store_at f stval v)
unfolding must_write_directly write_directly
write_stval f v = refl

-- A supervisor-level handler entered from `cpu`: the level and SIE are kept in SPP and SPIE, the
-- cause, the pc and the value are in their registers, and interrupts are off.
pub record IsSupervisorEntry (cpu : Cpu) (code tval target : ℕ) (cpu' : Cpu) : Type 0 where
  pub at_supervisor : cpu'.csr.cpl ≡ supervisor
  pub spp_kept : field_of (cpu'.csr.value_at mstatus) 8 1 ≡ level_of cpu.csr.cpl
  pub sie_off : field_of (cpu'.csr.value_at mstatus) 1 1 ≡ 0
  pub spie_kept : field_of (cpu'.csr.value_at mstatus) 5 1 ≡ field_of (cpu.csr.value_at mstatus) 1 1
  pub cause_set : cpu'.csr.value_at scause ≡ code
  pub epc_set : cpu'.csr.value_at sepc ≡ cpu.pc
  pub tval_set : cpu'.csr.value_at stval ≡ tval
  pub pc_set : cpu'.pc ≡ target

module _ (cpu : Cpu) (code tval : ℕ) (levels : level_of cpu.csr.cpl < 2 ^ 1) where
  levelled : CsrRegFile
  levelled = set_current_privileged (with_field cpu.csr 8 1 (level_of cpu.csr.cpl)) supervisor

  recorded : CsrRegFile
  recorded = store_at (store_at (store_at levelled scause code) sepc cpu.pc) stval tval

  enabled_lt : field_of (recorded.value_at mstatus) 1 1 < 2 ^ 1
  enabled_lt = field_of_lt (recorded.value_at mstatus) 1 1 (omega arith)

  saved : CsrRegFile
  saved = with_field recorded 5 1 (field_of (recorded.value_at mstatus) 1 1)

  entered : CsrRegFile
  entered = with_field saved 1 1 0

  run :
      (cause : Trap) (target : ℕ)
      → trap_into cause ≡ some code
      → next_pc_by_tvec cause
          (field_of (cpu.csr.value_at stvec) 0 2)
          (field_of (cpu.csr.value_at stvec) 2 62)
        ≡ some target
      → send_trap_signal_s_mode cpu cause tval ≡ some (record { csr = entered; pc = target })
  unfolding send_trap_signal_s_mode entered saved recorded levelled
  run cause target hc ht = simp (
    set_field-sstatus cpu.csr 8 1 (level_of cpu.csr.cpl) (omega arith) levels,
    hc,
    write_scause levelled code,
    write_sepc (store_at levelled scause code) cpu.pc,
    write_stval (store_at (store_at levelled scause code) sepc cpu.pc) tval,
    get_field-sstatus recorded 1 1,
    set_field-sstatus recorded 5 1 (field_of (recorded.value_at mstatus) 1 1) (omega arith)
        enabled_lt,
    set_field-sstatus saved 1 1 0 (omega arith) (omega arith),
    get_field-stvec entered 0 2,
    get_field-stvec entered 2 62,
    ht,
  )

  entry :
      (target : ℕ) → IsSupervisorEntry cpu code tval target (record { csr = entered; pc = target })
  unfolding entered saved recorded levelled
  entry target = record {
    at_supervisor = refl;
    spp_kept =
        read_other saved 1 1 0 8 1 (omega arith) (omega arith) (omega arith) (inl (omega arith))
        ∙ read_other recorded 5 1 (field_of (recorded.value_at mstatus) 1 1) 8 1 (omega arith)
            (omega arith) enabled_lt (inl (omega arith))
        ∙ read_self cpu.csr 8 1 (level_of cpu.csr.cpl) (omega arith) levels spp-IsWritable;
    sie_off = read_self saved 1 1 0 (omega arith) (omega arith) sie-IsWritable;
    spie_kept =
        read_other saved 1 1 0 5 1 (omega arith) (omega arith) (omega arith) (inl (omega arith))
        ∙ read_self recorded 5 1 (field_of (recorded.value_at mstatus) 1 1) (omega arith) enabled_lt
            spie-IsWritable
        ∙ read_other cpu.csr 8 1 (level_of cpu.csr.cpl) 1 1 (omega arith) (omega arith) levels
            (inr (omega arith));
    cause_set = refl;
    epc_set = refl;
    tval_set = refl;
    pc_set = refl;
  }

-- A supervisor-level entry from the user or the supervisor level for a cause with a code, whose handler's address is defined, does not
-- panic and enters the handler with the state saved.
pub send_trap_signal_s_mode-IsSupervisorEntry :
    (cpu : Cpu) (cause : Trap) (code tval target : ℕ)
    → level_of cpu.csr.cpl < 2 ^ 1
    → trap_into cause ≡ some code
    → next_pc_by_tvec cause
        (field_of (cpu.csr.value_at stvec) 0 2)
        (field_of (cpu.csr.value_at stvec) 2 62)
      ≡ some target
    → (cpu' : Cpu) × (send_trap_signal_s_mode cpu cause tval ≡ some cpu')
      × IsSupervisorEntry cpu code tval target cpu'
send_trap_signal_s_mode-IsSupervisorEntry cpu cause code tval target levels hc ht = (
  record { csr = entered cpu code tval levels; pc = target },
  run cpu code tval levels cause target hc ht,
  entry cpu code tval levels target,
)
