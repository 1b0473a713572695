-- ===== src/Trap/Controller/Return.antt =====
-- The return from a machine-level handler.
use here.Base.{
  arith, if◌then◌else◌, inl, inr, refl, some, ℕ, ◌+◌, ◌<◌, ◌==◌, ◌^◌, ◌∙◌, ◌≡◌, ◌≤◌, ◌⊎◌,
}
use here.Csr.{PrivilegeLevel, level_of, machine, supervisor, try_from, user, virtual}
use here.Csr.Fields.{field_of_lt}
use here.Csr.File.{
  CsrRegFile, field_of, read_uncheck_privilege, resolve_shadow_addr, set_current_privileged,
  set_field,
}
use here.Csr.Table.Machine.{mepc, mstatus, mtvec}
use here.Trap.{Trap, trap_into}
use here.Trap.Controller.{Cpu, mret, next_pc_by_tvec, send_trap_signal_m_mode, ◌>>=◌}
use here.Trap.Controller.Machine.{send_trap_signal_m_mode-IsMachineEntry}
use here.Trap.Controller.Status.{
  get_field-mstatus, mie-IsWritable, mpie-IsWritable, mpp-IsWritable, mprv-IsWritable, read_other,
  read_self, set_field-mstatus, with_field,
}

-- What `mret` leaves when MPP holds a level below the machine's: the level and the interrupt
-- enable of MPP and MPIE, with MPRV cleared and MPP at the user level.
pub record IsMachineReturn (cpu : Cpu) (level : PrivilegeLevel) (cpu' : Cpu) : Type 0 where
  pub level_restored : cpu'.csr.cpl ≡ level
  pub pc_restored : cpu'.pc ≡ cpu.csr.value_at mepc
  pub mie_restored :
      field_of (cpu'.csr.value_at mstatus) 3 1 ≡ field_of (cpu.csr.value_at mstatus) 7 1
  pub mpie_set : field_of (cpu'.csr.value_at mstatus) 7 1 ≡ 1
  pub mpp_cleared : field_of (cpu'.csr.value_at mstatus) 11 2 ≡ 0
  pub mprv_kept :
      field_of (cpu'.csr.value_at mstatus) 17 1
      ≡ (if level_of level == 3 then field_of (cpu.csr.value_at mstatus) 17 1 else 0)

try_from-level_of : (l : PrivilegeLevel) → try_from (level_of l) ≡ some l
try_from-level_of user = refl
try_from-level_of supervisor = refl
try_from-level_of virtual = refl
try_from-level_of machine = refl

module _ (cpu : Cpu) (level : PrivilegeLevel) where
  previous : ℕ
  previous = field_of (cpu.csr.value_at mstatus) 7 1

  previous_lt : previous < 2 ^ 1
  unfolding previous
  previous_lt = field_of_lt (cpu.csr.value_at mstatus) 7 1 (omega arith)

  enabled_back : CsrRegFile
  enabled_back = with_field (with_field cpu.csr 3 1 previous) 7 1 1

  mprv_done : CsrRegFile
  mprv_done = if level_of level == 3 then enabled_back else with_field enabled_back 17 1 0

  returned : CsrRegFile
  returned = with_field (set_current_privileged mprv_done level) 11 2 0

  still_mpp :
      field_of (enabled_back.value_at mstatus) 11 2 ≡ field_of (cpu.csr.value_at mstatus) 11 2
  unfolding enabled_back
  still_mpp =
      read_other (with_field cpu.csr 3 1 previous) 7 1 1 11 2 (omega arith) (omega arith)
        (omega arith) (inl (omega arith))
      ∙ read_other cpu.csr 3 1 previous 11 2 (omega arith) (omega arith) previous_lt
          (inl (omega arith))

  mprv_step :
      (if level_of level == 3 then some enabled_back else set_field enabled_back mstatus 17 1 0)
      ≡ some mprv_done
  unfolding mprv_done
  mprv_step = ground (arith, set_field-mstatus enabled_back 17 1 0 (omega arith) (omega arith))

  read_mepc : read_uncheck_privilege enabled_back mepc ≡ some (cpu.csr.value_at mepc)
  unfolding read_uncheck_privilege resolve_shadow_addr enabled_back
  read_mepc = refl

  back :
      field_of (cpu.csr.value_at mstatus) 11 2 ≡ level_of level
      → mret cpu ≡ some (record { csr = returned; pc = cpu.csr.value_at mepc })
  unfolding mret returned mprv_done enabled_back previous
  back h = simp (
    get_field-mstatus cpu.csr 7 1,
    set_field-mstatus cpu.csr 3 1 previous (omega arith) previous_lt,
    set_field-mstatus (with_field cpu.csr 3 1 previous) 7 1 1 (omega arith) (omega arith),
    read_mepc,
    get_field-mstatus enabled_back 11 2,
    still_mpp,
    h,
    mprv_step,
    try_from-level_of level,
    set_field-mstatus (set_current_privileged mprv_done level) 11 2 0 (omega arith) (omega arith),
  )

  mprv_other :
      (low len : ℕ)
      → low + len ≤ 17
      → field_of (mprv_done.value_at mstatus) low len
        ≡ field_of (enabled_back.value_at mstatus) low len
  unfolding mprv_done
  mprv_other low len h = ground (
    arith,
    read_other enabled_back 17 1 0 low len (omega arith) (omega arith) (omega arith)
        (inr (omega arith)),
  )

  last_other :
      (low len : ℕ)
      → low + len ≤ 64
      → (11 + 2 ≤ low) ⊎ (low + len ≤ 11)
      → field_of (returned.value_at mstatus) low len ≡ field_of (mprv_done.value_at mstatus) low len
  unfolding returned
  last_other low len h apart =
      read_other (set_current_privileged mprv_done level) 11 2 0 low len (omega arith) h
        (omega arith) apart

  still_mprv :
      field_of (enabled_back.value_at mstatus) 17 1 ≡ field_of (cpu.csr.value_at mstatus) 17 1
  unfolding enabled_back
  still_mprv =
      read_other (with_field cpu.csr 3 1 previous) 7 1 1 17 1 (omega arith) (omega arith)
        (omega arith) (inl (omega arith))
      ∙ read_other cpu.csr 3 1 previous 17 1 (omega arith) (omega arith) previous_lt
          (inl (omega arith))

  mprv_read :
      field_of (mprv_done.value_at mstatus) 17 1
      ≡ (if level_of level == 3 then field_of (cpu.csr.value_at mstatus) 17 1 else 0)
  unfolding mprv_done
  mprv_read =
      ground (
        arith,
        still_mprv,
        read_self enabled_back 17 1 0 (omega arith) (omega arith) mprv-IsWritable,
      )

  level_kept : returned.cpl ≡ level
  unfolding returned
  level_kept = refl

  mie_back : field_of (enabled_back.value_at mstatus) 3 1 ≡ field_of (cpu.csr.value_at mstatus) 7 1
  unfolding enabled_back previous
  mie_back =
      read_other (with_field cpu.csr 3 1 previous) 7 1 1 3 1 (omega arith) (omega arith)
        (omega arith) (inr (omega arith))
      ∙ read_self cpu.csr 3 1 previous (omega arith) previous_lt mie-IsWritable

  mpie_back : field_of (enabled_back.value_at mstatus) 7 1 ≡ 1
  unfolding enabled_back
  mpie_back =
      read_self (with_field cpu.csr 3 1 previous) 7 1 1 (omega arith) (omega arith) mpie-IsWritable

  mpp_back : field_of (returned.value_at mstatus) 11 2 ≡ 0
  unfolding returned
  mpp_back =
      read_self (set_current_privileged mprv_done level) 11 2 0 (omega arith) (omega arith)
        mpp-IsWritable

  restored : IsMachineReturn cpu level (record { csr = returned; pc = cpu.csr.value_at mepc })
  restored = record {
    level_restored = level_kept;
    pc_restored = refl;
    mie_restored =
        last_other 3 1 (omega arith) (inr (omega arith)) ∙ mprv_other 3 1 (omega arith) ∙ mie_back;
    mpie_set =
        last_other 7 1 (omega arith) (inr (omega arith)) ∙ mprv_other 7 1 (omega arith) ∙ mpie_back;
    mpp_cleared = mpp_back;
    mprv_kept = last_other 17 1 (omega arith) (inl (omega arith)) ∙ mprv_read;
  }

-- Where MPP holds a level, `mret` does not panic: it restores that level, MIE and the pc, and leaves
-- MPIE set, MPP at the user level and MPRV cleared unless the level is the machine's.
pub mret-IsMachineReturn :
    (cpu : Cpu) (level : PrivilegeLevel)
    → field_of (cpu.csr.value_at mstatus) 11 2 ≡ level_of level
    → (cpu' : Cpu) × (mret cpu ≡ some cpu') × IsMachineReturn cpu level cpu'
mret-IsMachineReturn cpu level h = (
  record { csr = returned cpu level; pc = cpu.csr.value_at mepc },
  back cpu level h,
  restored cpu level,
)

-- A trap into the machine level followed by `mret` does not panic and resumes the interrupted code
-- at the same pc and level and with the same MIE, where the cause has a code, the handler's address
-- is defined, and code, pc and trap value are words.
pub mret-send_trap_signal_m_mode :
    (cpu : Cpu) (cause : Trap) (code tval target : ℕ)
    → trap_into cause ≡ some code
    → code < 2 ^ 64
    → cpu.pc < 2 ^ 64
    → tval < 2 ^ 64
    → next_pc_by_tvec cause
        (field_of (cpu.csr.value_at mtvec) 0 2)
        (field_of (cpu.csr.value_at mtvec) 2 62)
      ≡ some target
    → (cpu' : Cpu) × (send_trap_signal_m_mode cpu cause tval >>= mret ≡ some cpu')
      × (cpu'.pc ≡ cpu.pc)
      × (cpu'.csr.cpl ≡ cpu.csr.cpl)
      × (field_of (cpu'.csr.value_at mstatus) 3 1 ≡ field_of (cpu.csr.value_at mstatus) 3 1)
mret-send_trap_signal_m_mode cpu cause code tval target hc lc lp lt ht =
    let (c1, sent, at) =
      send_trap_signal_m_mode-IsMachineEntry cpu cause code tval target hc lc lp lt ht in
    let (c2, left, to) = mret-IsMachineReturn c1 cpu.csr.cpl at.mpp_kept in
    (
      c2,
      simp (sent, left),
      to.pc_restored ∙ at.epc_set,
      to.level_restored,
      to.mie_restored ∙ at.mpie_kept,
    )
