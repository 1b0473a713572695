-- ===== src/Hart.antt =====
-- src/isa/riscv/executor.rs, src/cpu/reg_file.rs, src/isa/riscv/mmu/cpu.rs and
-- src/isa/riscv/csr_reg/cpu.rs: the state of a hart, its registers and its accesses to memory and
-- CSRs. The floating point and vector units are not part of the state. An operation gives its
-- result beside the hart after it, or `none` for a panic.
pub mod Core
pub mod CsrAccess
pub mod Exec
pub mod System
pub mod Compress
pub mod Atomic
pub mod Mapping
pub mod Step
pub mod Batch
pub mod Zero
pub mod Cycles
pub mod Batches
pub mod Keeps
pub mod Expand
mod Examples
mod RunExamples
use here.Base.{
  Bool, Option, Result, bit_and, err, if◌then◌else◌, none, not, ok, some, true, update, ℕ, ◌%◌, ◌+◌,
  ◌==◌, ◌^◌,
}
use here.Word.{Width}
use here.Device.{MemError}
use here.Cache.Direct.{DirectCache, direct_new}
use here.Csr.File.{CsrRegFile, field_of, get_field, set_field}
use here.Csr.Table.Machine.{minstret, misa}
use here.Isa.{DecodeInstr}
use here.Mmio.{DeviceArena}
use here.Mmu.Manager.{
  VirtAddrManager, fetch_and_op_amo_with_policy, load_reserved_with_policy, manager_flush_tlb,
  read_with_policy, store_conditional_with_policy, write_with_policy,
}
use here.Mmu.Policy.{
  AccessPolicy, AccessType, read_access, read_write_access, resolve_data_policy,
  resolve_ifetch_policy, write_access,
}
use here.Trap.{Exception, from_memory_err}

-- `Misa::c_enabled`
unfoldable pub c_enabled : CsrRegFile → Bool
c_enabled f = not (bit_and (field_of (f.value_at misa) 0 25) 0b100 == 0)

-- `Minstret::wrapping_add`; the sum wraps as the release profile computes it.
unfoldable pub next_minstret : CsrRegFile → ℕ → Option CsrRegFile
next_minstret f n = elim (get_field f minstret 0 64) [
  | none ↦ none
  | some v ↦ set_field f minstret 0 64 ((v + n) % 2 ^ 64)
]

module _ (A : DeviceArena) where
  pub record RvCpu : Type 0 where
    pub reg_file : ℕ → ℕ
    pub pc : ℕ
    pub memory : VirtAddrManager A
    pub csr : CsrRegFile
    pub icache : DirectCache DecodeInstr
    pub icache_epoch : ℕ
    pub time_addr : Option ℕ
    pub pending_tval : Option ℕ

  -- An operation on a hart that may raise an exception.
  abbrev pub Op : Type 0 → Type 0
  Op T = RvCpu → Option (Result Exception T × RvCpu)

module _ {A : DeviceArena} where
  abbrev pub done : {T : Type 0} → T → Op A T
  done v cpu = some (ok v, cpu)

  abbrev pub raise : {T : Type 0} → Exception → Op A T
  raise e cpu = some (err e, cpu)

  infixl 5 ◌>>=◌
  abbrev pub ◌>>=◌ : {S T : Type 0} → Op A S → (S → Op A T) → Op A T
  (m >>= f) cpu = elim (m cpu) [
    | none ↦ none
    | some (err e, cpu') ↦ some (err e, cpu')
    | some (ok v, cpu') ↦ f v cpu'
  ]

  -- `RegFile::read` for one index, and `RegFile::write`
  abbrev pub reg : RvCpu A → ℕ → ℕ
  reg cpu id = cpu.reg_file id

  unfoldable pub reg_write : ℕ → ℕ → Op A (Unit {0})
  reg_write id v cpu =
      if id == 0
      then some (ok tt, cpu)
      else some (ok tt, record cpu { reg_file = update cpu.reg_file id v })

  unfoldable pub finish_memory_access :
      {T : Type 0} → ℕ → Option (Result MemError T × VirtAddrManager A) → Op A T
  finish_memory_access addr none cpu = none
  finish_memory_access addr (some (ok v, m)) cpu = some (ok v, record cpu { memory = m })
  finish_memory_access addr (some (err e, m)) cpu =
      some (err (from_memory_err e), record cpu { memory = m; pending_tval = some addr })

  -- The access under the policy that the CSRs ask for.
  abbrev pub with_data_policy : {T : Type 0} → AccessType → (AccessPolicy → Op A T) → Op A T
  with_data_policy access use_policy cpu = elim (resolve_data_policy cpu.csr access true) [
    | none ↦ none
    | some policy ↦ use_policy policy cpu
  ]

  unfoldable pub cpu_read : Width → ℕ → Op A ℕ
  unfolding finish_memory_access
  cpu_read t addr =
      with_data_policy read_access
        (λ policy cpu. finish_memory_access addr (read_with_policy A t cpu.memory addr policy) cpu)

  unfoldable pub cpu_write : Width → ℕ → ℕ → Op A (Unit {0})
  unfolding finish_memory_access
  cpu_write t addr v =
      with_data_policy write_access (λ policy cpu.
        finish_memory_access addr (write_with_policy A t cpu.memory addr v policy) cpu)

  unfoldable pub cpu_load_reserved : Width → ℕ → Op A ℕ
  unfolding finish_memory_access
  cpu_load_reserved t addr = with_data_policy read_access (λ policy cpu.
      finish_memory_access addr (load_reserved_with_policy A t cpu.memory addr policy) cpu)

  unfoldable pub cpu_store_conditional : Bool → Width → ℕ → ℕ → Op A Bool
  unfolding finish_memory_access
  cpu_store_conditional debug t addr v = with_data_policy write_access (λ policy cpu.
      finish_memory_access addr (store_conditional_with_policy A debug t cpu.memory addr v policy)
        cpu)

  unfoldable pub fetch_and_op_amo : Width → ℕ → (ℕ → Result Exception ℕ × ℕ) → Op A ℕ
  fetch_and_op_amo t addr f = with_data_policy read_write_access (λ policy cpu.
      elim (fetch_and_op_amo_with_policy A t cpu.memory addr policy f) [
        | none ↦ none
        | some (ok v, m) ↦ some (ok v, record cpu { memory = m })
        | some (err e, m) ↦ some (err e, record cpu { memory = m; pending_tval = some addr })
      ])

  -- Outside the monad: the fetch leaves the fault to its caller.
  unfoldable pub read_for_ifetch : Width → ℕ → RvCpu A → Option (Result MemError ℕ × RvCpu A)
  read_for_ifetch t addr cpu = elim (resolve_ifetch_policy cpu.csr true) [
    | none ↦ none
    | some policy ↦ elim (read_with_policy A t cpu.memory addr policy) [
      | none ↦ none
      | some (r, m) ↦ some (r, record cpu { memory = m })
    ]
  ]

  unfoldable pub flush_icache : RvCpu A → RvCpu A
  flush_icache cpu = record cpu {
    icache = direct_new;
    icache_epoch = (cpu.icache_epoch + 1) % 2 ^ 64;
  }

  unfoldable pub cpu_flush_tlb : RvCpu A → RvCpu A
  cpu_flush_tlb cpu = record cpu { memory = manager_flush_tlb A cpu.memory }

  unfoldable pub minstret_add : ℕ → Op A (Unit {0})
  unfolding next_minstret
  minstret_add n cpu = elim (next_minstret cpu.csr n) [
    | none ↦ none
    | some f ↦ some (ok tt, record cpu { csr = f })
  ]
