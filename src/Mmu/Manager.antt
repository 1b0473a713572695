-- ===== src/Mmu/Manager.antt =====
-- src/isa/riscv/mmu/mod.rs: `VirtAddrManager`, which joins the walker and the bus. The walker and
-- the bus share one RAM, which the bus holds here. `none` is the panic of a walk in an unsupported
-- mode or of a mode that is not supported.
pub mod Reserve
pub mod Refused
mod Examples
use here.Base.{
  Bool, Option, Result, err, if◌then◌else◌, leb, ltb, map_err, none, not, ok, some, ℕ, ◌&&◌, ◌+◌,
  ◌-◌,
}
use here.Word.{Width, base_addr, check_align, ram_size, shl, size_of}
use here.Device.{MemError, load_misaligned, load_page_fault, store_misaligned, store_page_fault}
use here.Mmio.{
  DeviceArena, MemoryMapIo, bus_clear_reservation, bus_load_reserved, bus_store_conditional,
  read_by_type, write_by_type,
}
use here.Mmu.Config.{
  AccessEffect, AdUpdatePolicy, PageTableError, PermissionCheck, bare, page_size_xlen, untouched,
}
use here.Mmu.PageTable.{
  PageTableWalker, flush_tlb, set_ad_update_policy, set_mode, set_root_addr, translate_vaddr,
  walker_new,
}
use here.Mmu.Policy.{AccessPolicy, direct, translated}
use here.Ram.{Ram, load_bytes, store_bytes, try_invalidate_reservation}
use here.Trap.{Exception, except_store_fault, except_store_misaligned, except_store_page_fault}

module _ (A : DeviceArena) where
  pub record VirtAddrManager : Type 0 where
    pub mmio : MemoryMapIo A
    pub page_table : PageTableWalker

  unfoldable pub from_ram_and_mmio : MemoryMapIo A → VirtAddrManager
  from_ram_and_mmio io = record { mmio = io; page_table = walker_new 0 bare }

  abbrev pub with_ram : MemoryMapIo A → Ram → MemoryMapIo A
  with_ram io ram = record io { ram = ram }

  -- The manager's own `translate_vaddr`
  unfoldable pub manager_translate :
      VirtAddrManager
      → ℕ
      → PermissionCheck
      → AccessEffect
      → Option (Result PageTableError ℕ × VirtAddrManager)
  manager_translate m vaddr check effect =
      elim (translate_vaddr m.page_table m.mmio.ram vaddr check effect) [
        | none ↦ none
        | some t ↦
            some (t.result, record { mmio = with_ram m.mmio t.memory; page_table = t.walker })
      ]

  unfoldable pub translate_with_policy :
      VirtAddrManager → ℕ → AccessPolicy → Option (Result MemError ℕ × VirtAddrManager)
  unfolding manager_translate
  translate_with_policy m vaddr policy = elim policy [
    | direct ↦ some (ok vaddr, m)
    | translated check effect fault ↦ elim (manager_translate m vaddr check effect) [
      | none ↦ none
      | some (r, m') ↦ some (map_err (λ _. fault) r, m')
    ]
  ]

  abbrev with_mmio : VirtAddrManager → MemoryMapIo A → VirtAddrManager
  with_mmio m io = record m { mmio = io }

  -- An operation on the bus at the translated address.
  abbrev pub then_at :
      {T : Type 0}
      → Option (Result MemError ℕ × VirtAddrManager)
      → (VirtAddrManager → ℕ → Result MemError T × VirtAddrManager)
      → Option (Result MemError T × VirtAddrManager)
  then_at none use_paddr = none
  then_at (some (err e, m)) use_paddr = some (err e, m)
  then_at (some (ok paddr, m)) use_paddr = some (use_paddr m paddr)

  unfoldable pub read_with_policy :
      Width → VirtAddrManager → ℕ → AccessPolicy → Option (Result MemError ℕ × VirtAddrManager)
  read_with_policy t m addr policy =
      then_at (translate_with_policy m addr policy)
        (λ m' paddr. let (r, io) = read_by_type A t m'.mmio paddr in (r, with_mmio m' io))

  unfoldable pub write_with_policy :
      Width
      → VirtAddrManager
      → ℕ
      → ℕ
      → AccessPolicy
      → Option (Result MemError (Unit {0}) × VirtAddrManager)
  write_with_policy t m addr v policy =
      then_at (translate_with_policy m addr policy)
        (λ m' paddr. let (r, io) = write_by_type A t m'.mmio paddr v in (r, with_mmio m' io))

  unfoldable pub load_reserved_with_policy :
      Width → VirtAddrManager → ℕ → AccessPolicy → Option (Result MemError ℕ × VirtAddrManager)
  load_reserved_with_policy t m addr policy =
      if not (check_align t addr)
      then some (err load_misaligned, m)
      else then_at (translate_with_policy m addr policy)
          (λ m' paddr. let (r, io) = bus_load_reserved A t m'.mmio paddr in (r, with_mmio m' io))

  unfoldable pub store_conditional_with_policy :
      Bool
      → Width
      → VirtAddrManager
      → ℕ
      → ℕ
      → AccessPolicy
      → Option (Result MemError Bool × VirtAddrManager)
  store_conditional_with_policy debug t m addr v policy =
      if not (check_align t addr)
      then some (err store_misaligned, with_mmio m (bus_clear_reservation A m.mmio))
      else then_at (translate_with_policy m addr policy) (λ m' paddr.
        let (r, io) = bus_store_conditional A debug t m'.mmio paddr v in
        (r, with_mmio m' (bus_clear_reservation A io)))

  unfoldable pub read_by_paddr : Width → VirtAddrManager → ℕ → Result MemError ℕ × VirtAddrManager
  read_by_paddr t m paddr = let (r, io) = read_by_type A t m.mmio paddr in (r, with_mmio m io)

  unfoldable pub write_by_paddr :
      Width → VirtAddrManager → ℕ → ℕ → Result MemError (Unit {0}) × VirtAddrManager
  write_by_paddr t m paddr v = let (r, io) = write_by_type A t m.mmio paddr v in (r, with_mmio m io)

  abbrev any_page : PermissionCheck
  any_page = record { any_of = 0; exact_mask = 0; exact_flags = 0 }

  -- The debugger's accesses at a virtual address; at a physical address they are the two above.
  unfoldable pub debug_read :
      Width → VirtAddrManager → ℕ → Option (Result MemError ℕ × VirtAddrManager)
  debug_read t m addr = elim (manager_translate m addr any_page untouched) [
    | none ↦ none
    | some (ok paddr, m') ↦ some (read_by_paddr t m' paddr)
    | some (err _, m') ↦ some (err load_page_fault, m')
  ]

  unfoldable pub debug_write :
      Width → VirtAddrManager → ℕ → ℕ → Option (Result MemError (Unit {0}) × VirtAddrManager)
  debug_write t m addr v = elim (manager_translate m addr any_page untouched) [
    | none ↦ none
    | some (ok paddr, m') ↦ some (write_by_paddr t m' paddr v)
    | some (err _, m') ↦ some (err store_page_fault, m')
  ]

  unfoldable pub debug_vaddr_to_paddr :
      VirtAddrManager → ℕ → Option (Result PageTableError ℕ × VirtAddrManager)
  debug_vaddr_to_paddr m vaddr = manager_translate m vaddr any_page untouched

  unfoldable pub translate_for_debug_with_policy :
      VirtAddrManager → ℕ → AccessPolicy → Option (Result PageTableError ℕ × VirtAddrManager)
  translate_for_debug_with_policy m addr policy = elim policy [
    | direct ↦ some (ok addr, m)
    | translated check effect fault ↦ manager_translate m addr check effect
  ]

  unfoldable pub manager_set_mode : VirtAddrManager → ℕ → Option VirtAddrManager
  manager_set_mode m mode = elim (set_mode m.page_table mode) [
    | none ↦ none
    | some w ↦ some (record m { page_table = w })
  ]

  unfoldable pub set_root_ppn : VirtAddrManager → ℕ → VirtAddrManager
  set_root_ppn m n = record m { page_table = set_root_addr m.page_table (shl n page_size_xlen) }

  unfoldable pub manager_set_ad_update_policy : VirtAddrManager → AdUpdatePolicy → VirtAddrManager
  manager_set_ad_update_policy m policy = record m {
    page_table = set_ad_update_policy m.page_table policy;
  }

  unfoldable pub manager_flush_tlb : VirtAddrManager → VirtAddrManager
  manager_flush_tlb m = record m { page_table = flush_tlb m.page_table }

  -- The exclusive access of an AMO to its cell: `f` gives the result and what is then in the cell.
  abbrev update_cell : Width → Ram → ℕ → (ℕ → Result Exception ℕ × ℕ) → Result Exception ℕ × Ram
  update_cell t ram at f =
      let (r, v) = f (load_bytes (size_of t) ram.data_at at) in
      let ram' = record ram { data_at = store_bytes (size_of t) ram.data_at at v } in
      (r, elim r [ ok _ ↦ try_invalidate_reservation ram' at | err _ ↦ ram' ])

  unfoldable pub amo_at :
      Width
      → VirtAddrManager
      → ℕ
      → (ℕ → Result Exception ℕ × ℕ)
      → Result Exception ℕ × VirtAddrManager
  amo_at t m paddr f =
      if not (check_align t paddr)
      then (err except_store_misaligned, m)
      else if not (leb base_addr paddr && ltb paddr (base_addr + ram_size))
      then (err except_store_fault, m)
      else (let (r, ram') = update_cell t m.mmio.ram (paddr - base_addr) f in
          (r, with_mmio m (with_ram m.mmio ram')))

  unfoldable pub fetch_and_op_amo_with_policy :
      Width
      → VirtAddrManager
      → ℕ
      → AccessPolicy
      → (ℕ → Result Exception ℕ × ℕ)
      → Option (Result Exception ℕ × VirtAddrManager)
  unfolding amo_at
  fetch_and_op_amo_with_policy t m addr policy f = elim (translate_with_policy m addr policy) [
    | none ↦ none
    | some (err _, m') ↦ some (err except_store_page_fault, m')
    | some (ok paddr, m') ↦ some (amo_at t m' paddr f)
  ]
