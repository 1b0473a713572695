-- ===== src/Mmu/Manager/Examples.antt =====
-- A manager in Sv39 with a reservation, and an address that is not canonical.
use here.Ram
use here.Base.{Bool, Result, [], err, ok, refl, some, ◌^◌, ◌≡◌}
use here.Word.{is_sign_extended, word}
use here.Device.{MemError, store_page_fault}
use here.Mmio.{DeviceArena}
use here.Mmu.Config.{PermissionCheck, accessed_dirty, is_canonical_vaddr, page39bit, page_fault}
use here.Mmu.Manager.{VirtAddrManager, read_with_policy, translate_with_policy, write_with_policy}
use here.Mmu.Manager.Refused.{access-refused}
use here.Mmu.PageTable.{translate_vaddr, walker_new}
use here.Mmu.PageTable.Tlb.{translate_by_walk, walker_new-IsFresh}
use here.Mmu.Policy.{AccessPolicy, translated}
use here.Ram.{Ram, reservation_new}

abbrev silent : DeviceArena
silent = record {
  State = Unit {0};
  device_read = λ s _ _ _. (ok 0, s);
  device_write = λ s _ _ _ _. (ok tt, s);
}

abbrev manager : VirtAddrManager silent
manager = record {
  mmio = record {
    map = [];
    ram = record (Ram.new 0) { reserved = some (reservation_new 64) };
    devices = tt;
  };
  page_table = walker_new 0x8000_1000 page39bit;
}

abbrev anything : PermissionCheck
anything = record { any_of = 0; exact_mask = 0; exact_flags = 0 }

abbrev store_policy : AccessPolicy
store_policy = translated anything accessed_dirty store_page_fault

not_canonical :
    translate_with_policy silent manager (2 ^ 39) store_policy
    ≡ some (err store_page_fault, manager)
unfolding translate_with_policy translate_vaddr walker_new is_canonical_vaddr is_sign_extended
not_canonical = refl

abbrev refused : Result MemError Bool
refused = err store_page_fault

access-refused_example :
    (m' : VirtAddrManager silent) × (read_with_policy silent word manager (2 ^ 39) store_policy
      ≡ some (err store_page_fault, m'))
    × (write_with_policy silent word manager (2 ^ 39) 7 store_policy
        ≡ some (err store_page_fault, m'))
    × (m'.mmio ≡ manager.mmio)
unfolding walker_new translate_by_walk is_canonical_vaddr is_sign_extended
access-refused_example =
    access-refused silent word manager (2 ^ 39) 7 anything accessed_dirty store_page_fault
      page_fault manager.mmio.ram refl (walker_new-IsFresh 0x8000_1000 page39bit manager.mmio.ram)
      refl
