-- ===== src/Mmu/Manager/Refused.antt =====
-- An access that the page tables refuse.
use mathlib.Core.Option
use here.Base.{Option, Result, ap, arith, err, none, refl, some, ℕ, ◌∙◌, ◌≡◌}
use here.Word.{Width}
use here.Device.{MemError}
use here.Mmio.{DeviceArena}
use here.Mmu.Config.{AccessEffect, PageTableError, PermissionCheck, fault_on_clear}
use here.Mmu.Manager.{
  VirtAddrManager, manager_translate, read_with_policy, translate_with_policy, with_ram,
  write_with_policy,
}
use here.Mmu.PageTable.{Translated, translate_vaddr}
use here.Mmu.PageTable.Tlb.{
  IsFresh, translate_by_walk, translate_vaddr-IsFresh, translate_vaddr-refines,
}
use here.Mmu.Policy.{translated}
use here.Ram.{Ram}

module _ (A : DeviceArena) where
  translated_or_not :
      (o : Option Translated) (e : PageTableError) (ram' : Ram)
      → Option.map {B = Result PageTableError ℕ × Ram} (λ t. (t.result, t.memory)) o
        ≡ some (err e, ram')
      → (t : Translated) × (o ≡ some t) × (t.result ≡ err e)
  translated_or_not none e ram' h = absurd (ground (arith, h))
  translated_or_not (some t) e ram' h = (t, refl, ground (arith, h))

  refused :
      (m : VirtAddrManager A) (addr : ℕ) (check : PermissionCheck) (effect : AccessEffect)
      (fault : MemError) (t : Translated) (e : PageTableError)
      → translate_vaddr m.page_table m.mmio.ram addr check effect ≡ some t
      → t.result ≡ err e
      → translate_with_policy A m addr (translated check effect fault)
        ≡ some (err fault, record { mmio = with_ram A m.mmio t.memory; page_table = t.walker })
  unfolding translate_with_policy manager_translate
  refused m addr check effect fault t e h r = ground (arith, h, r)

  -- Where hardware sets no A or D bit and the TLB holds what walks find, an address whose walk
  -- fails, in the table, in its flags or in the permission check, makes a read and a write fail
  -- with the policy's fault, and neither changes the RAM or a device.
  pub access-refused :
      (t : Width) (m : VirtAddrManager A) (addr v : ℕ) (check : PermissionCheck)
      (effect : AccessEffect) (fault : MemError) (e : PageTableError) (ram' : Ram)
      → m.page_table.ad_update_policy ≡ fault_on_clear
      → IsFresh m.page_table m.mmio.ram
      → translate_by_walk m.page_table m.mmio.ram addr check effect ≡ some (err e, ram')
      → (m' : VirtAddrManager A) × (read_with_policy A t m addr (translated check effect fault)
          ≡ some (err fault, m'))
        × (write_with_policy A t m addr v (translated check effect fault) ≡ some (err fault, m'))
        × (m'.mmio ≡ m.mmio)
  unfolding read_with_policy write_with_policy
  access-refused t m addr v check effect fault e ram' policy fresh walked =
      let walk = translate_vaddr-refines m.page_table m.mmio.ram addr check effect fresh in
      let (found, run, failed) =
        translated_or_not (translate_vaddr m.page_table m.mmio.ram addr check effect) e ram'
          (walk ∙ walked) in
      let (kept, _) =
        translate_vaddr-IsFresh m.page_table m.mmio.ram addr check effect found policy fresh run in
      let stop = refused m addr check effect fault found e run failed in
      (
        record { mmio = with_ram A m.mmio found.memory; page_table = found.walker },
        simp stop,
        simp stop,
        ap (with_ram A m.mmio) kept,
      )
