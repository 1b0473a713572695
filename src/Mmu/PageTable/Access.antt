-- ===== src/Mmu/PageTable/Access.antt =====
-- What a translation that succeeds has checked, and the address it gives.
use mathlib.Core.Option
use here.Base.{
  Bool-cases, Option-cases, ap, arith, err, false, inl, inr, ok, some, sym, true, ℕ, ◌%◌, ◌+◌, ◌^◌,
  ◌∙◌, ◌≡◌, ◌≤◌,
}
use here.Mmu.Config.{
  AccessEffect, PermissionCheck, VirtualMemoryMode, fault_on_clear, from_paddr, from_vaddr,
  physical_addr,
}
use here.Mmu.PageTable.{
  PageTableWalker, Translated, WalkInfo, apply_ad_policy, canonical_in, is_bare, leaf_address,
  needs, page_shift, permits, top_level, translate_vaddr, use_leaf, walk_pte,
}
use here.Mmu.PageTable.Entry.{leaf_address-eq}
use here.Mmu.PageTable.Tlb.{IsFresh, translate_by_walk, translate_vaddr-refines}
use here.Mmu.PageTable.Walk.{IsGoodLeaf, walk_from-IsGoodLeaf}
use here.Ram.{Ram}

-- The use of a leaf succeeds only where the permission check holds.
use_leaf-ok :
    (w : PageTableWalker) (ram : Ram) (vaddr : ℕ) (check : PermissionCheck) (effect : AccessEffect)
    (info : WalkInfo) (paddr : ℕ)
    → (use_leaf w ram vaddr check effect info).0 ≡ ok paddr
    → (permits check info.leaf_flags ≡ true) × (paddr ≡ leaf_address info vaddr)
unfolding use_leaf apply_ad_policy
use_leaf-ok w ram vaddr check effect info paddr h = (ground (arith, h), ground (arith, h))

data OkCases (w : PageTableWalker) (ram : Ram) (vaddr : ℕ) (check : PermissionCheck)
    (effect : AccessEffect) (paddr : ℕ) : Type 0 where
  ok_bare :
      is_bare w.mode ≡ true → paddr ≡ physical_addr vaddr → OkCases w ram vaddr check effect paddr
  ok_leaf :
      (info : WalkInfo)
      → canonical_in w.mode vaddr ≡ true
      → walk_pte w ram (from_vaddr vaddr) ≡ some (ok info)
      → (use_leaf w ram vaddr check effect info).0 ≡ ok paddr
      → OkCases w ram vaddr check effect paddr

walk_cases :
    (w : PageTableWalker) (ram : Ram) (vaddr : ℕ) (check : PermissionCheck) (effect : AccessEffect)
    (paddr : ℕ) (after : Ram)
    → translate_by_walk w ram vaddr check effect ≡ some (ok paddr, after)
    → OkCases w ram vaddr check effect paddr
unfolding translate_by_walk
walk_cases w ram vaddr check effect paddr after h = elim (Bool-cases (is_bare w.mode)) [
  | inl b ↦ ok_bare b (ground (arith, b, h))
  | inr nb ↦ elim (Option-cases (walk_pte w ram (from_vaddr vaddr))) [
    | inl none_h ↦ absurd (ground (arith, h, nb, none_h))
    | inr (ok info, walked) ↦
        ok_leaf info (ground (arith, h, nb, walked)) walked (ground (arith, h, nb, walked))
    | inr (err e, walked) ↦ absurd (ground (arith, h, nb, walked))
  ]
]

use_leaf-needs :
    (w : PageTableWalker) (ram : Ram) (vaddr : ℕ) (check : PermissionCheck) (effect : AccessEffect)
    (info : WalkInfo) (paddr : ℕ)
    → w.ad_update_policy ≡ fault_on_clear
    → (use_leaf w ram vaddr check effect info).0 ≡ ok paddr
    → ((needs effect info.leaf_flags).0 ≡ false) × ((needs effect info.leaf_flags).1 ≡ false)
unfolding use_leaf apply_ad_policy
use_leaf-needs w ram vaddr check effect info paddr policy h =
    (ground (arith, h, policy), ground (arith, h, policy))

refined :
    (w : PageTableWalker) (ram : Ram) (vaddr : ℕ) (check : PermissionCheck) (effect : AccessEffect)
    (t : Translated) (paddr : ℕ)
    → IsFresh w ram
    → translate_vaddr w ram vaddr check effect ≡ some t
    → t.result ≡ ok paddr
    → translate_by_walk w ram vaddr check effect ≡ some (ok paddr, t.memory)
refined w ram vaddr check effect t paddr fresh h r =
    sym (translate_vaddr-refines w ram vaddr check effect fresh)
    ∙ ap (Option.map (λ t. (t.result, t.memory))) h
    ∙ ap (λ x. some (x, t.memory)) r

top_le : (m : VirtualMemoryMode) (top : ℕ) → top_level m ≡ some top → top ≤ 4
top_le m top h = ground (arith, h)

walk_pte-IsGoodLeaf :
    (w : PageTableWalker) (ram : Ram) (vpn : ℕ) (info : WalkInfo)
    → walk_pte w ram vpn ≡ some (ok info)
    → (top : ℕ) × (top_level w.mode ≡ some top) × (top ≤ 4) × IsGoodLeaf ram top info
unfolding walk_pte
walk_pte-IsGoodLeaf w ram vpn info h = elim (Option-cases (top_level w.mode)) [
  | inl e ↦ absurd (ground (arith, e, h))
  | inr (top, e) ↦ (
    top,
    e,
    top_le w.mode top e,
    walk_from-IsGoodLeaf ram vpn top (from_paddr w.root_address) info (top_le w.mode top e)
        (ground (arith, e, h)),
  )
]

-- With a fresh TLB, in a paged mode, a translation that succeeds has found by the walk a good leaf
-- of the mode, which satisfies the permission check, and its address is the base of the leaf's page
-- plus the offset of the virtual address in a page of that size.
pub translate_vaddr-ok :
    (w : PageTableWalker) (ram : Ram) (vaddr : ℕ) (check : PermissionCheck) (effect : AccessEffect)
    (t : Translated) (paddr : ℕ)
    → IsFresh w ram
    → is_bare w.mode ≡ false
    → translate_vaddr w ram vaddr check effect ≡ some t
    → t.result ≡ ok paddr
    → (info : WalkInfo) × (walk_pte w ram (from_vaddr vaddr) ≡ some (ok info))
      × (top : ℕ) × (top_level w.mode ≡ some top)
      × IsGoodLeaf ram top info
      × (permits check info.leaf_flags ≡ true)
      × (paddr ≡ info.leaf_ppn + vaddr % 2 ^ page_shift info.leaf_level)
translate_vaddr-ok w ram vaddr check effect t paddr fresh nb h r =
    elim (walk_cases w ram vaddr check effect paddr t.memory
      (refined w ram vaddr check effect t paddr fresh h r)) [
        | ok_bare b _ ↦ absurd (ground (arith, b, nb))
        | ok_leaf info _ walked used ↦
            (let (top, mode_top, le, good) =
                walk_pte-IsGoodLeaf w ram (from_vaddr vaddr) info walked in
              let (lev, aligned, lt, rest) = good in
              let (perm, at) = use_leaf-ok w ram vaddr check effect info paddr used in
              (
                info,
                walked,
                top,
                mode_top,
                (lev, aligned, lt, rest),
                perm,
                at ∙ leaf_address-eq info vaddr (omega arith) aligned lt,
              ))
      ]

-- Where the A and D bits are not set by hardware, a translation in a paged mode with a fresh TLB
-- succeeds only if the leaf that the walk finds has A set for an access and D set for a write.
pub translate_vaddr-needs :
    (w : PageTableWalker) (ram : Ram) (vaddr : ℕ) (check : PermissionCheck) (effect : AccessEffect)
    (t : Translated) (paddr : ℕ)
    → w.ad_update_policy ≡ fault_on_clear
    → IsFresh w ram
    → is_bare w.mode ≡ false
    → translate_vaddr w ram vaddr check effect ≡ some t
    → t.result ≡ ok paddr
    → (info : WalkInfo) × (walk_pte w ram (from_vaddr vaddr) ≡ some (ok info))
      × ((needs effect info.leaf_flags).0 ≡ false)
      × ((needs effect info.leaf_flags).1 ≡ false)
translate_vaddr-needs w ram vaddr check effect t paddr policy fresh nb h r =
    elim (walk_cases w ram vaddr check effect paddr t.memory
      (refined w ram vaddr check effect t paddr fresh h r)) [
        | ok_bare b _ ↦ absurd (ground (arith, b, nb))
        | ok_leaf info _ walked used ↦
            (let (a, d) = use_leaf-needs w ram vaddr check effect info paddr policy used in
              (info, walked, a, d))
      ]
