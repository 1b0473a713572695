-- ===== src/Mmu/PageTable/Walk.antt =====
-- What the walk of the page tables returns: every leaf is a valid, readable or executable entry
-- that the tables hold, at a level of the mode, and a superpage is aligned.
use mathlib.Core.Path.{ap₂}
use here.Base.{
  Result, Result-cases, ap, arith, bit_and, err, false, inl, inr, ok, refl, suc, true, zero, ℕ, ◌%◌,
  ◌*◌, ◌+◌, ◌<◌, ◌^◌, ◌∙◌, ◌≡◌, ◌≤◌,
}
use here.Mmu.Config.{PageTableError, vpn_index}
use here.Mmu.PageTable.{
  Visit, WalkInfo, flags, is_invalid_encoding, is_leaf, is_valid, leaf, page_shift, ppn, pte_size,
  read_entry, superpage_mask, table, visit, visit_entry, walk_from,
}
use here.Mmu.PageTable.Entry.{ppn_aligned, ppn_lt}
use here.Ram.{Ram}

-- A leaf that the walk may return at a level up to `top`.
abbrev pub IsGoodLeaf : Ram → ℕ → WalkInfo → Type 0
IsGoodLeaf ram top info =
    (info.leaf_level ≤ top)
    × (info.leaf_ppn % 2 ^ page_shift info.leaf_level ≡ 0)
    × (info.leaf_ppn < 2 ^ 56)
    × ((bits : ℕ) × (read_entry ram info.leaf_pte_addr ≡ ok bits)
        × (is_valid bits ≡ true)
        × (is_invalid_encoding bits ≡ false)
        × (is_leaf bits ≡ true)
        × (info.leaf_flags ≡ flags bits)
        × (info.leaf_ppn ≡ ppn bits))

visit_entry-leaf :
    (level pte_addr bits : ℕ) (info : WalkInfo)
    → visit_entry level pte_addr bits ≡ ok (leaf info)
    → (is_valid bits ≡ true)
      × (is_invalid_encoding bits ≡ false)
      × (is_leaf bits ≡ true)
      × (bit_and bits (superpage_mask level) ≡ 0)
      × (info.leaf_level ≡ level)
      × (info.leaf_pte_addr ≡ pte_addr)
      × (info.leaf_flags ≡ flags bits)
      × (info.leaf_ppn ≡ ppn bits)
unfolding visit_entry
visit_entry-leaf level pte_addr bits info h = ground arith

visit-leaf :
    (ram : Ram) (vpn level entry : ℕ) (info : WalkInfo)
    → level ≤ 4
    → visit ram vpn level entry ≡ ok (leaf info)
    → IsGoodLeaf ram level info
unfolding visit
visit-leaf ram vpn level entry info le h = elim (Result-cases (read_entry ram pte_addr)) [
  | inl (bits, r) ↦
      (let found = visit_entry-leaf level pte_addr bits info (ground (arith, h, r)) in
        let (v, enc, lf, mask, lev, at, fl, pn) = found in
        (
          omega (arith, lev),
          ap₂ (λ (a b : ℕ). a % 2 ^ page_shift b) pn lev ∙ ppn_aligned level bits le mask,
          omega (arith, pn, ppn_lt bits),
          (bits, ap (read_entry ram) at ∙ r, v, enc, lf, fl, pn),
        ))
  | inr (e, r) ↦ absurd (ground (arith, h, r))
]
  where
    pte_addr : ℕ
    pte_addr = entry + vpn_index vpn level * pte_size

IsGoodLeaf-suc :
    (ram : Ram) (top : ℕ) (info : WalkInfo)
    → IsGoodLeaf ram top info
    → IsGoodLeaf ram (suc top) info
IsGoodLeaf-suc ram top info (le, aligned, lt, rest) = (omega arith, aligned, lt, rest)

data VisitCases (r : Result PageTableError Visit) : Type 0 where
  at_leaf : (info : WalkInfo) → r ≡ ok (leaf info) → VisitCases r
  at_table : (a : ℕ) → r ≡ ok (table a) → VisitCases r
  at_fault : (e : PageTableError) → r ≡ err e → VisitCases r

visit_cases : (r : Result PageTableError Visit) → VisitCases r
visit_cases (ok (leaf info)) = at_leaf info refl
visit_cases (ok (table a)) = at_table a refl
visit_cases (err e) = at_fault e refl

-- A walk that starts at level 4 or below and returns a leaf returns one at its starting level or
-- below; the leaf is an entry that the RAM holds, valid, with a legal encoding and not a pointer
-- to a table, whose flags and page number are the result's; the page number is a multiple of the
-- size of the page.
pub walk_from-IsGoodLeaf :
    (ram : Ram) (vpn level entry : ℕ) (info : WalkInfo)
    → level ≤ 4
    → walk_from ram vpn level entry ≡ ok info
    → IsGoodLeaf ram level info
unfolding walk_from
walk_from-IsGoodLeaf ram vpn zero entry info le h = elim (visit_cases (visit ram vpn 0 entry)) [
  | at_leaf i r ↦ visit-leaf ram vpn 0 entry info le (ground (arith, h, r))
  | at_table a r ↦ absurd (ground (arith, h, r))
  | at_fault e r ↦ absurd (ground (arith, h, r))
]
walk_from-IsGoodLeaf ram vpn (suc level) entry info le h =
    elim (visit_cases (visit ram vpn (suc level) entry)) [
      | at_leaf i r ↦ visit-leaf ram vpn (suc level) entry info le (ground (arith, h, r))
      | at_table a r ↦
          IsGoodLeaf-suc ram level info
            (walk_from-IsGoodLeaf ram vpn level a info (omega arith) (ground (arith, h, r)))
      | at_fault e r ↦ absurd (ground (arith, h, r))
    ]
