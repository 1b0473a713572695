-- ===== src/Mmu/PageTable/Tlb.antt =====
-- The TLB is a cache of the walk: a specification of translation without a TLB, the invariant
-- that every entry of the TLB is what the walk would find, and their preservation.
use mathlib.Core.Option
use here.Base.{
  Option, Option-cases, Result, ap, arith, err, if◌then◌else◌, inl, inr, none, not, ok, refl, some,
  subst, sym, ℕ, ◌∙◌, ◌≡◌, ◌⊎◌,
}
use here.Cache.Direct.{DirectCache, direct_get, direct_put}
use here.Cache.Stats.{Cache, cache_clear, cache_get, cache_new, cache_put, policy-cache_get}
use here.Mmu.Config.{
  AccessEffect, PageTableError, PermissionCheck, VirtualMemoryMode, fault_on_clear, from_vaddr,
  page_fault, page_size_xlen, physical_addr,
}
use here.Mmu.PageTable.{
  PageTableWalker, Translated, WalkInfo, apply_ad_policy, canonical_in, find_leaf, flush_tlb,
  is_bare, tlb_policy, translate_vaddr, use_leaf, walk_pte, walker_new,
}
use here.Ram.{Ram}

-- Translation by the walk alone.
unfoldable pub translate_by_walk :
    PageTableWalker
    → Ram
    → ℕ
    → PermissionCheck
    → AccessEffect
    → Option (Result PageTableError ℕ × Ram)
translate_by_walk w ram vaddr check effect =
    if is_bare w.mode
    then some (ok (physical_addr vaddr), ram)
    else if not (canonical_in w.mode vaddr)
    then some (err page_fault, ram)
    else elim (walk_pte w ram (from_vaddr vaddr)) [
      | none ↦ none
      | some (err e) ↦ some (err e, ram)
      | some (ok info) ↦ some (use_leaf w ram vaddr check effect info)
    ]

-- Every entry of the TLB is what a walk finds.
abbrev pub IsFresh : PageTableWalker → Ram → Type 0
IsFresh w ram =
    (vpn : ℕ) (info : WalkInfo)
    → direct_get page_size_xlen 9 w.tlb.policy vpn ≡ some info
    → walk_pte w ram vpn ≡ some (ok info)

-- A flush makes the TLB fresh, whatever the tables and the memory have become.
pub flush_tlb-IsFresh : (w : PageTableWalker) (ram : Ram) → IsFresh (flush_tlb w) ram
unfolding flush_tlb cache_clear direct_get
flush_tlb-IsFresh w ram vpn info h = ground arith

pub walker_new-IsFresh :
    (root : ℕ) (m : VirtualMemoryMode) (ram : Ram) → IsFresh (walker_new root m) ram
unfolding walker_new cache_new direct_get
walker_new-IsFresh root m ram vpn info h = ground arith

same_walk :
    (w : PageTableWalker) (c : Cache tlb_policy) (ram : Ram) (vpn : ℕ)
    → walk_pte (record w { tlb = c }) ram vpn ≡ walk_pte w ram vpn
unfolding walk_pte
same_walk w c ram vpn = refl

-- What `find_leaf` returns.
data FindCases (w : PageTableWalker) (ram : Ram) (vpn : ℕ) : Type 0 where
  found :
      (info : WalkInfo) (c : Cache tlb_policy)
      → find_leaf w ram vpn ≡ some (ok info, record w { tlb = c })
      → walk_pte w ram vpn ≡ some (ok info)
      → IsFresh (record w { tlb = c }) ram
      → FindCases w ram vpn
  faulted :
      (e : PageTableError) (c : Cache tlb_policy)
      → find_leaf w ram vpn ≡ some (err e, record w { tlb = c })
      → walk_pte w ram vpn ≡ some (err e)
      → IsFresh (record w { tlb = c }) ram
      → FindCases w ram vpn
  panicked : find_leaf w ram vpn ≡ none → walk_pte w ram vpn ≡ none → FindCases w ram vpn

get-IsFresh :
    (w : PageTableWalker) (ram : Ram) (vpn : ℕ)
    → IsFresh w ram
    → IsFresh (record w { tlb = (cache_get tlb_policy w.tlb vpn).1 }) ram
get-IsFresh w ram vpn fresh v i h =
    same_walk w (cache_get tlb_policy w.tlb vpn).1 ram v
    ∙ fresh v i (
        ap (λ c. direct_get page_size_xlen 9 c v) (sym (policy-cache_get tlb_policy w.tlb vpn)) ∙ h)

put_cases :
    (c : DirectCache WalkInfo) (a b : ℕ) (x y : WalkInfo)
    → direct_get page_size_xlen 9 (direct_put page_size_xlen 9 c a x) b ≡ some y
    → ((a ≡ b) × (x ≡ y)) ⊎ (direct_get page_size_xlen 9 c b ≡ some y)
unfolding direct_put direct_get
put_cases c a b x y h = ground arith

put-IsFresh :
    (w : PageTableWalker) (ram : Ram) (vpn : ℕ) (info : WalkInfo)
    → IsFresh w ram
    → walk_pte w ram vpn ≡ some (ok info)
    → IsFresh (record w { tlb = cache_put tlb_policy w.tlb vpn info }) ram
unfolding cache_put
put-IsFresh w ram vpn info fresh walked v i h =
    same_walk w (cache_put tlb_policy w.tlb vpn info) ram v
    ∙ elim (put_cases w.tlb.policy vpn v info i h) [
      | inl (at, same) ↦ ap (walk_pte w ram) (sym at) ∙ walked ∙ ap (λ x. some (ok x)) same
      | inr kept ↦ fresh v i kept
    ]

find_cases : (w : PageTableWalker) (ram : Ram) (vpn : ℕ) → IsFresh w ram → FindCases w ram vpn
unfolding find_leaf cache_get
find_cases w ram vpn fresh = elim (Option-cases (direct_get page_size_xlen 9 w.tlb.policy vpn)) [
  | inr (info, hit) ↦ found info c1 (simp (find_leaf, hit)) (fresh vpn info hit) fresh1
  | inl miss ↦ elim (Option-cases (walk_pte w ram vpn)) [
    | inl panics ↦ panicked (simp (find_leaf, miss, same_walk w c1 ram vpn, panics)) panics
    | inr (ok info, walked) ↦
        found info (cache_put tlb_policy c1 vpn info)
          (simp (find_leaf, miss, same_walk w c1 ram vpn, walked)) walked
          (put-IsFresh (record w { tlb = c1 }) ram vpn info fresh1
            (same_walk w c1 ram vpn ∙ walked))
    | inr (err e, walked) ↦
        faulted e c1 (simp (find_leaf, miss, same_walk w c1 ram vpn, walked)) walked fresh1
  ]
]
  where
    c1 : Cache tlb_policy
    c1 = (cache_get tlb_policy w.tlb vpn).1

    fresh1 : IsFresh (record w { tlb = c1 }) ram
    fresh1 = get-IsFresh w ram vpn fresh

same_use :
    (w : PageTableWalker) (c : Cache tlb_policy) (ram : Ram) (vaddr : ℕ) (check : PermissionCheck)
    (effect : AccessEffect) (info : WalkInfo)
    → use_leaf (record w { tlb = c }) ram vaddr check effect info
      ≡ use_leaf w ram vaddr check effect info
unfolding use_leaf apply_ad_policy
same_use w c ram vaddr check effect info = refl

-- While the TLB is fresh a translation has the result, the memory and the panics of a translation
-- by the walk alone.
pub translate_vaddr-refines :
    (w : PageTableWalker) (ram : Ram) (vaddr : ℕ) (check : PermissionCheck) (effect : AccessEffect)
    → IsFresh w ram
    → Option.map (λ t. (t.result, t.memory)) (translate_vaddr w ram vaddr check effect)
      ≡ translate_by_walk w ram vaddr check effect
unfolding translate_vaddr translate_by_walk
translate_vaddr-refines w ram vaddr check effect fresh =
    elim (find_cases w ram (from_vaddr vaddr) fresh) [
      | found info c f walked _ ↦
          ground (arith, f, walked, same_use w c ram vaddr check effect info)
      | faulted e c f walked _ ↦ ground (arith, f, walked)
      | panicked f walked ↦ ground (arith, f, walked)
    ]

moved :
    (w : PageTableWalker) (ram : Ram) (vaddr : ℕ) (check : PermissionCheck) (effect : AccessEffect)
    (t : Translated) (r : Result PageTableError WalkInfo) (w' : PageTableWalker)
    → find_leaf w ram (from_vaddr vaddr) ≡ some (r, w')
    → translate_vaddr w ram vaddr check effect ≡ some t
    → (t.walker ≡ w) ⊎ (t.walker ≡ w')
unfolding translate_vaddr
moved w ram vaddr check effect t (ok info) w' f h = ground (arith, f, h)
moved w ram vaddr check effect t (err e) w' f h = ground (arith, f, h)

unmoved :
    (w : PageTableWalker) (ram : Ram) (vaddr : ℕ) (check : PermissionCheck) (effect : AccessEffect)
    (t : Translated)
    → find_leaf w ram (from_vaddr vaddr) ≡ none
    → translate_vaddr w ram vaddr check effect ≡ some t
    → t.walker ≡ w
unfolding translate_vaddr
unmoved w ram vaddr check effect t f h = ground (arith, f, h)

use_leaf-faulting :
    (w : PageTableWalker) (ram : Ram) (vaddr : ℕ) (check : PermissionCheck) (effect : AccessEffect)
    (info : WalkInfo)
    → w.ad_update_policy ≡ fault_on_clear
    → (use_leaf w ram vaddr check effect info).1 ≡ ram
unfolding use_leaf apply_ad_policy
use_leaf-faulting w ram vaddr check effect info policy = ground (arith, policy)

memory_kept :
    (w : PageTableWalker) (ram : Ram) (vaddr : ℕ) (check : PermissionCheck) (effect : AccessEffect)
    (t : Translated)
    → w.ad_update_policy ≡ fault_on_clear
    → IsFresh w ram
    → translate_vaddr w ram vaddr check effect ≡ some t
    → t.memory ≡ ram
unfolding translate_vaddr
memory_kept w ram vaddr check effect t policy fresh h =
    elim (find_cases w ram (from_vaddr vaddr) fresh) [
      | found info c f _ _ ↦
          ground (
            arith,
            f,
            h,
            use_leaf-faulting (record w { tlb = c }) ram vaddr check effect info policy,
          )
      | faulted e c f _ _ ↦ ground (arith, f, h)
      | panicked f _ ↦ ground (arith, f, h)
    ]

follow :
    (w : PageTableWalker) (ram : Ram) (a b : PageTableWalker)
    → (a ≡ w) ⊎ (a ≡ b)
    → IsFresh w ram
    → IsFresh b ram
    → IsFresh a ram
follow w ram a b (inl e) fw fb = subst (λ x. IsFresh x ram) (sym e) fw
follow w ram a b (inr e) fw fb = subst (λ x. IsFresh x ram) (sym e) fb

-- Where the A and D bits are not set by hardware, a translation, failing or not, leaves the memory
-- unchanged and a fresh TLB fresh.
pub translate_vaddr-IsFresh :
    (w : PageTableWalker) (ram : Ram) (vaddr : ℕ) (check : PermissionCheck) (effect : AccessEffect)
    (t : Translated)
    → w.ad_update_policy ≡ fault_on_clear
    → IsFresh w ram
    → translate_vaddr w ram vaddr check effect ≡ some t
    → (t.memory ≡ ram) × IsFresh t.walker t.memory
translate_vaddr-IsFresh w ram vaddr check effect t policy fresh h =
    (kept, subst (IsFresh t.walker) (sym kept) after)
  where
    kept : t.memory ≡ ram
    kept = memory_kept w ram vaddr check effect t policy fresh h

    after : IsFresh t.walker ram
    after = elim (find_cases w ram (from_vaddr vaddr) fresh) [
      | found info c f _ keeps ↦
          follow w ram t.walker (record w { tlb = c })
            (moved w ram vaddr check effect t (ok info) (record w { tlb = c }) f h) fresh keeps
      | faulted e c f _ keeps ↦
          follow w ram t.walker (record w { tlb = c })
            (moved w ram vaddr check effect t (err e) (record w { tlb = c }) f h) fresh keeps
      | panicked f _ ↦
          subst (λ x. IsFresh x ram) (sym (unmoved w ram vaddr check effect t f h)) fresh
    ]
