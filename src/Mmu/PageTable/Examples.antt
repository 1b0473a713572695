-- ===== src/Mmu/PageTable/Examples.antt =====
-- A three-level table at 0x80001000 that maps the first page to 0x80004000, as in the tests of
-- src/isa/riscv/mmu/page_table/riscv64.rs.
use mathlib.Core.Option
use here.Base.{Option, err, false, none, ok, refl, some, true, ℕ, ◌%◌, ◌*◌, ◌+◌, ◌/◌, ◌^◌, ◌≡◌}
use here.Word.{check_align, is_sign_extended, sar, sign_extend}
use here.Cache.Direct.{direct_get, direct_put, get_id}
use here.Cache.Stats.{cache_get, cache_new, cache_put}
use here.Mmu.Config.{
  PermissionCheck, accessed, fault_on_clear, flag_readable, from_paddr, from_ppn, from_vaddr,
  is_canonical_vaddr, page39bit, page_fault, physical_addr, vpn_index,
}
use here.Mmu.PageTable.{
  PageTableWalker, Translated, WalkInfo, apply_ad_policy, find_leaf, flags, has_any_flag, is_bare,
  is_invalid_encoding, is_leaf, is_valid, leaf_address, page_shift, permits, ppn, top_level,
  translate_vaddr, use_leaf, visit, visit_entry, walk_from, walk_pte, walker_new,
}
use here.Mmu.PageTable.Access.{translate_vaddr-ok}
use here.Mmu.PageTable.Tlb.{
  IsFresh, translate_by_walk, translate_vaddr-IsFresh, translate_vaddr-refines, walker_new-IsFresh,
}
use here.Mmu.PageTable.Walk.{IsGoodLeaf}
use here.Ram.{Ram, contains_access, load_bytes, read, read_raw_ptr, store_bytes}

abbrev entry_of : ℕ → ℕ → ℕ
entry_of target fs = target / 2 ^ 12 * 2 ^ 10 + fs

abbrev tables : Ram
tables = record {
  data_at =
      store_bytes 8
        (store_bytes 8 (store_bytes 8 (λ _. 0) 0x1000 (entry_of 0x8000_2000 1)) 0x2000
          (entry_of 0x8000_3000 1))
        0x3000 (entry_of 0x8000_4000 71);
  reserved = none;
  host_base = 0;
}

abbrev sv39 : PageTableWalker
sv39 = walker_new 0x8000_1000 page39bit

abbrev readable : PermissionCheck
readable = record { any_of = 0; exact_mask = flag_readable; exact_flags = flag_readable }

abbrev or_idle : Option Translated → Translated
or_idle (some t) = t
or_idle none = record { result = err page_fault; walker = sv39; memory = tables }

abbrev outcome : Translated
outcome = or_idle (translate_vaddr sv39 tables 0x123 readable accessed)

outcome-eq : translate_vaddr sv39 tables 0x123 readable accessed ≡ some outcome
unfolding translate_vaddr walk_from visit flags has_any_flag is_valid is_leaf is_invalid_encoding
    walker_new is_canonical_vaddr is_sign_extended cache_get direct_get cache_new from_vaddr
    walk_pte read from_paddr vpn_index check_align load_bytes store_bytes ppn from_ppn
outcome-eq = refl

outcome_address : outcome.result ≡ ok 0x8000_4123
unfolding translate_vaddr walk_from visit flags has_any_flag is_valid is_leaf is_invalid_encoding
    walker_new is_canonical_vaddr is_sign_extended cache_get direct_get cache_new from_vaddr
    walk_pte read from_paddr vpn_index check_align load_bytes store_bytes ppn from_ppn direct_put
    get_id cache_put physical_addr apply_ad_policy find_leaf leaf_address permits use_leaf
    visit_entry contains_access read_raw_ptr sar sign_extend
outcome_address = refl

fresh : IsFresh sv39 tables
fresh = walker_new-IsFresh 0x8000_1000 page39bit tables

paged : is_bare sv39.mode ≡ false
unfolding walker_new
paged = refl

faulting : sv39.ad_update_policy ≡ fault_on_clear
unfolding walker_new
faulting = refl

abbrev mapped : WalkInfo
mapped = record {
  leaf_level = 0;
  leaf_flags = 71;
  leaf_pte_addr = 0x8000_3000;
  leaf_ppn = 0x8000_4000;
}

walked : walk_from tables 0 2 0x8000_1000 ≡ ok mapped
unfolding translate_vaddr walk_from visit flags has_any_flag is_valid is_leaf is_invalid_encoding
    walker_new is_canonical_vaddr is_sign_extended cache_get direct_get cache_new from_vaddr
    walk_pte read from_paddr vpn_index check_align load_bytes store_bytes ppn from_ppn
walked = refl

translate_vaddr-refines_example :
    Option.map (λ t. (t.result, t.memory)) (translate_vaddr sv39 tables 0x123 readable accessed)
    ≡ translate_by_walk sv39 tables 0x123 readable accessed
translate_vaddr-refines_example = translate_vaddr-refines sv39 tables 0x123 readable accessed fresh

translate_vaddr-IsFresh_example : (outcome.memory ≡ tables) × IsFresh outcome.walker outcome.memory
translate_vaddr-IsFresh_example =
    translate_vaddr-IsFresh sv39 tables 0x123 readable accessed outcome faulting fresh outcome-eq

translate_vaddr-ok_example :
    (info : WalkInfo) × (walk_pte sv39 tables (from_vaddr 0x123) ≡ some (ok info))
    × (top : ℕ) × (top_level sv39.mode ≡ some top)
    × IsGoodLeaf tables top info
    × (permits readable info.leaf_flags ≡ true)
    × (0x8000_4123 ≡ info.leaf_ppn + 0x123 % 2 ^ page_shift info.leaf_level)
translate_vaddr-ok_example =
    translate_vaddr-ok sv39 tables 0x123 readable accessed outcome 0x8000_4123 fresh paged
      outcome-eq outcome_address
