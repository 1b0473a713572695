-- ===== src/Mmu/PageTable.antt =====
-- src/isa/riscv/mmu/page_table/riscv64.rs: page table entries, the walk, the TLB and the
-- translation of one address. The subtraction of `BASE_ADDR` from the address of an entry wraps,
-- as the release profile computes it.
pub mod Entry
pub mod Walk
pub mod Tlb
pub mod Access
mod Examples
use here.Base.{
  Bool, Option, Result, bit_and, bit_or, err, false, if◌then◌else◌, map_err, none, not, ok, some,
  suc, true, zero, ℕ, ◌%◌, ◌&&◌, ◌*◌, ◌+◌, ◌-◌, ◌==◌, ◌>>=◌, ◌^◌, ◌||◌,
}
use here.Word.{base_addr, double, shl, shr, wrapping_sub}
use here.Cache.{CachePolicy}
use here.Cache.Direct.{direct_cache}
use here.Cache.Stats.{Cache, cache_clear, cache_get, cache_new, cache_put}
use here.Mmu.Config.{
  AccessEffect, AdUpdatePolicy, PageTableError, PermissionCheck, VirtualMemoryMode, accessed,
  accessed_dirty, align_fault, auto_set, bare, fault_on_clear, flag_accessed, flag_dirty,
  flag_executable, flag_readable, flag_valid, flag_writable, from_paddr, from_ppn, from_vaddr,
  is_canonical_vaddr, untouched, page32bit, page39bit, page48bit, page57bit, page_fault,
  page_size_xlen, physical_addr, privilege_fault, pte_flag_mask, pte_flag_xlen, pte_ppn_mask,
  sub_vpn_xlen, vpn_index,
}
use here.Ram.{Ram, load_bytes, read, store_bytes}

-- `PageTableEntry` is its word.
unfoldable pub ppn : ℕ → ℕ
ppn bits = from_ppn (shr (bit_and bits pte_ppn_mask) pte_flag_xlen)

-- `PTEFlags::from_bits((bits & PTE_FLAG_MASK) as u8)`
unfoldable pub flags : ℕ → ℕ
flags bits = bit_and bits pte_flag_mask % 2 ^ 8

abbrev pub contains_any : ℕ → ℕ → Bool
contains_any fs mask = not (bit_and fs mask == 0)

unfoldable pub has_any_flag : ℕ → ℕ → Bool
unfolding flags
has_any_flag bits mask = contains_any (flags bits) mask

unfoldable pub is_valid : ℕ → Bool
unfolding has_any_flag
is_valid bits = has_any_flag bits flag_valid

unfoldable pub is_leaf : ℕ → Bool
unfolding has_any_flag
is_leaf bits = has_any_flag bits (flag_readable + flag_writable + flag_executable)

unfoldable pub is_invalid_encoding : ℕ → Bool
unfolding flags
is_invalid_encoding bits = bit_and (flags bits) (flag_readable + flag_writable) == flag_writable

-- `set_accessed` and `set_dirty`
unfoldable pub set_flag : ℕ → ℕ → ℕ
set_flag bits flag = bit_or bits flag

pub record WalkInfo : Type 0 where
  pub leaf_level : ℕ
  pub leaf_flags : ℕ
  pub leaf_pte_addr : ℕ
  pub leaf_ppn : ℕ

-- What one round of the walk finds: a leaf, or the table of the next level.
pub data Visit : Type 0 where
  leaf : WalkInfo → Visit
  table : ℕ → Visit

abbrev pub pte_size : ℕ
pte_size = 8

abbrev pub superpage_mask : ℕ → ℕ
superpage_mask level = shl (2 ^ (level * sub_vpn_xlen) - 1) pte_flag_xlen

-- The body of the loop for a read entry.
unfoldable pub visit_entry : ℕ → ℕ → ℕ → Result PageTableError Visit
visit_entry level pte_addr bits =
    if not (is_valid bits)
    then err page_fault
    else if is_invalid_encoding bits
    then err page_fault
    else if is_leaf bits
    then (if not (bit_and bits (superpage_mask level) == 0)
        then err align_fault
        else ok (
            leaf (record {
              leaf_level = level;
              leaf_flags = flags bits;
              leaf_pte_addr = pte_addr;
              leaf_ppn = ppn bits;
            })))
    else ok (table (ppn bits))

abbrev pub read_entry : Ram → ℕ → Result PageTableError ℕ
read_entry ram pte_addr =
    map_err (λ _. page_fault) (read double ram (wrapping_sub pte_addr base_addr))

unfoldable pub visit : Ram → ℕ → ℕ → ℕ → Result PageTableError Visit
unfolding visit_entry
visit ram vpn level entry =
    let pte_addr = entry + vpn_index vpn level * pte_size in
    read_entry ram pte_addr >>= λ bits. visit_entry level pte_addr bits

-- The loop from a level down to 0; there a table is a fault.
unfoldable pub walk_from : Ram → ℕ → ℕ → ℕ → Result PageTableError WalkInfo
walk_from ram vpn zero entry = visit ram vpn 0 entry >>= λ found. elim found [
  | leaf info ↦ ok info
  | table next ↦ err page_fault
]
walk_from ram vpn (suc level) entry = visit ram vpn (suc level) entry >>= λ found. elim found [
  | leaf info ↦ ok info
  | table next ↦ walk_from ram vpn level next
]

-- `LEVELS - 1` and `VA_BITS` of Sv39, Sv48 and Sv57; `none` is the panic of `walk_pte`.
abbrev pub top_level : VirtualMemoryMode → Option ℕ
top_level page39bit = some 2
top_level page48bit = some 3
top_level page57bit = some 4
top_level _ = none

abbrev pub canonical_in : VirtualMemoryMode → ℕ → Bool
canonical_in page39bit vaddr = is_canonical_vaddr 39 vaddr
canonical_in page48bit vaddr = is_canonical_vaddr 48 vaddr
canonical_in page57bit vaddr = is_canonical_vaddr 57 vaddr
canonical_in _ vaddr = true

abbrev pub tlb_policy : CachePolicy WalkInfo
tlb_policy = direct_cache page_size_xlen 9

pub record PageTableWalker : Type 0 where
  pub tlb : Cache tlb_policy
  pub root_address : ℕ
  pub mode : VirtualMemoryMode
  pub ad_update_policy : AdUpdatePolicy

unfoldable pub walker_new : ℕ → VirtualMemoryMode → PageTableWalker
walker_new root_address mode = record {
  tlb = cache_new tlb_policy;
  root_address = root_address;
  mode = mode;
  ad_update_policy = fault_on_clear;
}

unfoldable pub flush_tlb : PageTableWalker → PageTableWalker
flush_tlb w = record w { tlb = cache_clear tlb_policy w.tlb }

unfoldable pub set_ad_update_policy : PageTableWalker → AdUpdatePolicy → PageTableWalker
set_ad_update_policy w policy = record w { ad_update_policy = policy }

abbrev pub mode_of : ℕ → Option VirtualMemoryMode
mode_of mode =
    if mode == 0
    then some bare
    else if mode == 1
    then some page32bit
    else if mode == 8
    then some page39bit
    else if mode == 9
    then some page48bit
    else if mode == 10
    then some page57bit
    else none

-- `none` is the panic.
unfoldable pub set_mode : PageTableWalker → ℕ → Option PageTableWalker
set_mode w mode = elim (mode_of mode) [ none ↦ none | some m ↦ some (record w { mode = m }) ]

unfoldable pub set_root_addr : PageTableWalker → ℕ → PageTableWalker
set_root_addr w root_address = record w { root_address = root_address }

-- `walk_pte`; the outer `none` is the panic of an unsupported mode.
unfoldable pub walk_pte : PageTableWalker → Ram → ℕ → Option (Result PageTableError WalkInfo)
walk_pte w ram vpn = elim (top_level w.mode) [
  | none ↦ none
  | some level ↦ some (walk_from ram vpn level (from_paddr w.root_address))
]

unfoldable pub permits : PermissionCheck → ℕ → Bool
permits check fs =
    bit_and fs check.exact_mask == check.exact_flags
    && (check.any_of == 0 || not (bit_and fs check.any_of == 0))

abbrev pub needs : AccessEffect → ℕ → Bool × Bool
needs untouched fs = (false, false)
needs accessed fs = (not (contains_any fs flag_accessed), false)
needs accessed_dirty fs = (not (contains_any fs flag_accessed), not (contains_any fs flag_dirty))

-- The word of the entry at `pte_at`, and its replacement.
abbrev pub pte_offset : ℕ → ℕ
pte_offset pte_addr = wrapping_sub pte_addr base_addr

unfoldable pub set_ad_bits : Ram → ℕ → Bool → Bool → Ram
set_ad_bits ram pte_addr need_accessed need_dirty =
    let at = pte_offset pte_addr in
    let bits = load_bytes 8 ram.data_at at in
    let bits' = if need_accessed then set_flag bits flag_accessed else bits in
    let bits'' = if need_dirty then set_flag bits' flag_dirty else bits' in
    record ram { data_at = store_bytes 8 ram.data_at at bits'' }

unfoldable pub apply_ad_policy :
    PageTableWalker → Ram → WalkInfo → AccessEffect → Result PageTableError (Unit {0}) × Ram
unfolding set_ad_bits
apply_ad_policy w ram info effect =
    let (need_accessed, need_dirty) = needs effect info.leaf_flags in
    if not need_accessed && not need_dirty then (ok tt, ram) else elim w.ad_update_policy [
      | auto_set ↦ (ok tt, set_ad_bits ram info.leaf_pte_addr need_accessed need_dirty)
      | fault_on_clear ↦ (err page_fault, ram)
    ]

abbrev pub page_shift : ℕ → ℕ
page_shift level = page_size_xlen + level * sub_vpn_xlen

unfoldable pub leaf_address : WalkInfo → ℕ → ℕ
leaf_address info vaddr =
    physical_addr (bit_or info.leaf_ppn (bit_and vaddr (2 ^ page_shift info.leaf_level - 1)))

-- The part of `translate_vaddr` after the walk or the hit.
unfoldable pub use_leaf :
    PageTableWalker
    → Ram
    → ℕ
    → PermissionCheck
    → AccessEffect
    → WalkInfo
    → Result PageTableError ℕ × Ram
unfolding permits apply_ad_policy leaf_address
use_leaf w ram vaddr check effect info =
    if not (permits check info.leaf_flags)
    then (err privilege_fault, ram)
    else (let (r, ram') = apply_ad_policy w ram info effect in
        (r >>= (λ _. ok (leaf_address info vaddr)), ram'))

-- The lookup in the TLB, or the walk whose result the TLB keeps.
unfoldable pub find_leaf :
    PageTableWalker → Ram → ℕ → Option (Result PageTableError WalkInfo × PageTableWalker)
find_leaf w ram vpn =
    let (hit, tlb) = cache_get tlb_policy w.tlb vpn in
    let w' = record w { tlb = tlb } in
    elim hit [
      | some info ↦ some (ok info, w')
      | none ↦ elim (walk_pte w' ram vpn) [
        | none ↦ none
        | some (err e) ↦ some (err e, w')
        | some (ok info) ↦ some (ok info, record w' { tlb = cache_put tlb_policy tlb vpn info })
      ]
    ]

pub record Translated : Type 0 where
  pub result : Result PageTableError ℕ
  pub walker : PageTableWalker
  pub memory : Ram

abbrev pub is_bare : VirtualMemoryMode → Bool
is_bare bare = true
is_bare _ = false

-- `none` is the panic of an unsupported mode.
unfoldable pub translate_vaddr :
    PageTableWalker → Ram → ℕ → PermissionCheck → AccessEffect → Option Translated
unfolding use_leaf find_leaf
translate_vaddr w ram vaddr check effect =
    if is_bare w.mode
    then some (record { result = ok (physical_addr vaddr); walker = w; memory = ram })
    else if not (canonical_in w.mode vaddr)
    then some (record { result = err page_fault; walker = w; memory = ram })
    else elim (find_leaf w ram (from_vaddr vaddr)) [
      | none ↦ none
      | some (err e, w') ↦ some (record { result = err e; walker = w'; memory = ram })
      | some (ok info, w') ↦
          (let (r, ram') = use_leaf w' ram vaddr check effect info in
            some (record { result = r; walker = w'; memory = ram' }))
    ]
