-- ===== src/Mmu/Config.antt =====
-- src/isa/riscv/mmu/config.rs and address.rs, and the flags of page_table/riscv64.rs.
use here.Base.{Bool, bit_and, if◌then◌else◌, leb, true, ℕ, ◌*◌, ◌+◌, ◌-◌, ◌^◌}
use here.Word.{bit_not, is_sign_extended, shl, shr, xlen}

abbrev pub page_size_xlen : ℕ
page_size_xlen = 12

abbrev pub page_size : ℕ
page_size = 2 ^ 12

abbrev pub physical_addr_width : ℕ
physical_addr_width = 56

abbrev pub sub_vpn_xlen : ℕ
sub_vpn_xlen = 9

abbrev pub sub_vpn_mask : ℕ
sub_vpn_mask = 2 ^ 9 - 1

abbrev pub pte_flag_xlen : ℕ
pte_flag_xlen = 10

abbrev pub pte_flag_mask : ℕ
pte_flag_mask = 2 ^ 10 - 1

abbrev pub pte_ppn_mask : ℕ
pte_ppn_mask = (2 ^ 44 - 1) * 2 ^ 10

pub data VirtualMemoryMode : Type 0 where
  page32bit page39bit page48bit page57bit bare : VirtualMemoryMode

pub data AdUpdatePolicy : Type 0 where
  auto_set fault_on_clear : AdUpdatePolicy

pub data AccessEffect : Type 0 where
  untouched accessed accessed_dirty : AccessEffect

pub data PageTableError : Type 0 where
  align_fault page_fault privilege_fault : PageTableError

-- `PTEFlags`, as bits of a byte
abbrev pub flag_valid : ℕ
flag_valid = 2 ^ 0

abbrev pub flag_readable : ℕ
flag_readable = 2 ^ 1

abbrev pub flag_writable : ℕ
flag_writable = 2 ^ 2

abbrev pub flag_executable : ℕ
flag_executable = 2 ^ 3

abbrev pub flag_user : ℕ
flag_user = 2 ^ 4

abbrev pub flag_global : ℕ
flag_global = 2 ^ 5

abbrev pub flag_accessed : ℕ
flag_accessed = 2 ^ 6

abbrev pub flag_dirty : ℕ
flag_dirty = 2 ^ 7

-- `PermissionCheck`: sets of flags
pub record PermissionCheck : Type 0 where
  pub any_of : ℕ
  pub exact_mask : ℕ
  pub exact_flags : ℕ

-- `SvMode::vpn_index`
unfoldable pub vpn_index : ℕ → ℕ → ℕ
vpn_index vpn level = bit_and (shr vpn (page_size_xlen + level * sub_vpn_xlen)) sub_vpn_mask

-- `SvMode::is_canonical_vaddr` at VA_BITS below the width of a word
unfoldable pub is_canonical_vaddr : ℕ → ℕ → Bool
is_canonical_vaddr va_bits vaddr = if leb xlen va_bits then true else is_sign_extended vaddr va_bits

-- `VirtualPageNum::from_vaddr`: the address with the offset in its page cleared
unfoldable pub from_vaddr : ℕ → ℕ
from_vaddr vaddr = bit_and vaddr (bit_not (page_size - 1))

-- `PhysicalPageNum::from_ppn` and `from_paddr`
unfoldable pub from_ppn : ℕ → ℕ
from_ppn n = shl n page_size_xlen

unfoldable pub from_paddr : ℕ → ℕ
from_paddr paddr = bit_and paddr (bit_not (page_size - 1))

-- `PhysicalAddr::from`
unfoldable pub physical_addr : ℕ → ℕ
physical_addr value = bit_and value (2 ^ physical_addr_width - 1)
