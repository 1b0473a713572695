-- ===== src/Csr/Privilege.antt =====
-- src/isa/riscv/csr_reg/mod.rs: the privilege that an access by an instruction needs. The standard
-- library's `binary_search_by` on a sorted table gives the index of the key, or where it would
-- stand.
pub mod Needed
use here.Base.{
  Bool, List, Option, Result, [], err, false, if◌then◌else◌, leb, ltb, none, ok, suc, true, zero, ℕ,
  ◌&&◌, ◌+◌, ◌-◌, ◌==◌, ◌∷◌,
}
use here.Csr.{PrivilegeLevel, level_of, machine, supervisor, user, virtual}
use here.Csr.File.{CsrRegFile, field_of, read_uncheck_privilege, write_uncheck_privilege}
use here.Csr.Table.Lower.{satp}
use here.Csr.Table.Machine.{mstatus}

abbrev pub csr_privilege_table : List (ℕ × PrivilegeLevel)
csr_privilege_table =
    (0x000, user)
    ∷ (0x100, supervisor)
    ∷ (0x200, virtual)
    ∷ (0x300, machine)
    ∷ (0x400, user)
    ∷ (0x500, supervisor)
    ∷ (0x580, supervisor)
    ∷ (0x5c0, supervisor)
    ∷ (0x600, virtual)
    ∷ (0x680, virtual)
    ∷ (0x6c0, virtual)
    ∷ (0x700, machine)
    ∷ (0x780, machine)
    ∷ (0x7a0, machine)
    ∷ (0x7b0, machine)
    ∷ (0x7c0, machine)
    ∷ (0x800, user)
    ∷ (0x900, supervisor)
    ∷ (0x980, supervisor)
    ∷ (0x9c0, supervisor)
    ∷ (0xa00, virtual)
    ∷ (0xa80, virtual)
    ∷ (0xac0, virtual)
    ∷ (0xb00, machine)
    ∷ (0xb80, machine)
    ∷ (0xbc0, machine)
    ∷ (0xc00, user)
    ∷ (0xc80, user)
    ∷ (0xcc0, user)
    ∷ (0xd00, supervisor)
    ∷ (0xd80, supervisor)
    ∷ (0xdc0, supervisor)
    ∷ (0xe00, virtual)
    ∷ (0xe80, virtual)
    ∷ (0xec0, virtual)
    ∷ (0xf00, machine)
    ∷ (0xf80, machine)
    ∷ (0xfc0, machine)
    ∷ []

abbrev pub level_at : List (ℕ × PrivilegeLevel) → ℕ → PrivilegeLevel
level_at [] i = user
level_at ((k, l) ∷ rest) zero = l
level_at ((k, l) ∷ rest) (suc i) = level_at rest i

abbrev pub search_from : List (ℕ × PrivilegeLevel) → ℕ → ℕ → Result ℕ ℕ
search_from [] x i = err i
search_from ((k, l) ∷ rest) x i =
    if k == x then ok i else if ltb x k then err i else search_from rest x (i + 1)

abbrev found_level : Result ℕ ℕ → PrivilegeLevel
found_level (ok i) = level_at csr_privilege_table i
found_level (err i) = level_at csr_privilege_table (i - 1)

unfoldable pub needed_level : ℕ → PrivilegeLevel
needed_level csr_addr = found_level (search_from csr_privilege_table csr_addr 0)

-- `a >= b` of the derived order
abbrev pub at_least : PrivilegeLevel → PrivilegeLevel → Bool
at_least a b = leb (level_of b) (level_of a)

abbrev is_level : PrivilegeLevel → PrivilegeLevel → Bool
is_level a b = level_of a == level_of b

-- `mstatus.tvm` is bit 20.
unfoldable pub is_read_priv_legal : CsrRegFile → ℕ → Bool
unfolding needed_level
is_read_priv_legal f csr_addr =
    if csr_addr == satp && (is_level f.cpl supervisor && field_of (f.value_at mstatus) 20 1 == 1)
    then false
    else at_least f.cpl (needed_level csr_addr)

unfoldable pub is_write_priv_legal : CsrRegFile → ℕ → Bool
unfolding is_read_priv_legal
is_write_priv_legal f csr_addr = if leb 0xc00 csr_addr then false else is_read_priv_legal f csr_addr

unfoldable pub read_checked : CsrRegFile → ℕ → Option ℕ
read_checked f addr = if is_read_priv_legal f addr then read_uncheck_privilege f addr else none

unfoldable pub write_checked : CsrRegFile → ℕ → ℕ → Bool × CsrRegFile
write_checked f addr new_value =
    if is_write_priv_legal f addr
    then (true, write_uncheck_privilege f addr new_value)
    else (false, f)
