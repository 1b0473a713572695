-- ===== src/Mmu/Policy.antt =====
-- src/isa/riscv/mmu/cpu.rs and the types of mmu/mod.rs: how an access is to be translated and
-- checked, from the privilege level and mstatus. `none` is a panic: a level that is not one of
-- user, supervisor and machine.
pub mod Rule
mod Finite
pub mod Permission
mod Examples
use here.Base.{Bool, Option, bit_or, false, if◌then◌else◌, none, some, true, ℕ, ◌&&◌, ◌==◌}
use here.Device.{MemError, load_page_fault, store_page_fault}
use here.Csr.{PrivilegeLevel, machine, supervisor, try_from, user, virtual}
use here.Csr.File.{CsrRegFile, field_of}
use here.Csr.Table.Machine.{mstatus}
use here.Mmu.Config.{
  AccessEffect, PermissionCheck, accessed, accessed_dirty, flag_executable, flag_readable,
  flag_user, flag_writable, untouched,
}

-- `AccessType` (src/isa/riscv/mmu/mod.rs)
pub data AccessType : Type 0 where
  read_access write_access read_write_access : AccessType

pub data AccessPolicy : Type 0 where
  direct : AccessPolicy
  translated : PermissionCheck → AccessEffect → MemError → AccessPolicy

pub data AccessPrivilege : Type 0 where
  user_only supervisor_only supervisor_and_user machine_only : AccessPrivilege

-- MPRV, MPP, SUM and MXR of mstatus
abbrev pub mprv_of : CsrRegFile → ℕ
mprv_of f = field_of (f.value_at mstatus) 17 1

abbrev pub mpp_of : CsrRegFile → ℕ
mpp_of f = field_of (f.value_at mstatus) 11 2

abbrev pub sum_of : CsrRegFile → ℕ
sum_of f = field_of (f.value_at mstatus) 18 1

abbrev pub mxr_of : CsrRegFile → ℕ
mxr_of f = field_of (f.value_at mstatus) 19 1

abbrev pub supervisor_privilege : ℕ → AccessPrivilege
supervisor_privilege sum_bit = if sum_bit == 0 then supervisor_only else supervisor_and_user

abbrev pub previous_privilege : Option PrivilegeLevel → ℕ → Option AccessPrivilege
previous_privilege none sum_bit = none
previous_privilege (some machine) sum_bit = some machine_only
previous_privilege (some supervisor) sum_bit = some (supervisor_privilege sum_bit)
previous_privilege (some user) sum_bit = some user_only
previous_privilege (some virtual) sum_bit = none

unfoldable pub determine_data_access_privilege : CsrRegFile → Option AccessPrivilege
determine_data_access_privilege f = elim f.cpl [
  | machine ↦
      if mprv_of f == 0
      then some machine_only
      else previous_privilege (try_from (mpp_of f)) (sum_of f)
  | supervisor ↦ some (supervisor_privilege (sum_of f))
  | user ↦ some user_only
  | virtual ↦ none
]

abbrev pub fault_of : AccessType → MemError
fault_of read_access = load_page_fault
fault_of write_access = store_page_fault
fault_of read_write_access = store_page_fault

abbrev pub effect_of : Bool → AccessType → AccessEffect
effect_of false access = untouched
effect_of true read_access = accessed
effect_of true write_access = accessed_dirty
effect_of true read_write_access = accessed_dirty

abbrev pub rwx_base : AccessType → ℕ
rwx_base read_access = flag_readable
rwx_base write_access = flag_writable
rwx_base read_write_access = bit_or flag_readable flag_writable

abbrev pub is_read : AccessType → Bool
is_read read_access = true
is_read _ = false

-- `masks` and `flags`; `none` is the direct access.
abbrev pub user_bits : AccessPrivilege → Option (ℕ × ℕ)
user_bits machine_only = none
user_bits supervisor_and_user = some (0, 0)
user_bits supervisor_only = some (flag_user, 0)
user_bits user_only = some (flag_user, flag_user)

-- The check after the masks are chosen.
unfoldable pub check_for : Bool → AccessType → ℕ → ℕ → PermissionCheck
check_for mxr_set access masks fs =
    if mxr_set && is_read access
    then record {
      any_of = bit_or flag_readable flag_executable;
      exact_mask = masks;
      exact_flags = fs;
    }
    else record {
      any_of = 0;
      exact_mask = bit_or masks (rwx_base access);
      exact_flags = bit_or fs (rwx_base access);
    }

unfoldable pub policy_for : AccessPrivilege → Bool → AccessType → Bool → AccessPolicy
unfolding check_for
policy_for privilege mxr_set access side_effect = elim (user_bits privilege) [
  | none ↦ direct
  | some (masks, fs) ↦
      translated (check_for mxr_set access masks fs) (effect_of side_effect access)
        (fault_of access)
]

unfoldable pub resolve_data_policy : CsrRegFile → AccessType → Bool → Option AccessPolicy
unfolding determine_data_access_privilege
resolve_data_policy f access side_effect = elim (determine_data_access_privilege f) [
  | none ↦ none
  | some privilege ↦ some (policy_for privilege (mxr_of f == 1) access side_effect)
]

unfoldable pub resolve_ifetch_policy : CsrRegFile → Bool → Option AccessPolicy
resolve_ifetch_policy f side_effect =
    let effect = if side_effect then accessed else untouched in
    elim f.cpl [
      | machine ↦ some direct
      | supervisor ↦ some (
          translated
            (record {
              any_of = 0;
              exact_mask = bit_or flag_executable flag_user;
              exact_flags = flag_executable;
            })
            effect load_page_fault)
      | user ↦ some (
          translated
            (record {
              any_of = 0;
              exact_mask = bit_or flag_executable flag_user;
              exact_flags = bit_or flag_executable flag_user;
            })
            effect load_page_fault)
      | virtual ↦ none
    ]
