-- ===== src/Mmu/Policy/Rule.antt =====
-- The rules of the privileged architecture for a data access.
use here.Base.{Bool, Option, false, if◌then◌else◌, not, some, true, ℕ, ◌&&◌, ◌==◌, ◌||◌}
use here.Bits.{digit}
use here.Csr.{PrivilegeLevel, machine, supervisor, try_from, user, virtual}
use here.Csr.File.{CsrRegFile}
use here.Mmu.Policy.{
  AccessPrivilege, AccessType, machine_only, mpp_of, mprv_of, read_access, read_write_access,
  supervisor_and_user, user_only, write_access,
}

-- The level at which a data access is made.
abbrev pub effective_level : CsrRegFile → Option PrivilegeLevel
effective_level f = elim f.cpl [
  | machine ↦ if mprv_of f == 0 then some machine else try_from (mpp_of f)
  | supervisor ↦ some supervisor
  | user ↦ some user
  | virtual ↦ some virtual
]

abbrev pub has : ℕ → ℕ → Bool
has fs i = digit i fs == 1

-- Whether an access by the user or the supervisor may use a page with the given flags: the user
-- needs U, the supervisor needs U clear unless SUM is set; a read needs R, or X if MXR is set; a
-- write needs W, and an atomic access both.
abbrev pub may_access : PrivilegeLevel → Bool → Bool → AccessType → ℕ → Bool
may_access level sum_set mxr_set access fs =
    elim level [ user ↦ has fs 4 | _ ↦ sum_set || not (has fs 4) ] && elim access [
      | read_access ↦ has fs 1 || (mxr_set && has fs 3)
      | write_access ↦ has fs 2
      | read_write_access ↦ has fs 1 && has fs 2
    ]

unfoldable pub level_for : AccessPrivilege → PrivilegeLevel
level_for user_only = user
level_for machine_only = machine
level_for _ = supervisor

unfoldable pub sum_for : AccessPrivilege → Bool
sum_for supervisor_and_user = true
sum_for _ = false
