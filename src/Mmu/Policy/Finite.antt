-- ===== src/Mmu/Policy/Finite.antt =====
-- The checks of src/isa/riscv/mmu/cpu.rs agree with the rules on each of the 256 sets of flags.
use here.Base.{
  Bool, all_below, arith, below, false, none, not, refl, some, sym, true, ℕ, ◌<◌, ◌∙◌, ◌≡◌,
}
use here.Bits.{digit}
use here.Mmu.PageTable.{permits}
use here.Mmu.Policy.{
  AccessPrivilege, AccessType, check_for, machine_only, read_access, read_write_access,
  supervisor_and_user, supervisor_only, user_bits, user_only, write_access,
}
use here.Mmu.Policy.Rule.{level_for, may_access, sum_for}

same : Bool → Bool → Bool
same true b = b
same false b = not b

same_eq : (a b : Bool) → same a b ≡ true → a ≡ b
unfolding same
same_eq a b h = ground (arith, h)

agrees_at : AccessPrivilege → Bool → AccessType → ℕ → Bool
agrees_at p mxr_set access fs = elim (user_bits p) [
  | none ↦ true
  | some (masks, expected) ↦
      same (permits (check_for mxr_set access masks expected) fs)
        (may_access (level_for p) (sum_for p) mxr_set access fs)
]

agree :
    (p : AccessPrivilege) (mxr_set : Bool) (access : AccessType)
    → all_below 256 (agrees_at p mxr_set access) ≡ true
unfolding agrees_at same permits check_for level_for sum_for digit
agree user_only true read_access = refl
agree user_only true write_access = refl
agree user_only true read_write_access = refl
agree user_only false read_access = refl
agree user_only false write_access = refl
agree user_only false read_write_access = refl
agree supervisor_only true read_access = refl
agree supervisor_only true write_access = refl
agree supervisor_only true read_write_access = refl
agree supervisor_only false read_access = refl
agree supervisor_only false write_access = refl
agree supervisor_only false read_write_access = refl
agree supervisor_and_user true read_access = refl
agree supervisor_and_user true write_access = refl
agree supervisor_and_user true read_write_access = refl
agree supervisor_and_user false read_access = refl
agree supervisor_and_user false write_access = refl
agree supervisor_and_user false read_write_access = refl
agree machine_only true read_access = refl
agree machine_only true write_access = refl
agree machine_only true read_write_access = refl
agree machine_only false read_access = refl
agree machine_only false write_access = refl
agree machine_only false read_write_access = refl

agrees_some :
    (p : AccessPrivilege) (mxr_set : Bool) (access : AccessType) (masks expected fs : ℕ)
    → user_bits p ≡ some (masks, expected)
    → agrees_at p mxr_set access fs
      ≡ same
          (permits (check_for mxr_set access masks expected) fs)
          (may_access (level_for p) (sum_for p) mxr_set access fs)
unfolding agrees_at
agrees_some p mxr_set access masks expected fs e = simp (agrees_at, e)

pub checked_by :
    (p : AccessPrivilege) (mxr_set : Bool) (access : AccessType) (masks expected fs : ℕ)
    → user_bits p ≡ some (masks, expected)
    → fs < 256
    → permits (check_for mxr_set access masks expected) fs
      ≡ may_access (level_for p) (sum_for p) mxr_set access fs
checked_by p mxr_set access masks expected fs e lt =
    same_eq (permits (check_for mxr_set access masks expected) fs)
      (may_access (level_for p) (sum_for p) mxr_set access fs)
      (sym (agrees_some p mxr_set access masks expected fs e)
        ∙ below 256 (agrees_at p mxr_set access) fs (agree p mxr_set access) lt)
