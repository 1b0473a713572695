-- ===== src/Mmu/Policy/Permission.antt =====
-- What the policies allow, against the rules of the privileged architecture.
use here.Base.{
  Bool, Option, Option-cases, ap, arith, inl, inr, none, refl, some, sym, ℕ, ◌<◌, ◌==◌, ◌↔◌, ◌∙◌,
  ◌≡◌, ◌⊎◌,
}
use here.Device.{MemError}
use here.Csr.{PrivilegeLevel, machine, supervisor, user, virtual}
use here.Csr.Fields.{field_of_lt}
use here.Csr.File.{CsrRegFile}
use here.Csr.Table.Machine.{mstatus}
use here.Mmu.Config.{AccessEffect, PermissionCheck}
use here.Mmu.PageTable.{permits}
use here.Mmu.Policy.{
  AccessPolicy, AccessPrivilege, AccessType, check_for, determine_data_access_privilege, direct,
  effect_of, fault_of, machine_only, mxr_of, policy_for, resolve_data_policy, sum_of,
  supervisor_and_user, supervisor_only, supervisor_privilege, translated, user_bits, user_only,
}
use here.Mmu.Policy.Finite.{checked_by}
use here.Mmu.Policy.Rule.{effective_level, level_for, may_access, sum_for}

privilege_for : PrivilegeLevel → ℕ → Option AccessPrivilege
privilege_for machine sum_bit = some machine_only
privilege_for supervisor sum_bit = some (supervisor_privilege sum_bit)
privilege_for user sum_bit = some user_only
privilege_for virtual sum_bit = none

determined :
    (f : CsrRegFile) (level : PrivilegeLevel)
    → effective_level f ≡ some level
    → determine_data_access_privilege f ≡ privilege_for level (sum_of f)
unfolding determine_data_access_privilege privilege_for
determined f level h = ground (arith, h)

sum_lt : (f : CsrRegFile) → sum_of f < 2
sum_lt f = field_of_lt (f.value_at mstatus) 18 1 (omega arith)

-- What `privilege_for` chooses stands for the level and SUM, but for the direct access.
stands :
    (level : PrivilegeLevel) (sum_bit : ℕ) (p : AccessPrivilege) (mxr_set : Bool)
    (access : AccessType) (fs : ℕ)
    → sum_bit < 2
    → privilege_for level sum_bit ≡ some p
    → (user_bits p ≡ none)
      ⊎ (may_access (level_for p) (sum_for p) mxr_set access fs
          ≡ may_access level (sum_bit == 1) mxr_set access fs)
unfolding privilege_for level_for sum_for
stands user sum_bit user_only mxr_set access fs lt h = inr refl
stands supervisor sum_bit supervisor_only mxr_set access fs lt h = inr (ground (arith, h))
stands supervisor sum_bit supervisor_and_user mxr_set access fs lt h = inr (ground (arith, h))
stands level sum_bit machine_only mxr_set access fs lt h = inl refl
stands user sum_bit supervisor_only mxr_set access fs lt h = absurd (ground (arith, h))
stands user sum_bit supervisor_and_user mxr_set access fs lt h = absurd (ground (arith, h))
stands supervisor sum_bit user_only mxr_set access fs lt h = absurd (ground (arith, h))
stands virtual sum_bit p mxr_set access fs lt h = absurd (ground (arith, h))
stands machine sum_bit p mxr_set access fs lt h = inl (ground (arith, h))

check_of : PermissionCheck → AccessPolicy → PermissionCheck
check_of other direct = other
check_of other (translated check _ _) = check

policy_some :
    (p : AccessPrivilege) (mxr_set : Bool) (access : AccessType) (side_effect : Bool)
    (masks expected : ℕ)
    → user_bits p ≡ some (masks, expected)
    → policy_for p mxr_set access side_effect
      ≡ translated
          (check_for mxr_set access masks expected)
          (effect_of side_effect access)
          (fault_of access)
unfolding policy_for
policy_some p mxr_set access side_effect masks expected e = simp (policy_for, e)

policy_none :
    (p : AccessPrivilege) (mxr_set : Bool) (access : AccessType) (side_effect : Bool)
    → user_bits p ≡ none
    → policy_for p mxr_set access side_effect ≡ direct
unfolding policy_for
policy_none p mxr_set access side_effect e = simp (policy_for, e)

checked :
    (p : AccessPrivilege) (mxr_set : Bool) (access : AccessType) (side_effect : Bool)
    (check : PermissionCheck) (effect : AccessEffect) (fault : MemError) (fs : ℕ)
    → policy_for p mxr_set access side_effect ≡ translated check effect fault
    → fs < 256
    → permits check fs ≡ may_access (level_for p) (sum_for p) mxr_set access fs
unfolding check_of
checked p mxr_set access side_effect check effect fault fs h lt =
    elim (Option-cases (user_bits p)) [
      | inl e ↦ absurd (ground (arith, policy_none p mxr_set access side_effect e, h))
      | inr ((masks, expected), e) ↦
          ap (λ x. permits (check_of check x) fs)
            (sym h ∙ policy_some p mxr_set access side_effect masks expected e)
          ∙ checked_by p mxr_set access masks expected fs e lt
    ]

resolved : PrivilegeLevel → ℕ → Bool → AccessType → Bool → Option AccessPolicy
resolved level sum_bit mxr_set access side_effect = elim (privilege_for level sum_bit) [
  | none ↦ none
  | some privilege ↦ some (policy_for privilege mxr_set access side_effect)
]

resolve_data_policy-eq :
    (f : CsrRegFile) (access : AccessType) (side_effect : Bool) (level : PrivilegeLevel)
    → effective_level f ≡ some level
    → resolve_data_policy f access side_effect
      ≡ resolved level (sum_of f) (mxr_of f == 1) access side_effect
unfolding resolve_data_policy resolved
resolve_data_policy-eq f access side_effect level hl =
    simp (resolve_data_policy, resolved, determined f level hl)

-- The check of a data access, on the flags of any page, is the rule for the effective level, SUM
-- and MXR.
pub resolve_data_policy-may_access :
    (f : CsrRegFile) (access : AccessType) (side_effect : Bool) (level : PrivilegeLevel)
    (check : PermissionCheck) (effect : AccessEffect) (fault : MemError) (fs : ℕ)
    → effective_level f ≡ some level
    → resolve_data_policy f access side_effect ≡ some (translated check effect fault)
    → fs < 256
    → permits check fs ≡ may_access level (sum_of f == 1) (mxr_of f == 1) access fs
unfolding resolved
resolve_data_policy-may_access f access side_effect level check effect fault fs hl h lt =
    elim (Option-cases (privilege_for level (sum_of f))) [
      | inl e ↦ absurd (ground (arith, h, to_resolved, e))
      | inr (p, e) ↦
          checked p (mxr_of f == 1) access side_effect check effect fault fs
            (ground (arith, h, to_resolved, e)) lt
          ∙ elim (stands level (sum_of f) p (mxr_of f == 1) access fs (sum_lt f) e) [
            | inl d ↦ absurd (
                ground
                  (arith, h, to_resolved, e, policy_none p (mxr_of f == 1) access side_effect d))
            | inr q ↦ q
          ]
    ]
  where
    to_resolved :
        resolve_data_policy f access side_effect
        ≡ resolved level (sum_of f) (mxr_of f == 1) access side_effect
    to_resolved = resolve_data_policy-eq f access side_effect level hl

resolved-direct :
    (level : PrivilegeLevel) (sum_bit : ℕ) (mxr_set : Bool) (access : AccessType)
    (side_effect : Bool)
    → (resolved level sum_bit mxr_set access side_effect ≡ some direct) ↔ (level ≡ machine)
unfolding resolved privilege_for policy_for
resolved-direct user sum_bit mxr_set access side_effect = ground arith
resolved-direct supervisor sum_bit mxr_set access side_effect = ground arith
resolved-direct virtual sum_bit mxr_set access side_effect = ground arith
resolved-direct machine sum_bit mxr_set access side_effect = ground arith

-- A data access is direct exactly where its effective level is the machine's.
pub resolve_data_policy-direct :
    (f : CsrRegFile) (access : AccessType) (side_effect : Bool) (level : PrivilegeLevel)
    → effective_level f ≡ some level
    → (resolve_data_policy f access side_effect ≡ some direct) ↔ (level ≡ machine)
resolve_data_policy-direct f access side_effect level hl =
    rw (resolve_data_policy-eq f access side_effect level hl)
      (resolved-direct level (sum_of f) (mxr_of f == 1) access side_effect)
