-- ===== src/Mmu/Policy/Examples.antt =====
-- The machine level with MPRV set and MPP at the user level.
use here.Base.{arith, refl, true, ◌==◌, ◌^◌, ◌≡◌}
use here.Word.{bit_ones}
use here.Device.{load_page_fault}
use here.Csr.{user}
use here.Csr.File.{CsrRegFile, csr_new, field_of, store_at}
use here.Csr.Table.Machine.{mstatus}
use here.Mmu.Config.{accessed}
use here.Mmu.PageTable.{permits}
use here.Mmu.Policy.{
  check_for, determine_data_access_privilege, mxr_of, policy_for, read_access, resolve_data_policy,
  sum_of,
}
use here.Mmu.Policy.Permission.{resolve_data_policy-may_access}
use here.Mmu.Policy.Rule.{may_access}

abbrev borrowed : CsrRegFile
borrowed = store_at csr_new mstatus (2 ^ 17)

resolve_data_policy-may_access_example :
    permits (record { any_of = 0; exact_mask = 18; exact_flags = 18 }) 0x13
    ≡ may_access user (sum_of borrowed == 1) (mxr_of borrowed == 1) read_access 0x13
unfolding resolve_data_policy policy_for check_for determine_data_access_privilege field_of bit_ones
resolve_data_policy-may_access_example =
    resolve_data_policy-may_access borrowed read_access true user
      (record { any_of = 0; exact_mask = 18; exact_flags = 18 }) accessed load_page_fault 0x13 refl
      refl (omega arith)
