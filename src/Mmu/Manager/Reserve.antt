-- ===== src/Mmu/Manager/Reserve.antt =====
-- What becomes of the reservation at a store-conditional through the walker.
use here.Base.{Bool, Result, arith, false, inl, inr, none, ok, some, ℕ, ◌≡◌, ◌⊎◌}
use here.Word.{Width, check_align}
use here.Device.{MemError}
use here.Mmio.{DeviceArena, bus_clear_reservation}
use here.Mmu.Manager.{VirtAddrManager, store_conditional_with_policy, translate_with_policy}
use here.Mmu.Policy.{AccessPolicy}
use here.Ram.{Ram, clear_reservation}

module _ (A : DeviceArena) where
  -- A store-conditional that is misaligned, or whose address is translated, leaves no reservation,
  -- whatever its outcome.
  pub store_conditional_with_policy-clears :
      (debug : Bool) (t : Width) (m : VirtAddrManager A) (addr v : ℕ) (policy : AccessPolicy)
      (r : Result MemError Bool) (m' : VirtAddrManager A) (paddr : ℕ) (m1 : VirtAddrManager A)
      → (check_align t addr ≡ false) ⊎ (translate_with_policy A m addr policy ≡ some (ok paddr, m1))
      → store_conditional_with_policy A debug t m addr v policy ≡ some (r, m')
      → m'.mmio.ram.reserved ≡ none
  unfolding store_conditional_with_policy bus_clear_reservation clear_reservation
  store_conditional_with_policy-clears debug t m addr v policy r m' paddr m1 (inl e) h =
      ground (arith, e, h)
  store_conditional_with_policy-clears debug t m addr v policy r m' paddr m1 (inr e) h =
      ground (arith, e, h)
