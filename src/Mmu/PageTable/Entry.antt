-- ===== src/Mmu/PageTable/Entry.antt =====
-- The fields of a page table entry as arithmetic, and the alignment of superpages.
use native.Mathlib.Nat.{one-le-pow}
use here.Base.{arith, bit_and, bit_or, suc, zero, ℕ, ◌%◌, ◌*◌, ◌+◌, ◌-◌, ◌/◌, ◌<◌, ◌^◌, ◌≡◌, ◌≤◌}
use here.Bits.{bit_and_field, bit_and_ones, bit_or_sum}
use here.Mmu.Config.{from_ppn, physical_addr}
use here.Mmu.PageTable.{WalkInfo, flags, leaf_address, page_shift, ppn, superpage_mask}

pub flags-eq : (bits : ℕ) → flags bits ≡ bits % 256
unfolding flags
flags-eq bits = omega (arith, bit_and_ones 10 bits)

pub ppn-eq : (bits : ℕ) → ppn bits ≡ bits / 2 ^ 10 % 2 ^ 44 * 2 ^ 12
unfolding ppn from_ppn
ppn-eq bits = omega (arith, bit_and_field 10 44 bits)

superpage_test :
    (level bits : ℕ)
    → level ≤ 4
    → bit_and bits (superpage_mask level) ≡ bits / 2 ^ 10 % 2 ^ (level * 9) * 2 ^ 10
superpage_test zero bits h = bit_and_field 10 0 bits
superpage_test (suc zero) bits h = bit_and_field 10 9 bits
superpage_test (suc (suc zero)) bits h = bit_and_field 10 18 bits
superpage_test (suc (suc (suc zero))) bits h = bit_and_field 10 27 bits
superpage_test (suc (suc (suc (suc zero)))) bits h = bit_and_field 10 36 bits
superpage_test (suc (suc (suc (suc (suc n))))) bits h = absurd (omega arith)

-- An entry that passes the test for its level holds a page number that is a multiple of the
-- number of pages of the superpage.
pub ppn_aligned :
    (level bits : ℕ)
    → level ≤ 4
    → bit_and bits (superpage_mask level) ≡ 0
    → ppn bits % 2 ^ page_shift level ≡ 0
ppn_aligned zero bits h z = omega (arith, ppn-eq bits, superpage_test 0 bits h)
ppn_aligned (suc zero) bits h z = omega (arith, ppn-eq bits, superpage_test 1 bits h)
ppn_aligned (suc (suc zero)) bits h z = omega (arith, ppn-eq bits, superpage_test 2 bits h)
ppn_aligned (suc (suc (suc zero))) bits h z = omega (arith, ppn-eq bits, superpage_test 3 bits h)
ppn_aligned (suc (suc (suc (suc zero)))) bits h z =
    omega (arith, ppn-eq bits, superpage_test 4 bits h)
ppn_aligned (suc (suc (suc (suc (suc n))))) bits h z = absurd (omega arith)

pub ppn_lt : (bits : ℕ) → ppn bits < 2 ^ 56
ppn_lt bits = omega (arith, ppn-eq bits)

room :
    (level base : ℕ)
    → level ≤ 4
    → base % 2 ^ page_shift level ≡ 0
    → base < 2 ^ 56
    → base + 2 ^ page_shift level ≤ 2 ^ 56
room zero base h z lt = omega arith
room (suc zero) base h z lt = omega arith
room (suc (suc zero)) base h z lt = omega arith
room (suc (suc (suc zero))) base h z lt = omega arith
room (suc (suc (suc (suc zero)))) base h z lt = omega arith
room (suc (suc (suc (suc (suc n))))) base h z lt = absurd (omega arith)

joined :
    (n base vaddr : ℕ)
    → base % 2 ^ n ≡ 0
    → base + 2 ^ n ≤ 2 ^ 56
    → physical_addr (bit_or base (bit_and vaddr (2 ^ n - 1))) ≡ base + vaddr % 2 ^ n
unfolding physical_addr
joined n base vaddr z le = ground (
  arith,
  one-le-pow n 2,
  bit_and_ones n vaddr,
  bit_or_sum n (base / 2 ^ n) (vaddr % 2 ^ n) (omega (arith, one-le-pow n 2)),
  bit_and_ones 56 (base + vaddr % 2 ^ n),
)

pub leaf_address-eq :
    (info : WalkInfo) (vaddr : ℕ)
    → info.leaf_level ≤ 4
    → info.leaf_ppn % 2 ^ page_shift info.leaf_level ≡ 0
    → info.leaf_ppn < 2 ^ 56
    → leaf_address info vaddr ≡ info.leaf_ppn + vaddr % 2 ^ page_shift info.leaf_level
unfolding leaf_address
leaf_address-eq info vaddr h z lt =
    joined (page_shift info.leaf_level) info.leaf_ppn vaddr z
      (room info.leaf_level info.leaf_ppn h z lt)
