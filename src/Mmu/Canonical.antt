-- ===== src/Mmu/Canonical.antt =====
-- The tests and the fields of virtual addresses of src/isa/riscv/mmu/config.rs and address.rs, as
-- arithmetic.
use native.Mathlib.Nat.{div-div-eq-div-mul}
use here.Base.{
  Bool, ap, arith, inl, inr, leb, ltb, ℕ, ◌%◌, ◌*◌, ◌+◌, ◌-◌, ◌/◌, ◌<◌, ◌^◌, ◌||◌, ◌∙◌, ◌≡◌, ◌⊎◌,
}
use here.Bits.{bit_and_field, bit_and_ones, pow-sum}
use here.Word.{is_sign_extended, sar, sign_extend}
use here.Mmu.Config.{from_vaddr, is_canonical_vaddr, vpn_index}

-- An address of `n` bits is canonical where it lies in the lower or in the upper half.
pub in_halves : ℕ → ℕ → Bool
in_halves n vaddr = ltb vaddr (2 ^ (n - 1)) || leb (2 ^ 64 - 2 ^ (n - 1)) vaddr

-- For a word the canonical test of each mode is that of the two halves of the address space.
pub is_canonical_vaddr-eq_halves :
    (n vaddr : ℕ)
    → (n ≡ 39) ⊎ ((n ≡ 48) ⊎ (n ≡ 57))
    → vaddr < 2 ^ 64
    → is_canonical_vaddr n vaddr ≡ in_halves n vaddr
unfolding is_canonical_vaddr is_sign_extended sign_extend sar in_halves
is_canonical_vaddr-eq_halves n vaddr (inl e) lt = ground arith
is_canonical_vaddr-eq_halves n vaddr (inr (inl e)) lt = ground arith
is_canonical_vaddr-eq_halves n vaddr (inr (inr e)) lt = ground arith

-- The page number of an address is its address rounded down to a page.
pub from_vaddr-eq : (vaddr : ℕ) → vaddr < 2 ^ 64 → from_vaddr vaddr ≡ vaddr / 2 ^ 12 * 2 ^ 12
unfolding from_vaddr
from_vaddr-eq vaddr lt = omega (arith, bit_and_field 12 52 vaddr)

below_page : (vaddr e : ℕ) → vaddr < 2 ^ 64 → from_vaddr vaddr / 2 ^ (12 + e) ≡ vaddr / 2 ^ (12 + e)
below_page vaddr e lt = omega (
  arith,
  ap (λ (t : ℕ). from_vaddr vaddr / t) (split e),
  ap (λ (t : ℕ). vaddr / t) (split e),
  div-div-eq-div-mul (from_vaddr vaddr) (2 ^ 12) (2 ^ e),
  div-div-eq-div-mul vaddr (2 ^ 12) (2 ^ e),
  ap (λ (t : ℕ). t / 2 ^ e) (page_number vaddr lt),
)
  where
    split : (e : ℕ) → 2 ^ (12 + e) ≡ 2 ^ 12 * 2 ^ e
    split e = omega (arith, pow-sum 12 e)

    page_number : (vaddr : ℕ) → vaddr < 2 ^ 64 → from_vaddr vaddr / 2 ^ 12 ≡ vaddr / 2 ^ 12
    page_number vaddr lt = omega (arith, from_vaddr-eq vaddr lt)

-- The index into the table of a level is that level's group of nine bits of the address.
pub vpn_index-from_vaddr :
    (vaddr level : ℕ)
    → vaddr < 2 ^ 64
    → vpn_index (from_vaddr vaddr) level ≡ vaddr / 2 ^ (12 + level * 9) % 2 ^ 9
unfolding vpn_index
vpn_index-from_vaddr vaddr level lt =
    bit_and_ones 9 (from_vaddr vaddr / 2 ^ (12 + level * 9))
    ∙ ap (λ (t : ℕ). t % 2 ^ 9) (below_page vaddr (level * 9) lt)
