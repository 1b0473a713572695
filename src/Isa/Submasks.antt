-- ===== src/Isa/Submasks.antt =====
-- The loop of src/isa/riscv/decoder/funct_decoder.rs over the values of `funct7` that a mask leaves
-- open.
use here.Base.{
  Bool, List, Option-cases, [], all_below, arith, below, bit_and, false, inl, inr, none, not, refl,
  some, sym, true, ℕ, ◌<◌, ◌==◌, ◌||◌, ◌∷◌, ◌≡◌,
}
use here.Isa.Funct.{submasks}

abbrev pub contains : List ℕ → ℕ → Bool
contains [] s = false
contains (x ∷ xs) s = x == s || contains xs s

abbrev same : Bool → Bool → Bool
same true b = b
same false b = not b

abbrev visits : ℕ → List ℕ → ℕ → Bool
visits rev_mask l s = same (contains l s) (bit_and s rev_mask == s)

abbrev visits_all : ℕ → Bool
visits_all rev_mask = elim (submasks rev_mask) [
  | none ↦ false
  | some l ↦ all_below 128 (visits rev_mask l)
]

checked : all_below 128 visits_all ≡ true
unfolding submasks
checked = refl

same-≡ : (a b : Bool) → same a b ≡ true → a ≡ b
same-≡ true b h = sym h
same-≡ false true h = absurd (ground (arith, h))
same-≡ false false h = refl

-- The loop ends within its fuel for every open part of a `funct7`, and visits the values whose bits
-- are open, and no others.
pub submasks-ends :
    (rev_mask : ℕ)
    → rev_mask < 128
    → (l : List ℕ) × (submasks rev_mask ≡ some l)
      × ((s : ℕ) → s < 128 → contains l s ≡ (bit_and s rev_mask == s))
submasks-ends rev_mask h = elim (Option-cases (submasks rev_mask)) [
  | inl e ↦ absurd (ground (arith, e, below 128 visits_all rev_mask checked h))
  | inr (l, e) ↦ (
    l,
    e,
    λ s lt. same-≡ (contains l s) (bit_and s rev_mask == s) (
        below 128 (visits rev_mask l) s (ground (arith, e, below 128 visits_all rev_mask checked h))
          lt),
  )
]
