-- ===== src/Trap/Controller/Pending.antt =====
-- Which interrupt `has_interrupt` finds.
use native.Mathlib.Nat.{mod-eq_of_lt, pow-suc, one-le-pow}
use here.Base.{
  ==_iff, Bool-cases, ap, arith, bit_and, false, inl, inr, none, refl, some, suc, sym, true, zero,
  ℕ, ◌*◌, ◌+◌, ◌<◌, ◌==◌, ◌^◌, ◌∙◌, ◌≡◌, ◌≤◌, ◌⊎◌,
}
use here.Bits.{digit, digit-le-one, digit_ext, digit_zero, pow-le, test_bit}
use here.Word.{shl}
use here.Csr.File.{CsrRegFile}
use here.Csr.Table.Machine.{mie, mip}
use here.Trap.{interrupt_from}
use here.Trap.Controller.{first_pending, has_interrupt}

-- The bit `i` is the lowest that is set.
abbrev pub IsLowest : ℕ → ℕ → Type 0
IsLowest i pending = (digit i pending ≡ 1) × ((j : ℕ) → j < i → digit j pending ≡ 0)

one_shl : (i : ℕ) → i < 64 → shl 1 i ≡ 1 * 2 ^ i
one_shl i h = mod-eq_of_lt (omega (arith, pow-suc 2 i, one-le-pow i 2, pow-le (suc i) 64 h))

bit_clear : (i pending : ℕ) → i < 64 → digit i pending ≡ 0 → bit_and pending (shl 1 i) ≡ 0
bit_clear i pending h z =
    omega
      (arith, ap (bit_and pending) (one_shl i h), test_bit i pending, ap (λ (t : ℕ). t * 2 ^ i) z)

bit_there :
    (i pending : ℕ) → i < 64 → digit i pending ≡ 1 → (bit_and pending (shl 1 i) == 0) ≡ false
bit_there i pending h o = ground (
  arith,
  ap (bit_and pending) (one_shl i h),
  test_bit i pending,
  ap (λ (t : ℕ). t * 2 ^ i) o,
  one-le-pow i 2,
)

-- What the loop finds from `i`.
data Found (fuel i pending : ℕ) : Type 0 where
  nothing :
      first_pending fuel i pending ≡ none
      → ((j : ℕ) → i ≤ j → j < i + fuel → digit j pending ≡ 0)
      → Found fuel i pending
  lowest :
      (r : ℕ)
      → first_pending fuel i pending ≡ some r
      → digit r pending ≡ 1
      → ((j : ℕ) → i ≤ j → j < r → digit j pending ≡ 0)
      → Found fuel i pending

at_or_after :
    (i pending j : ℕ)
    → digit i pending ≡ 0
    → (suc i ≤ j → digit j pending ≡ 0)
    → i ≤ j
    → digit j pending ≡ 0
at_or_after i pending j z rest h = elim (Bool-cases (i == j)) [
  | inl e ↦ ap (λ (t : ℕ). digit t pending) (sym ((==_iff i j).0 e)) ∙ z
  | inr e ↦ rest (ground (arith, e))
]

search : (fuel i pending : ℕ) → i + fuel ≤ 64 → Found fuel i pending
unfolding first_pending
search zero i pending h = nothing refl (λ j le lt. absurd (omega arith))
search (suc fuel) i pending h = elim (Bool-cases (digit i pending == 0)) [
  | inr one ↦
      lowest i
        (ground
          (arith, bit_there i pending (omega arith) (ground (arith, one, digit-le-one i pending))))
        (ground (arith, one, digit-le-one i pending)) (λ j le lt. absurd (omega arith))
  | inl z ↦ elim (search fuel (i + 1) pending (omega arith)) [
    | nothing e all ↦ nothing (ground (arith, e, cleared z)) (λ j le lt.
        at_or_after i pending j ((==_iff (digit i pending) 0).0 z)
          (λ l. all j (omega arith) (omega arith)) le)
    | lowest r e o all ↦ lowest r (ground (arith, e, cleared z)) o (λ j le lt.
        at_or_after i pending j ((==_iff (digit i pending) 0).0 z)
          (λ l. all j (omega arith) (omega arith)) le)
  ]
]
  where
    cleared : (digit i pending == 0) ≡ true → bit_and pending (shl 1 i) ≡ 0
    cleared z = bit_clear i pending (omega arith) ((==_iff (digit i pending) 0).0 z)

-- While no bit above 15 is pending and enabled, `has_interrupt` does not panic: it finds no
-- interrupt where none is pending and enabled, and otherwise that of the lowest such bit. This is the
-- reverse of the order in doc/isa/riscv/csr_reg.md, where a higher number has the higher priority.
pub has_interrupt-IsLowest :
    (f : CsrRegFile) (pending : ℕ)
    → bit_and (f.value_at mip) (f.value_at mie) ≡ pending
    → pending < 2 ^ 16
    → ((pending ≡ 0) × (has_interrupt f ≡ some none))
      ⊎ ((i : ℕ) × (has_interrupt f ≡ some (some (interrupt_from i))) × IsLowest i pending)
unfolding has_interrupt
has_interrupt-IsLowest f pending e h = elim (Bool-cases (pending == 0)) [
  | inl z ↦ inl ((==_iff pending 0).0 z, ground (arith, e, z))
  | inr nz ↦ elim (search 16 0 pending (omega arith)) [
    | nothing _ all ↦ absurd (
        ground (
          arith,
          nz,
          digit_ext 16 pending 0 h (omega arith)
              (λ i lt. all i (omega arith) (omega arith) ∙ sym (digit_zero i)),
        ))
    | lowest r found one all ↦
        inr (r, ground (arith, e, nz, found), (one, λ j lt. all j (omega arith) lt))
  ]
]
