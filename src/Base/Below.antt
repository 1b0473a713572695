-- ===== src/Base/Below.antt =====
-- Tests of all numbers below a bound, which evaluation decides.
use Prim.Native.Nat.{ℕ, zero, suc, ◌<◌}
use mathlib.Core.Path.{◌≡◌, ap, ◌∙◌, sym, subst}
use mathlib.Core.Logic.{inl, inr}
use mathlib.Core.Bool.{Bool, true, ◌&&◌}
use native.Mathlib.Omega.{arith}
use here.Base.Tests.{Bool-cases, ==_iff, ◌==◌}

abbrev pub all_below : ℕ → (ℕ → Bool) → Bool
all_below zero test = true
all_below (suc n) test = test n && all_below n test

pub below : (n : ℕ) (test : ℕ → Bool) (a : ℕ) → all_below n test ≡ true → a < n → test a ≡ true
below zero test a h lt = absurd (omega arith)
below (suc n) test a h lt = elim (Bool-cases (a == n)) [
  | inl e ↦ ap test ((==_iff a n).0 e) ∙ first
  | inr e ↦ below n test a rest (ground (arith, e))
]
  where
    first : test n ≡ true
    first = ground (arith, h)

    rest : all_below n test ≡ true
    rest = ground (arith, h)

-- A family over the numbers below a bound, as a product.
abbrev pub Each : ℕ → (ℕ → Type 0) → Type 0
Each zero P = Unit
Each (suc n) P = P n × Each n P

pub each : (n : ℕ) (P : ℕ → Type 0) → Each n P → (i : ℕ) → i < n → P i
each zero P h i lt = absurd (omega arith)
each (suc n) P (p, h) i lt = elim (Bool-cases (i == n)) [
  | inl e ↦ subst P (sym ((==_iff i n).0 e)) p
  | inr e ↦ each n P h i (ground (arith, e))
]
