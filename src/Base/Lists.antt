-- ===== src/Base/Lists.antt =====
-- Lists indexed by native numbers, and total maps from numbers.
use Prim.Native.Nat.{ℕ, zero, suc}
use mathlib.Core.Path.{◌≡◌}
use mathlib.Core.Logic.{◌≢◌}
use mathlib.Core.Option.{Option, none, some}
use mathlib.Core.List.{List, [], ◌∷◌}
use native.Mathlib.Omega.{arith}
use here.Base.Tests.{◌==◌, if◌then◌else◌}

module _ {ℓ} {A : Type ℓ} where
  abbrev pub length : List A → ℕ
  length [] = 0
  length (x ∷ xs) = suc (length xs)

  abbrev pub get_elem? : List A → ℕ → Option A
  get_elem? [] i = none
  get_elem? (x ∷ xs) zero = some x
  get_elem? (x ∷ xs) (suc i) = get_elem? xs i

  -- An array or map whose every index holds a value, with one index written.
  abbrev pub update : (ℕ → A) → ℕ → A → ℕ → A
  update f k v i = if i == k then v else f i

  pub update_self : (f : ℕ → A) (k : ℕ) (v : A) → update f k v k ≡ v
  update_self f k v = ground arith

  pub update_ne : (f : ℕ → A) (k : ℕ) (v : A) (i : ℕ) → i ≢ k → update f k v i ≡ f i
  update_ne f k v i h = ground arith

  pub update-eq : (f : ℕ → A) (k : ℕ) (v : A) (i : ℕ) → update f k v i ≡ (if k == i then v else f i)
  update-eq f k v i = ground arith
