-- ===== src/Cache.antt =====
-- src/isa/cache.rs: the caches of the emulator, as operations on explicit states.
pub mod Direct
pub mod Associative
pub mod Stats
mod Examples
use here.Base.{Option, none, some, ℕ, ◌≡◌, ◌≢◌}
use here.Word.{shr}

-- The trait `CachePolicy`.
pub record CachePolicy (T : Type 0) : Type 1 where
  pub State : Type 0
  pub empty : State
  pub get : State → ℕ → Option T
  pub put : State → ℕ → T → State
  pub invalidate : State → ℕ → State
  pub clear : State → State

-- What a client may rely on: a hit is what was put last, and no entry outlives its removal.
pub record IsCoherent {T : Type 0} (P : CachePolicy T) : Type 0 where
  pub get-empty : (a : ℕ) → P.get P.empty a ≡ none
  pub get-put_self : (c : P.State) (a : ℕ) (v : T) → P.get (P.put c a v) a ≡ some v
  pub get-put :
      (c : P.State) (a b : ℕ) (v w : T)
      → a ≢ b
      → P.get (P.put c a v) b ≡ some w
      → P.get c b ≡ some w
  pub get-invalidate_self : (c : P.State) (a : ℕ) → P.get (P.invalidate c a) a ≡ none
  pub get-invalidate :
      (c : P.State) (a b : ℕ) (w : T) → P.get (P.invalidate c a) b ≡ some w → P.get c b ≡ some w
  pub get-clear : (c : P.State) (a : ℕ) → P.get (P.clear c) a ≡ none

-- `Cacheable::index_of`
abbrev pub index_of : ℕ → ℕ → ℕ
index_of shift_bits addr = shr addr shift_bits

-- `NullCache`
abbrev pub null_cache : {T : Type 0} → CachePolicy T
null_cache = record {
  State = Unit {0};
  empty = tt;
  get = λ _ _. none;
  put = λ _ _ _. tt;
  invalidate = λ _ _. tt;
  clear = λ _. tt;
}
