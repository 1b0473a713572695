-- ===== src/Cache/Associative.antt =====
-- `SetCache`: sets of `ways` slots, filled in turn.
use here.Base.{
  List, Option, [], arith, bit_and, if◌then◌else◌, none, some, suc, update, zero, ℕ, ◌+◌, ◌-◌, ◌==◌,
  ◌^◌, ◌∷◌, ◌≡◌,
}
use here.Cache.{CachePolicy, index_of}

pub record CacheSet (T : Type 0) : Type 0 where
  pub idx : ℕ
  pub slots : List (ℕ × Option T)

module _ {T : Type 0} where
  -- `slots[i] = x`; the callers' index is in range.
  unfoldable pub set_slot : List (ℕ × Option T) → ℕ → ℕ × Option T → List (ℕ × Option T)
  set_slot [] i x = []
  set_slot (y ∷ ys) zero x = x ∷ ys
  set_slot (y ∷ ys) (suc i) x = y ∷ set_slot ys i x

  unfoldable pub replicate : ℕ → ℕ × Option T → List (ℕ × Option T)
  replicate zero x = []
  replicate (suc n) x = x ∷ replicate n x

  unfoldable pub set_new : ℕ → CacheSet T
  unfolding replicate
  set_new ways = record { idx = 0; slots = replicate ways (0, none) }

  unfoldable pub set_insert : ℕ → CacheSet T → ℕ → T → CacheSet T
  unfolding set_slot
  set_insert ways s addr v =
      let next = s.idx + 1 in
      record {
        idx = if next == ways then 0 else next;
        slots = set_slot s.slots s.idx (addr, some v);
      }

  -- `slots.iter().position(|(a, _)| a == addr)`, and the entry there
  unfoldable pub first_entry : List (ℕ × Option T) → ℕ → Option T
  first_entry [] addr = none
  first_entry ((a, entry) ∷ rest) addr = if a == addr then entry else first_entry rest addr

  unfoldable pub drop_first : List (ℕ × Option T) → ℕ → List (ℕ × Option T)
  drop_first [] addr = []
  drop_first ((a, entry) ∷ rest) addr =
      if a == addr then (0, none) ∷ rest else (a, entry) ∷ drop_first rest addr

  unfoldable pub set_invalidate : CacheSet T → ℕ → CacheSet T
  unfolding drop_first
  set_invalidate s addr = record s { slots = drop_first s.slots addr }

pub record SetCache (T : Type 0) : Type 0 where
  pub sets : ℕ → CacheSet T

unfoldable pub set_index_of : ℕ → ℕ → ℕ → ℕ
set_index_of shift_bits bits addr = bit_and (index_of shift_bits addr) (2 ^ bits - 1)

-- `S` is 2 ^ bits sets, held by their index.
abbrev pub set_cache : {T : Type 0} → ℕ → ℕ → ℕ → CachePolicy T
set_cache {T} shift_bits bits ways = record {
  State = SetCache T;
  empty = record { sets = λ _. set_new ways };
  get = λ c addr. first_entry (c.sets (set_index_of shift_bits bits addr)).slots addr;
  put = λ c addr v.
      let i = set_index_of shift_bits bits addr in
      record { sets = update c.sets i (set_insert ways (c.sets i) addr v) };
  invalidate = λ c addr.
      let i = set_index_of shift_bits bits addr in
      record { sets = update c.sets i (set_invalidate (c.sets i) addr) };
  clear = λ _. record { sets = λ _. set_new ways };
}

-- A set of two or more ways that is filled in turn from its start gives the older of two values
-- that were put at one address: the cache is not coherent.
pub set_cache-stale :
    (T : Type 0) (shift_bits bits ways a : ℕ) (v w : T)
    → (set_cache {T = T} shift_bits bits (suc (suc ways))).get
        ((set_cache shift_bits bits (suc (suc ways))).put
          ((set_cache shift_bits bits (suc (suc ways))).put
            (set_cache shift_bits bits (suc (suc ways))).empty
            a
            v)
          a
          w)
        a
      ≡ some v
unfolding first_entry set_insert set_new set_slot
set_cache-stale T shift_bits bits ways a v w = ground arith
