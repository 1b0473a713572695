-- ===== src/Cache/Direct.antt =====
-- `DirectCache`: one slot for each index. `bits` gives N = 2 ^ bits slots, and the slots of the
-- box are held by their index; a zeroed slot is the tag 0 with `None`.
use here.Base.{
  Option, arith, bit_and, if◌then◌else◌, none, some, update, ℕ, ◌%◌, ◌-◌, ◌/◌, ◌==◌, ◌^◌, ◌≡◌,
}
use here.Bits.{bit_and_ones}
use here.Word.{shr}
use here.Cache.{CachePolicy, IsCoherent, index_of}

pub record DirectCache (T : Type 0) : Type 0 where
  pub slots : ℕ → ℕ × Option T

unfoldable pub get_id : ℕ → ℕ → ℕ → ℕ
get_id shift_bits bits addr = bit_and (index_of shift_bits addr) (2 ^ bits - 1)

module _ {T : Type 0} where
  abbrev pub direct_new : DirectCache T
  direct_new = record { slots = λ _. (0, none) }

  unfoldable pub direct_get : ℕ → ℕ → DirectCache T → ℕ → Option T
  direct_get shift_bits bits c addr =
      let (tag, entry) = c.slots (get_id shift_bits bits addr) in
      if tag == addr then entry else none

  unfoldable pub direct_put : ℕ → ℕ → DirectCache T → ℕ → T → DirectCache T
  direct_put shift_bits bits c addr v = record {
    slots = update c.slots (get_id shift_bits bits addr) (addr, some v);
  }

  unfoldable pub direct_invalidate : ℕ → ℕ → DirectCache T → ℕ → DirectCache T
  direct_invalidate shift_bits bits c addr = record {
    slots = update c.slots (get_id shift_bits bits addr) (0, none);
  }

abbrev pub direct_cache : {T : Type 0} → ℕ → ℕ → CachePolicy T
direct_cache {T} shift_bits bits = record {
  State = DirectCache T;
  empty = direct_new;
  get = direct_get shift_bits bits;
  put = direct_put shift_bits bits;
  invalidate = direct_invalidate shift_bits bits;
  clear = λ _. direct_new;
}

-- The direct-mapped cache is coherent at every size: a hit is what was put last at its address
-- since it was last invalidated or cleared.
pub direct_cache-IsCoherent :
    (T : Type 0) (shift_bits bits : ℕ) → IsCoherent (direct_cache {T = T} shift_bits bits)
unfolding direct_get direct_put direct_invalidate
direct_cache-IsCoherent T shift_bits bits = record {
  get-empty = λ a. ground arith;
  get-put_self = λ c a v. ground arith;
  get-put = λ c a b v w ne h. ground arith;
  get-invalidate_self = λ c a. ground arith;
  get-invalidate = λ c a b w h. ground arith;
  get-clear = λ c a. ground arith;
}

-- An address has its slot by the low bits of its index.
pub get_id-eq :
    (shift_bits bits addr : ℕ) → get_id shift_bits bits addr ≡ addr / 2 ^ shift_bits % 2 ^ bits
unfolding get_id
get_id-eq shift_bits bits addr = bit_and_ones bits (shr addr shift_bits)
