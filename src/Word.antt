-- ===== src/Word.antt =====
-- src/utils.rs and src/config.rs: the word type of the riscv64 build, masks, sign extension and
-- alignment. A word is a number below 2 ^ 64; what wraps in the source is reduced by `%` here.
pub mod Laws
use here.Base.{
  Bool, Option, bit_and, bit_or, if◌then◌else◌, ltb, none, some, suc, zero, ℕ, ◌%◌, ◌*◌, ◌+◌, ◌-◌,
  ◌/◌, ◌==◌, ◌^◌,
}

-- The types that implement `UnsignedInteger`, as widths.
pub data Width : Type 0 where
  byte half word double : Width

-- `size_of::<T>()`
abbrev pub size_of : Width → ℕ
size_of byte = 1
size_of half = 2
size_of word = 4
size_of double = 8

-- `T::BITS`
abbrev pub bits_of : Width → ℕ
bits_of byte = 8
bits_of half = 16
bits_of word = 32
bits_of double = 64

abbrev pub base_addr : ℕ
base_addr = 0x8000_0000

abbrev pub ram_size : ℕ
ram_size = 512 * 2 ^ 20

abbrev pub xlen : ℕ
xlen = 64

abbrev pub word_mod : ℕ
word_mod = 2 ^ 64

-- `!x` on a word
abbrev pub bit_not : ℕ → ℕ
bit_not x = 2 ^ 64 - 1 - x

-- `x << k` on a word
abbrev pub shl : ℕ → ℕ → ℕ
shl x k = x * 2 ^ k % 2 ^ 64

-- `x >> k` on a word
abbrev pub shr : ℕ → ℕ → ℕ
shr x k = x / 2 ^ k

-- `a - b` on a word, as the release profile computes it
abbrev pub wrapping_sub : ℕ → ℕ → ℕ
wrapping_sub a b = (a + 2 ^ 64 - b) % 2 ^ 64

abbrev pub wrapping_add : ℕ → ℕ → ℕ
wrapping_add a b = (a + b) % 2 ^ 64

abbrev pub checked_sub : ℕ → ℕ → Option ℕ
checked_sub a b = if ltb a b then none else some (a - b)

abbrev pub checked_add : ℕ → ℕ → Option ℕ
checked_add a b = if ltb (a + b) (2 ^ 64) then some (a + b) else none

-- `TruncateFrom`: `val as T`
abbrev pub truncate_to : Width → ℕ → ℕ
truncate_to t v = v % 2 ^ bits_of t

-- `BIT_ONES_ARRAY[n]`, filled by the loop of `gen_ones_array`.
unfoldable pub bit_ones : ℕ → ℕ
bit_ones zero = 0
bit_ones (suc i) = bit_or (bit_ones i) (shl 1 i)

unfoldable pub make_mask : ℕ → ℕ → ℕ
unfolding bit_ones
make_mask left right = let width = right - left + 1 in shl (bit_ones width) left

unfoldable pub extract_range : ℕ → ℕ → ℕ → ℕ
unfolding bit_ones
extract_range x l r = bit_and (shr x l) (bit_ones (r - l + 1))

-- The arithmetic right shift of a word read as `i64`.
unfoldable pub sar : ℕ → ℕ → ℕ
sar x k = if ltb x (2 ^ 63) then x / 2 ^ k else 2 ^ 64 - 1 - (2 ^ 64 - 1 - x) / 2 ^ k

unfoldable pub sign_extend : ℕ → ℕ → ℕ
unfolding sar
sign_extend value from_bits = let sign_bit = xlen - from_bits in sar (shl value sign_bit) sign_bit

unfoldable pub is_sign_extended : ℕ → ℕ → Bool
unfolding sign_extend
is_sign_extended value bits = value == sign_extend value bits

unfoldable pub negative_of : ℕ → ℕ
negative_of value = wrapping_add (bit_not value) 1

unfoldable pub concat_to_u64 : ℕ → ℕ → ℕ
concat_to_u64 high low = bit_or (shl high 32) low

-- `ALIGN_ILST[size_of::<T>()]`
abbrev pub align_list : Width → ℕ
align_list byte = 0x00
align_list half = 0x01
align_list word = 0x03
align_list double = 0x07

unfoldable pub check_align : Width → ℕ → Bool
check_align t addr = bit_and addr (align_list t) == 0
