-- ===== src/Plic/BitReg.antt =====
-- `PLICBitReg` of src/device/plic/types.rs: bits of the interrupt sources, 32 to a word.
-- `bits` holds the words by their index.
pub mod Laws
use here.Base.{Bool, bit_and, bit_or, not, update, ℕ, ◌%◌, ◌*◌, ◌-◌, ◌/◌, ◌==◌, ◌^◌}

abbrev pub virt_max_interrupts : ℕ
virt_max_interrupts = 64

abbrev pub virt_max_contexts : ℕ
virt_max_contexts = 16

abbrev pub register_bytes : ℕ
register_bytes = 4

abbrev pub interrupts_per_register : ℕ
interrupts_per_register = 32

abbrev pub plic_interrupt_words : ℕ
plic_interrupt_words = virt_max_interrupts / interrupts_per_register

-- `interrupt_word_and_mask`: the word's index and `1u32 << bit_index`
abbrev pub interrupt_word_and_mask : ℕ → ℕ × ℕ
interrupt_word_and_mask id = (id / interrupts_per_register, 1 * 2 ^ (id % interrupts_per_register))

abbrev pub source_zero_word_index : ℕ
source_zero_word_index = (interrupt_word_and_mask 0).0

abbrev pub source_zero_bit_mask : ℕ
source_zero_bit_mask = (interrupt_word_and_mask 0).1

pub record PlicBitReg : Type 0 where
  pub bits : ℕ → ℕ

unfoldable pub new : PlicBitReg
new = record { bits = λ _. 0 }

-- `!mask` on a 32-bit word
abbrev pub not_word : ℕ → ℕ
not_word x = 2 ^ 32 - 1 - x

unfoldable pub set_bit : PlicBitReg → ℕ → PlicBitReg
set_bit r id =
    let (index, mask) = interrupt_word_and_mask id in
    record { bits = update r.bits index (bit_or (r.bits index) mask) }

unfoldable pub clear_bit : PlicBitReg → ℕ → PlicBitReg
clear_bit r id =
    let (index, mask) = interrupt_word_and_mask id in
    record { bits = update r.bits index (bit_and (r.bits index) (not_word mask)) }

unfoldable pub get_bit : PlicBitReg → ℕ → Bool
get_bit r id =
    let (index, mask) = interrupt_word_and_mask id in not (bit_and (r.bits index) mask == 0)

unfoldable pub take_bit : PlicBitReg → ℕ → PlicBitReg × Bool
take_bit r id =
    let (index, mask) = interrupt_word_and_mask id in
    let old = r.bits index in
    (
      record { bits = update r.bits index (bit_and old (not_word mask)) },
      not (bit_and old mask == 0),
    )

unfoldable pub read_word : PlicBitReg → ℕ → ℕ
read_word r index = r.bits index

unfoldable pub write_word : PlicBitReg → ℕ → ℕ → PlicBitReg
write_word r index value = record { bits = update r.bits index value }
