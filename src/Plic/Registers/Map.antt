-- ===== src/Plic/Registers/Map.antt =====
-- The register map is one to one: each register has its documented address, and no other.
use here.Base.{arith, some, ℕ, ◌*◌, ◌+◌, ◌<◌, ◌≡◌}
use here.Plic.Registers.{
  PlicRegister, claim_complete, decode_register, enable_word, pending_word, source_priority,
  threshold,
}

-- The addresses that the table in src/device/plic/mod.rs lists.
abbrev pub address_of : PlicRegister → ℕ
address_of (source_priority id) = id * 4
address_of (pending_word i) = 0x1000 + i * 4
address_of (enable_word c i) = 0x2000 + c * 0x80 + i * 4
address_of (threshold c) = 0x200000 + c * 0x1000
address_of (claim_complete c) = 0x200004 + c * 0x1000

-- The arrays of the layout have a place for the register.
abbrev pub InBounds : PlicRegister → Type 0
InBounds (source_priority id) = (0 < id) × (id < 64)
InBounds (pending_word i) = i < 2
InBounds (enable_word c i) = (c < 16) × (i < 2)
InBounds (threshold c) = c < 16
InBounds (claim_complete c) = c < 16

-- A register that the layout has is decoded from its documented address.
pub decode_register-address_of :
    (r : PlicRegister) → InBounds r → decode_register (address_of r) ≡ some r
unfolding decode_register
decode_register-address_of (source_priority id) h = ground arith
decode_register-address_of (pending_word i) h = ground arith
decode_register-address_of (enable_word c i) h = ground arith
decode_register-address_of (threshold c) h = ground arith
decode_register-address_of (claim_complete c) h = ground arith

-- What is decoded from an address is the register documented there, and the layout has it.
pub address_of-decode_register :
    (addr : ℕ) (r : PlicRegister)
    → decode_register addr ≡ some r
    → (address_of r ≡ addr) × InBounds r
unfolding decode_register
address_of-decode_register addr (source_priority id) h = ground arith
address_of-decode_register addr (pending_word i) h = ground arith
address_of-decode_register addr (enable_word c i) h = ground arith
address_of-decode_register addr (threshold c) h = ground arith
address_of-decode_register addr (claim_complete c) h = ground arith
