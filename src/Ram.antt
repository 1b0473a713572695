-- ===== src/Ram.antt =====
-- src/ram.rs: the guest's RAM, its accesses of one to eight bytes, and the LR/SC reservation.
-- `data` is indexed by offset and is only read below `ram_size`; `host_base` is the address of
-- the host allocation, on which the alignment test of `read_raw_ptr` and `write_raw_ptr` is made.
-- The host stores integers with the least significant byte first, as `MEM_ORDER` says.
pub mod Bytes
pub mod Access
pub mod Reserve
pub mod Section
mod Examples
use here.Base.{
  Bool, List, Option, Result, [], err, false, if◌then◌else◌, leb, length, ltb, none, ok, some, suc,
  true, update, zero, ℕ, ◌%◌, ◌&&◌, ◌*◌, ◌+◌, ◌/◌, ◌==◌, ◌∷◌,
}
use here.Word.{Width, check_align, checked_add, ram_size, shr, size_of}
use here.Device.{MemError, load_fault, load_misaligned, store_fault, store_misaligned}

pub data RamImageError : Type 0 where
  address_overflow : ℕ → ℕ → RamImageError
  out_of_range : ℕ → ℕ → ℕ → RamImageError

-- `reservation_set_id`
pub record Reservation : Type 0 where
  pub reservation_set_id : ℕ

-- `RESERVATION_SET_BIT_WIDTH`
abbrev pub reservation_set_bit_width : ℕ
reservation_set_bit_width = 3

abbrev pub reservation_new : ℕ → Reservation
reservation_new addr = record { reservation_set_id = shr addr reservation_set_bit_width }

abbrev pub in_the_same_reservation_set : Reservation → ℕ → Bool
in_the_same_reservation_set r addr = r.reservation_set_id == shr addr reservation_set_bit_width

pub record Ram : Type 0 where
  pub data_at : ℕ → ℕ
  pub reserved : Option Reservation
  pub host_base : ℕ

unfoldable pub with_init : ℕ → ℕ → Ram
with_init base b = record { data_at = λ _. b; reserved = none; host_base = base }

unfoldable pub new : ℕ → Ram
unfolding with_init
new base = with_init base 0

-- `end <= ram_config::SIZE`, where the sum does not overflow `usize`
unfoldable pub contains_access : Width → ℕ → Bool
contains_access t addr = elim (checked_add addr (size_of t)) [
  | none ↦ false
  | some end ↦ leb end ram_size
]

-- `n` bytes at an offset, least significant first.
unfoldable pub load_bytes : ℕ → (ℕ → ℕ) → ℕ → ℕ
load_bytes zero d a = 0
load_bytes (suc n) d a = d a + load_bytes n d (a + 1) * 256

unfoldable pub store_bytes : ℕ → (ℕ → ℕ) → ℕ → ℕ → (ℕ → ℕ)
store_bytes zero d a v = d
store_bytes (suc n) d a v = store_bytes n (update d a (v % 256)) (a + 1) (v / 256)

-- `read_raw_ptr` and `write_raw_ptr` at `data.as_ptr().add(addr)`
unfoldable pub read_raw_ptr : Width → Ram → ℕ → Option ℕ
read_raw_ptr t ram addr =
    if check_align t (ram.host_base + addr)
    then some (load_bytes (size_of t) ram.data_at addr)
    else none

unfoldable pub write_raw_ptr : Width → Ram → ℕ → ℕ → Option Ram
write_raw_ptr t ram addr v =
    if check_align t (ram.host_base + addr)
    then some (record ram { data_at = store_bytes (size_of t) ram.data_at addr v })
    else none

unfoldable pub read : Width → Ram → ℕ → Result MemError ℕ
unfolding contains_access read_raw_ptr
read t ram addr =
    if contains_access t addr
    then elim (read_raw_ptr t ram addr) [ some d ↦ ok d | none ↦ err load_misaligned ]
    else err load_fault

unfoldable pub load_reserved : Width → Ram → ℕ → Result MemError ℕ × Ram
load_reserved t ram addr = elim (read t ram addr) [
  | ok d ↦ (ok d, record ram { reserved = some (reservation_new addr) })
  | err e ↦ (err e, ram)
]

unfoldable pub clear_reservation : Ram → Ram
clear_reservation ram = record ram { reserved = none }

abbrev pub reserves : Option Reservation → ℕ → Bool
reserves none addr = false
reserves (some r) addr = in_the_same_reservation_set r addr

unfoldable pub try_invalidate_reservation : Ram → ℕ → Ram
try_invalidate_reservation ram addr =
    if reserves ram.reserved addr then record ram { reserved = none } else ram

unfoldable pub write : Width → Ram → ℕ → ℕ → Result MemError (Unit {0}) × Ram
unfolding contains_access try_invalidate_reservation write_raw_ptr
write t ram addr v =
    if contains_access t addr
    then (let ram' = try_invalidate_reservation ram addr in
        elim (write_raw_ptr t ram' addr v) [
          | some ram'' ↦ (ok tt, ram'')
          | none ↦ (err store_misaligned, ram')
        ])
    else (err store_fault, ram)

-- What is left of `store_conditional` after the test that only debug builds make.
unfoldable pub store_reserved : Width → Ram → ℕ → ℕ → Result MemError Bool × Ram
store_reserved t ram addr v =
    if reserves ram.reserved addr
    then (let (r, ram') = write t ram addr v in
        elim r [ ok _ ↦ (ok true, ram') | err e ↦ (err e, ram') ])
    else (ok false, record ram { reserved = none })

-- `debug` is `cfg!(debug_assertions)`.
unfoldable pub store_conditional : Bool → Width → Ram → ℕ → ℕ → Result MemError Bool × Ram
unfolding store_reserved
store_conditional debug t ram addr v =
    if debug && leb ram_size addr
    then (err store_fault, record ram { reserved = none })
    else store_reserved t ram addr v

-- `for_each` over the enumerated section
unfoldable pub copy_section : List ℕ → ℕ → (ℕ → ℕ) → (ℕ → ℕ)
copy_section [] start d = d
copy_section (v ∷ vs) start d = copy_section vs (start + 1) (update d start v)

-- `usize` has 64 bits, so that `usize::try_from` succeeds.
unfoldable pub try_insert_section : Ram → List ℕ → ℕ → Result RamImageError Ram
unfolding copy_section
try_insert_section ram section start = elim (checked_add start (length section)) [
  | none ↦ err (address_overflow start (length section))
  | some end ↦
      if ltb ram_size end
      then err (out_of_range start (length section) ram_size)
      else ok (record ram { data_at = copy_section section start ram.data_at })
]

-- `none` is the panic.
unfoldable pub insert_section : Ram → List ℕ → ℕ → Option Ram
unfolding try_insert_section
insert_section ram section start = elim (try_insert_section ram section start) [
  | ok ram' ↦ some ram'
  | err _ ↦ none
]

-- The bytes that `resize` appends are zero; `none` is the panic.
unfoldable pub with_data : ℕ → List ℕ → Option Ram
unfolding copy_section
with_data base bytes =
    if ltb ram_size (length bytes)
    then none
    else some
        (record { data_at = copy_section bytes 0 (λ _. 0); reserved = none; host_base = base })
