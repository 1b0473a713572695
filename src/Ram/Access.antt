-- ===== src/Ram/Access.antt =====
-- Reads and writes of src/ram.rs: bounds, alignment, errors, and what a read sees after a write.
use here.Base.{
  Result, arith, err, if◌then◌else◌, leb, ok, ℕ, ◌%◌, ◌&&◌, ◌+◌, ◌<◌, ◌==◌, ◌^◌, ◌∙◌, ◌≡◌, ◌≤◌, ◌⊎◌,
}
use here.Word.{Width, byte, check_align, double, half, ram_size, size_of, word}
use here.Word.Laws.{check_align-eq_mod}
use here.Device.{MemError, load_fault, load_misaligned, store_fault, store_misaligned}
use here.Ram.{
  Ram, contains_access, load_bytes, read, store_bytes, try_invalidate_reservation, write,
}
use here.Ram.Bytes.{load_bytes-store_bytes, load_bytes_ext, store_bytes-outside}

-- The allocation starts on an eight-byte boundary of the host.
abbrev pub IsHosted : Ram → Type 0
IsHosted ram = ram.host_base % 8 ≡ 0

pub contains_access-eq : (t : Width) (a : ℕ) → contains_access t a ≡ leb (a + size_of t) ram_size
unfolding contains_access
contains_access-eq t a = ground arith

-- On a hosted RAM the host's alignment test is a test of the offset.
pub host_align : (t : Width) (b a : ℕ) → b % 8 ≡ 0 → check_align t (b + a) ≡ (a % size_of t == 0)
host_align t b a h = check_align-eq_mod t (b + a) ∙ offset_only t
  where
    offset_only : (t : Width) → ((b + a) % size_of t == 0) ≡ (a % size_of t == 0)
    offset_only byte = ground arith
    offset_only half = ground arith
    offset_only word = ground arith
    offset_only double = ground arith

pub try_invalidate-keeps :
    (ram : Ram) (a : ℕ)
    → ((try_invalidate_reservation ram a).data_at ≡ ram.data_at)
      × ((try_invalidate_reservation ram a).host_base ≡ ram.host_base)
unfolding try_invalidate_reservation
try_invalidate-keeps ram a = ground arith

-- A read fails with an access fault outside RAM, with a misalignment off its boundary, and
-- returns the stored bytes otherwise.
pub read-eq :
    (t : Width) (ram : Ram) (a : ℕ)
    → IsHosted ram
    → read t ram a ≡ (
        if leb (a + size_of t) ram_size
        then (if a % size_of t == 0
            then ok (load_bytes (size_of t) ram.data_at a)
            else err load_misaligned)
        else err load_fault)
unfolding read
read-eq t ram a h = ground (arith, host_align t ram.host_base a)

unfoldable pub outcome : Width → ℕ → Result MemError (Unit {0})
outcome t a =
    if leb (a + size_of t) ram_size
    then (if a % size_of t == 0 then ok tt else err store_misaligned)
    else err store_fault

pub write-eq :
    (t : Width) (ram : Ram) (a v : ℕ)
    → IsHosted ram
    → ((write t ram a v).0 ≡ outcome t a)
      × ((write t ram a v).1.data_at ≡ (
          if leb (a + size_of t) ram_size && a % size_of t == 0
          then store_bytes (size_of t) ram.data_at a v
          else ram.data_at))
      × ((write t ram a v).1.host_base ≡ ram.host_base)
unfolding write outcome
write-eq t ram a v h = ground (arith, host_align t ram.host_base a, try_invalidate-keeps ram a)

-- A write that succeeds is read back whole, by an access of the same width.
pub read-write :
    (t : Width) (ram : Ram) (a v : ℕ)
    → IsHosted ram
    → a % size_of t ≡ 0
    → a + size_of t ≤ ram_size
    → v < 256 ^ size_of t
    → ((write t ram a v).0 ≡ ok tt) × (read t (write t ram a v).1 a ≡ ok v)
unfolding outcome
read-write t ram a v h aligned fits small = ground (
  arith,
  write-eq t ram a v h,
  read-eq t (write t ram a v).1 a,
  load_bytes-store_bytes (size_of t) ram.data_at a v,
)

-- A write, failing or not, changes no read of bytes apart from its own.
pub read-write_apart :
    (t u : Width) (ram : Ram) (a b v : ℕ)
    → IsHosted ram
    → (b + size_of u ≤ a) ⊎ (a + size_of t ≤ b)
    → read u (write t ram a v).1 b ≡ read u ram b
read-write_apart t u ram a b v h apart = ground (
  arith,
  write-eq t ram a v h,
  read-eq u (write t ram a v).1 b,
  read-eq u ram b h,
  load_bytes_ext (size_of u) (store_bytes (size_of t) ram.data_at a v) ram.data_at b
      (λ i p q. store_bytes-outside (size_of t) ram.data_at a v i (outside i p q)),
)
  where
    outside : (i : ℕ) → b ≤ i → i < b + size_of u → (i < a) ⊎ (a + size_of t ≤ i)
    outside i p q = ground arith
