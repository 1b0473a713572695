-- ===== src/Mmio/Routes.antt =====
-- Where an access on the bus goes.
use here.Base.{
  Bool-cases, Option-cases, arith, err, get_elem?, inl, inr, some, true, ℕ, ◌+◌, ◌-◌, ◌<◌, ◌^◌, ◌≡◌,
  ◌≤◌, ◌⊎◌,
}
use here.Word.{Width, base_addr, check_align, size_of}
use here.Device.{load_fault, load_misaligned}
use here.Mmio.{
  DeviceArena, MemoryMapIo, MemoryMapItem, can_access, find_item, read_by_type, read_from_device,
  truncated,
}
use here.Mmio.Search.{IsApart, find_item-holds, find_item-starts}

module _ (A : DeviceArena) where
  open A use {State, device_read, device_write}

  -- The access lies inside the item.
  abbrev pub IsInside : Width → MemoryMapItem → ℕ → Type 0
  IsInside t item p = (item.start_at ≤ p) × (p + size_of t ≤ item.start_at + item.size)

  inside_can_access :
      (t : Width) (item : MemoryMapItem) (p : ℕ)
      → IsInside t item p
      → item.size < 2 ^ 64
      → can_access t item p ≡ true
  unfolding can_access
  inside_can_access t item p (le, lt) small = ground arith

  can_access-IsInside :
      (t : Width) (item : MemoryMapItem) (p : ℕ) → can_access t item p ≡ true → IsInside t item p
  unfolding can_access
  can_access-IsInside t item p h = (ground (arith, h), ground (arith, h))

  size_pos : (t : Width) → 0 < size_of t
  size_pos t = ground arith

  -- An aligned read below the RAM that lies inside an item of an orderly map is the read of that
  -- item's device at the offset in the item, cut to the width.
  pub read_by_type-IsInside :
      (t : Width) (io : MemoryMapIo A) (p k : ℕ) (item : MemoryMapItem)
      → IsApart io.map
      → get_elem? io.map k ≡ some item
      → IsInside t item p
      → item.size < 2 ^ 64
      → p < base_addr
      → check_align t p ≡ true
      → read_by_type A t io p ≡ (
        truncated A t (device_read io.devices item.device (p - item.start_at) (size_of t)).0,
        record io {
          devices = (device_read io.devices item.device (p - item.start_at) (size_of t)).1;
        },
      )
  unfolding read_by_type read_from_device
  read_by_type-IsInside t io p k item apart at (le, lt) small low aligned = ground (
    arith,
    find_item-holds io.map p k item apart at le (omega (arith, size_pos t)),
    inside_can_access t item p (le, lt) small,
    aligned,
  )

  -- A read below the RAM that lies inside no item fails with a fault, or for its alignment, and
  -- reaches no device.
  pub read_by_type-outside :
      (t : Width) (io : MemoryMapIo A) (p : ℕ)
      → p < base_addr
      → ((k : ℕ) (item : MemoryMapItem) → get_elem? io.map k ≡ some item → ¬ IsInside t item p)
      → (read_by_type A t io p ≡ (err load_fault, io))
        ⊎ (read_by_type A t io p ≡ (err load_misaligned, io))
  unfolding read_by_type read_from_device
  read_by_type-outside t io p low none_holds = elim (Option-cases (find_item io.map p)) [
    | inl e ↦ inl (ground (arith, e, low))
    | inr (item, e) ↦ elim (Bool-cases (can_access t item p)) [
      | inl can ↦
          (let ((k, at), le) = find_item-starts io.map p item e in
            absurd (none_holds k item at (can_access-IsInside t item p can)))
      | inr cannot ↦ ground (arith, e, cannot, low)
    ]
  ]
