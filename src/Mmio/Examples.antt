-- ===== src/Mmio/Examples.antt =====
-- A bus with two devices, which answer with the offset that is read.
use here.Ram
use here.Base.{[], arith, get_elem?, ok, refl, some, suc, zero, ℕ, ◌+◌, ◌∷◌, ◌≡◌, ◌≤◌}
use here.Word.{check_align, truncate_to, word}
use here.Mmio.{DeviceArena, MemoryMapIo, MemoryMapItem, read_by_type}
use here.Mmio.Routes.{IsInside, read_by_type-IsInside}
use here.Mmio.Search.{IsApart}
use here.Ram.{Ram}

abbrev echo : DeviceArena
echo = record {
  State = ℕ;
  device_read = λ s _ offset _. (ok offset, s + 1);
  device_write = λ s _ _ _ _. (ok tt, s);
}

abbrev timer_item : MemoryMapItem
timer_item = record { start_at = 0x1000; size = 8; device = 0 }

abbrev serial_item : MemoryMapItem
serial_item = record { start_at = 0x2000; size = 0x100; device = 1 }

abbrev bus : MemoryMapIo echo
bus = record { map = timer_item ∷ serial_item ∷ []; ram = Ram.new 0; devices = 0 }

apart : IsApart bus.map
apart = (omega arith, later, (omega arith, nothing_later, tt))
  where
    later :
        (k : ℕ) (y : MemoryMapItem)
        → get_elem? (serial_item ∷ []) k ≡ some y
        → 0x1000 + 8 ≤ y.start_at
    later zero y h = ground (arith, h)
    later (suc k) y h = absurd (ground (arith, h))

    nothing_later :
        (k : ℕ) (y : MemoryMapItem) → get_elem? [] k ≡ some y → 0x2000 + 0x100 ≤ y.start_at
    nothing_later k y h = absurd (ground (arith, h))

read_by_type-IsInside_example :
    read_by_type echo word bus 0x2004 ≡ (ok (truncate_to word 4), record bus { devices = 1 })
unfolding check_align
read_by_type-IsInside_example =
    read_by_type-IsInside echo word bus 0x2004 1 serial_item apart refl (omega arith, omega arith)
      (omega arith) (omega arith) refl

nowhere :
    (k : ℕ) (item : MemoryMapItem)
    → get_elem? bus.map k ≡ some item
    → ¬ IsInside echo word item 0x1008
nowhere zero item h (le, lt) = ground (arith, h, le, lt)
nowhere (suc zero) item h (le, lt) = ground (arith, h, le, lt)
nowhere (suc (suc k)) item h (le, lt) = ground (arith, h)
