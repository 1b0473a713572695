-- ===== src/Mmio.antt =====
-- src/device/mmio.rs: the bus, which sends an access to the RAM or to the device whose range holds
-- the address. `binary_search_by` on a sorted map gives the index of the start, or where it would
-- stand; `none` for an index out of range is the panic of the indexing, which the search excludes.
pub mod Search
pub mod Routes
mod Examples
use here.Base.{
  Bool, List, Option, Result, [], err, false, get_elem?, if◌then◌else◌, leb, ltb, none, not, ok,
  some, suc, zero, ℕ, ◌&&◌, ◌+◌, ◌-◌, ◌∷◌,
}
use here.Word.{
  Width, base_addr, check_align, checked_add, checked_sub, ram_size, size_of, truncate_to,
}
use here.Device.{MemError, load_fault, load_misaligned, store_fault, store_misaligned}
use here.Ram.{Ram, clear_reservation, load_reserved, read, store_conditional, write}

pub record MemoryMapItem : Type 0 where
  pub start_at : ℕ
  pub size : ℕ
  pub device : ℕ

-- `DeviceTrait`, dispatched on a handle of the arena: a read and a write at an offset.
pub record DeviceArena : Type 1 where
  pub State : Type 0
  pub device_read : State → ℕ → ℕ → ℕ → Result MemError ℕ × State
  pub device_write : State → ℕ → ℕ → ℕ → ℕ → Result MemError (Unit {0}) × State

-- `map.sort()`, which orders items by their starts and is stable.
unfoldable pub insert_item : MemoryMapItem → List MemoryMapItem → List MemoryMapItem
insert_item x [] = x ∷ []
insert_item x (y ∷ ys) =
    let rest = insert_item x ys in if ltb y.start_at x.start_at then y ∷ rest else x ∷ y ∷ ys

unfoldable pub sort_items : List MemoryMapItem → List MemoryMapItem
unfolding insert_item
sort_items [] = []
sort_items (x ∷ xs) = insert_item x (sort_items xs)

abbrev pub bump : Result ℕ ℕ → Result ℕ ℕ
bump (ok i) = ok (suc i)
bump (err i) = err (suc i)

unfoldable pub binary_search : List MemoryMapItem → ℕ → Result ℕ ℕ
binary_search [] p_addr = err 0
binary_search (y ∷ ys) p_addr =
    let rest = bump (binary_search ys p_addr) in
    if ltb p_addr y.start_at then err 0 else if ltb y.start_at p_addr then rest else ok 0

-- The item that the accesses use: that of the found index, or the one before.
abbrev pub item_of : List MemoryMapItem → Result ℕ ℕ → Option MemoryMapItem
item_of map (ok i) = get_elem? map i
item_of map (err zero) = none
item_of map (err (suc i)) = get_elem? map i

unfoldable pub find_item : List MemoryMapItem → ℕ → Option MemoryMapItem
unfolding binary_search
find_item map p_addr = item_of map (binary_search map p_addr)

unfoldable pub can_access : Width → MemoryMapItem → ℕ → Bool
can_access t item p_addr = elim (checked_sub p_addr item.start_at) [
  | none ↦ false
  | some offset ↦ elim (checked_add offset (size_of t)) [
    | none ↦ false
    | some end ↦ leb end item.size
  ]
]

module _ (A : DeviceArena) where
  open A use {State, device_read, device_write}

  pub record MemoryMapIo : Type 0 where
    pub map : List MemoryMapItem
    pub ram : Ram
    pub devices : State

  unfoldable pub from_mmio_items : Ram → State → List MemoryMapItem → MemoryMapIo
  unfolding sort_items
  from_mmio_items ram devices items = record {
    map = sort_items items;
    ram = ram;
    devices = devices;
  }

  abbrev pub truncated : Width → Result MemError ℕ → Result MemError ℕ
  truncated t (ok x) = ok (truncate_to t x)
  truncated t (err e) = err e

  unfoldable pub read_from_device :
      Width → MemoryMapIo → MemoryMapItem → ℕ → Result MemError ℕ × MemoryMapIo
  unfolding can_access
  read_from_device t io item p_addr =
      if not (check_align t p_addr)
      then (err load_misaligned, io)
      else if not (can_access t item p_addr)
      then (err load_fault, io)
      else (let (r, devices') =
            device_read io.devices item.device (p_addr - item.start_at) (size_of t) in
          (truncated t r, record io { devices = devices' }))

  unfoldable pub write_to_device :
      Width → MemoryMapIo → MemoryMapItem → ℕ → ℕ → Result MemError (Unit {0}) × MemoryMapIo
  unfolding can_access
  write_to_device t io item p_addr v =
      if not (check_align t p_addr)
      then (err store_misaligned, io)
      else if not (can_access t item p_addr)
      then (err store_fault, io)
      else (let (r, devices') =
            device_write io.devices item.device (p_addr - item.start_at) (size_of t) v in
          (r, record io { devices = devices' }))

  unfoldable pub read_by_type : Width → MemoryMapIo → ℕ → Result MemError ℕ × MemoryMapIo
  unfolding read_from_device find_item
  read_by_type t io p_addr =
      if leb base_addr p_addr
      then (read t io.ram (p_addr - base_addr), io)
      else elim (find_item io.map p_addr) [
        | none ↦ (err load_fault, io)
        | some item ↦ read_from_device t io item p_addr
      ]

  unfoldable pub write_by_type :
      Width → MemoryMapIo → ℕ → ℕ → Result MemError (Unit {0}) × MemoryMapIo
  unfolding write_to_device find_item
  write_by_type t io p_addr v =
      if leb base_addr p_addr
      then (let (r, ram') = write t io.ram (p_addr - base_addr) v in (r, record io { ram = ram' }))
      else elim (find_item io.map p_addr) [
        | none ↦ (err store_fault, io)
        | some item ↦ write_to_device t io item p_addr v
      ]

  abbrev in_ram : ℕ → Bool
  in_ram p_addr = leb base_addr p_addr && ltb p_addr (base_addr + ram_size)

  unfoldable pub bus_load_reserved : Width → MemoryMapIo → ℕ → Result MemError ℕ × MemoryMapIo
  bus_load_reserved t io p_addr =
      if in_ram p_addr
      then (let (r, ram') = load_reserved t io.ram (p_addr - base_addr) in
          (r, record io { ram = ram' }))
      else (err load_fault, io)

  unfoldable pub bus_store_conditional :
      Bool → Width → MemoryMapIo → ℕ → ℕ → Result MemError Bool × MemoryMapIo
  bus_store_conditional debug t io p_addr v =
      if in_ram p_addr
      then (let (r, ram') = store_conditional debug t io.ram (p_addr - base_addr) v in
          (r, record io { ram = ram' }))
      else (err store_fault, io)

  unfoldable pub bus_clear_reservation : MemoryMapIo → MemoryMapIo
  bus_clear_reservation io = record io { ram = clear_reservation io.ram }
