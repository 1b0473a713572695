-- ===== src/Virtio.antt =====
-- src/device/virtio/virtio_queue.rs: descriptors, the walk of a chain, the two rings and the queue.
-- The source reads the guest's RAM through typed pointers; here a pointer is an offset in the RAM,
-- or `none` for null, and `QueueMemory` gives the structure that stands at an offset. Structures that
-- overlap in the RAM are not told apart from ones that do not.
pub mod Rings
pub mod Queue
pub mod Walk
mod Examples
use here.Base.{
  Bool, Option, bit_and, false, if◌then◌else◌, leb, ltb, none, not, some, suc, true, update, zero,
  ℕ, ◌%◌, ◌&&◌, ◌+◌, ◌-◌, ◌/◌, ◌==◌, ◌^◌, ◌||◌,
}
use here.Word.{base_addr, checked_add, checked_sub, ram_size}

pub record VirtQueueDesc : Type 0 where
  pub paddr : ℕ
  pub len : ℕ
  pub flags : ℕ
  pub next_desc : ℕ

abbrev pub desc_f_next : ℕ
desc_f_next = 1

abbrev pub desc_f_write : ℕ
desc_f_write = 2

abbrev pub desc_f_indirect : ℕ
desc_f_indirect = 4

-- `size_of` and `align_of` of a descriptor
abbrev pub desc_size : ℕ
desc_size = 16

abbrev pub desc_align : ℕ
desc_align = 8

-- `flags.contains`
abbrev pub has_flag : VirtQueueDesc → ℕ → Bool
has_flag d flag = bit_and d.flags flag == flag

unfoldable pub has_next : VirtQueueDesc → Bool
has_next d = has_flag d desc_f_next

-- `checked_sub` of the base of the RAM, `checked_add` of a length, and the comparison with its size
abbrev pub in_ram : ℕ → ℕ → Option ℕ
in_ram paddr len = elim (checked_sub paddr base_addr) [
  | none ↦ none
  | some offset ↦ elim (checked_add offset len) [
    | none ↦ none
    | some end ↦ if leb end ram_size then some offset else none
  ]
]

abbrev is_some : {T : Type 0} → Option T → Bool
is_some none = false
is_some (some _) = true

unfoldable pub buffer_in_ram : VirtQueueDesc → Bool
buffer_in_ram d = is_some (in_ram d.paddr d.len)

pub record VirtQueueAvail : Type 0 where
  pub avail_flags : ℕ
  pub avail_idx : ℕ
  pub avail_ring : ℕ → ℕ

pub record VirtQueueUsedElem : Type 0 where
  pub id : ℕ
  pub elem_len : ℕ

pub record VirtQueueUsed : Type 0 where
  pub used_flags : ℕ
  pub used_idx : ℕ
  pub used_ring : ℕ → VirtQueueUsedElem

pub record QueueMemory : Type 0 where
  pub table_at : ℕ → ℕ → VirtQueueDesc
  pub avail_at : ℕ → VirtQueueAvail
  pub used_at : ℕ → VirtQueueUsed

-- A table is the offset of its first entry and its length.
pub record VirtQueueDescHandle : Type 0 where
  pub table : ℕ
  pub table_len : ℕ
  pub idx : ℕ
  pub remaining : ℕ

unfoldable pub handle_new : ℕ → ℕ → ℕ → VirtQueueDescHandle
handle_new table queue_num idx = record {
  table = table;
  table_len = queue_num;
  idx = idx;
  remaining = queue_num;
}

unfoldable pub get_indirect : QueueMemory → VirtQueueDescHandle → Bool × VirtQueueDescHandle
get_indirect m h =
    let desc = m.table_at h.table h.idx in
    let table_len = desc.len / desc_size in
    if not (desc.len % desc_size == 0) || table_len == 0
    then (false, h)
    else if not (desc.paddr % desc_align == 0)
    then (false, h)
    else elim (in_ram desc.paddr desc.len) [
      | none ↦ (false, h)
      | some offset ↦
          (true, record { table = offset; table_len = table_len; idx = 0; remaining = table_len })
    ]

abbrev stopped : VirtQueueDescHandle → VirtQueueDescHandle
stopped h = record h { remaining = 0 }

-- The second half of `try_get`: the current descriptor, and the step to the next.
unfoldable pub get_current :
    QueueMemory → VirtQueueDescHandle → Option VirtQueueDesc × VirtQueueDescHandle
unfolding buffer_in_ram
get_current m h =
    let cur = m.table_at h.table h.idx in
    let h' : VirtQueueDescHandle = record h {
      idx = if has_flag cur desc_f_next then cur.next_desc else h.table_len;
      remaining = h.remaining - 1;
    } in
    if not (buffer_in_ram cur) then (none, stopped h') else (some cur, h')

unfoldable pub try_get :
    QueueMemory → VirtQueueDescHandle → Option VirtQueueDesc × VirtQueueDescHandle
unfolding get_indirect get_current
try_get m h =
    if ltb h.idx h.table_len && not (h.remaining == 0)
    then (if has_flag (m.table_at h.table h.idx) desc_f_indirect
        then (let (found, h') = get_indirect m h in
            if found then get_current m h' else (none, stopped h))
        else get_current m h)
    else (none, h)

-- The loop of `take_one_request`, on fuel: `func` is called with each descriptor and its position,
-- and works on the state `S`, which holds the memory. `none` where the fuel runs out.
module _ {S : Type 0} (memory : S → QueueMemory) (func : VirtQueueDesc → ℕ → S → S) where
  unfoldable pub walk : ℕ → VirtQueueDescHandle → ℕ → S → Option (ℕ × S)
  unfolding try_get
  walk zero h position s = none
  walk (suc fuel) h position s =
      let (found, h') = try_get (memory s) h in
      elim found [
        | none ↦ some (position, s)
        | some desc ↦ walk fuel h' (suc position) (func desc position s)
      ]

-- `try_get_desc_idx`: the entry, and the new `last_avail_idx`; `none` is a remainder by zero.
unfoldable pub try_get_desc_idx : VirtQueueAvail → ℕ → ℕ → Option (Option ℕ × ℕ)
try_get_desc_idx avail queue_num last_avail_idx =
    if last_avail_idx == avail.avail_idx
    then some (none, last_avail_idx)
    else if queue_num == 0
    then none
    else some (some (avail.avail_ring (last_avail_idx % queue_num)), (last_avail_idx + 1) % 2 ^ 16)

-- `VirtQueueUsed::insert_used`
unfoldable pub insert_used : VirtQueueUsed → ℕ → VirtQueueUsedElem → Option VirtQueueUsed
insert_used used queue_num elem =
    if queue_num == 0
    then none
    else some (record used {
      used_idx = (used.used_idx + 1) % 2 ^ 16;
      used_ring = update used.used_ring (used.used_idx % queue_num) elem;
    })

pub record VirtQueue : Type 0 where
  pub queue_num : ℕ
  pub last_avail_idx : ℕ
  pub desc_paddr : ℕ
  pub desc : Option ℕ
  pub avail_paddr : ℕ
  pub avail : Option ℕ
  pub used_paddr : ℕ
  pub used : Option ℕ

-- `VirtQueue::new`, and `reset` for no entries
abbrev pub queue_new : ℕ → VirtQueue
queue_new num = record {
  queue_num = num;
  last_avail_idx = 0;
  desc_paddr = 0;
  desc = none;
  avail_paddr = 0;
  avail = none;
  used_paddr = 0;
  used = none;
}

unfoldable pub queue_reset : VirtQueue → VirtQueue
queue_reset q = queue_new 0
