-- ===== src/Virtio/Examples.antt =====
-- Queues of four entries at concrete contents.
use here.Base.{
  Option, [], arith, if◌then◌else◌, none, refl, some, ℕ, ◌++◌, ◌+◌, ◌==◌, ◌∷◌, ◌≡◌, ◌≤◌,
}
use here.Virtio.{
  QueueMemory, VirtQueueAvail, VirtQueueDesc, VirtQueueUsed, VirtQueueUsedElem, buffer_in_ram,
  handle_new, insert_used, try_get_desc_idx, walk,
}
use here.Virtio.Rings.{
  IsPending, IsTaken, insert_used-appends, try_get_desc_idx-IsTaken, used_pending,
}
use here.Virtio.Walk.{IsLoop, at_second, walk-ends, walk-loops}

abbrev avail_of_two : VirtQueueAvail
avail_of_two = record { avail_flags = 0; avail_idx = 1; avail_ring = λ i. 10 + i }

-- The reader is at 65535, so that the second entry lies behind the wrap.
try_get_desc_idx-IsTaken_example :
    (t : Option ℕ × ℕ) × (try_get_desc_idx avail_of_two 4 65535 ≡ some t)
    × IsTaken avail_of_two 4 65535 2 t
try_get_desc_idx-IsTaken_example =
    try_get_desc_idx-IsTaken avail_of_two 4 65535 2 (omega arith) refl (omega arith)
      (omega arith, refl)

abbrev elem : ℕ → VirtQueueUsedElem
elem n = record { id = n; elem_len = 0 }

abbrev used_of_two : VirtQueueUsed
used_of_two = record { used_flags = 0; used_idx = 1; used_ring = elem }

insert_used-appends_example :
    (used' : VirtQueueUsed) × (insert_used used_of_two 4 (elem 9) ≡ some used')
    × (used_pending used' 4 65535 3 ≡ used_pending used_of_two 4 65535 2 ++ (elem 9 ∷ []))
    × IsPending used'.used_idx 65535 3
insert_used-appends_example =
    insert_used-appends used_of_two 4 65535 2 (elem 9) (omega arith) refl (omega arith)
      (omega arith, refl)

-- Two descriptors in the RAM, the second leading back to the first.
abbrev buffer : ℕ → VirtQueueDesc
buffer i = record { paddr = 0x8000_1000; len = 64; flags = 1; next_desc = if i == 0 then 1 else 0 }

abbrev idle_rings : (ℕ → ℕ → VirtQueueDesc) → QueueMemory
idle_rings tables = record {
  table_at = tables;
  avail_at = λ _. avail_of_two;
  used_at = λ _. used_of_two;
}

abbrev cyclic : QueueMemory
cyclic = idle_rings (λ _ i. buffer i)

abbrev no_work : VirtQueueDesc → ℕ → QueueMemory → QueueMemory
no_work d i m = m

cyclic_chain : walk (λ m. m) no_work 5 (handle_new 0 4 0) 0 cyclic ≡ some (4, cyclic)
unfolding walk handle_new
cyclic_chain = refl

walk-ends_example :
    (n : ℕ) × (s' : QueueMemory) × (walk (λ m. m) no_work 5 (handle_new 0 4 0) 0 cyclic
      ≡ some (n, s'))
    × (n ≤ 4)
unfolding handle_new
walk-ends_example =
    walk-ends (λ m. m) no_work 5 (handle_new 0 4 0) 0 cyclic (omega arith) (λ i lt. refl)
      (λ d i s plain. plain)

-- An indirect table at the start of the RAM whose second entry refers to it.
abbrev self_reference : VirtQueueDesc
self_reference = record { paddr = 0x8000_0000; len = 32; flags = 4; next_desc = 0 }

abbrev self_table : QueueMemory
self_table = idle_rings (λ _ i. if i == 0 then buffer 0 else self_reference)

self_table-IsLoop : IsLoop self_table 0
unfolding buffer_in_ram
self_table-IsLoop = record {
  first_direct = refl;
  first_next = refl;
  first_target = refl;
  first_in_ram = refl;
  second_indirect = refl;
  second_len = refl;
  second_aligned = refl;
  second_target = refl;
}

-- The work on a descriptor publishes it, and does not touch the table.
abbrev publish : VirtQueueDesc → ℕ → QueueMemory → QueueMemory
publish d i m = record m { used_at = λ _. record used_of_two { used_idx = i } }

walk-loops_example : walk (λ m. m) publish 1000 (at_second 0) 0 self_table ≡ none
walk-loops_example =
    walk-loops (λ m. m) publish 1000 0 0 self_table self_table-IsLoop
      (λ d i s l. record {
        first_direct = l.first_direct;
        first_next = l.first_next;
        first_target = l.first_target;
        first_in_ram = l.first_in_ram;
        second_indirect = l.second_indirect;
        second_len = l.second_len;
        second_aligned = l.second_aligned;
        second_target = l.second_target;
      })
