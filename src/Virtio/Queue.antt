-- ===== src/Virtio/Queue.antt =====
-- src/device/virtio/virtio_queue.rs: `VirtQueue`, its addresses and its requests.
-- `guest_ram_ptr`
use here.Base.{
  Bool, Option, bit_and, bit_or, false, if◌then◌else◌, leb, none, not, some, true, update, ℕ, ◌%◌,
  ◌&&◌, ◌*◌, ◌+◌, ◌==◌, ◌^◌,
}
use here.Word.{base_addr, bit_not, checked_add, checked_sub, ram_size, shl}
use here.Virtio.{
  QueueMemory, VirtQueue, VirtQueueDesc, desc_align, desc_size, handle_new, insert_used,
  try_get_desc_idx, walk,
}

unfoldable pub guest_ram_ptr : ℕ → ℕ → ℕ → Option ℕ
guest_ram_ptr paddr len align = elim (checked_sub paddr base_addr) [
  | none ↦ none
  | some offset ↦ if not (paddr % align == 0) then none else elim (checked_add offset len) [
    | none ↦ none
    | some end ↦ if leb end ram_size then some offset else none
  ]
]

unfoldable pub update_avail_base : VirtQueue → ℕ → VirtQueue
unfolding guest_ram_ptr
update_avail_base q paddr = record q { avail = guest_ram_ptr paddr (4 + q.queue_num * 2) 2 }

unfoldable pub update_desc_base : VirtQueue → ℕ → VirtQueue
unfolding guest_ram_ptr
update_desc_base q paddr = record q {
  desc = guest_ram_ptr paddr (q.queue_num * desc_size) desc_align;
}

unfoldable pub update_used_base : VirtQueue → ℕ → VirtQueue
unfolding guest_ram_ptr
update_used_base q paddr = record q { used = guest_ram_ptr paddr (4 + q.queue_num * 8) 4 }

unfoldable pub set_desc : VirtQueue → ℕ → VirtQueue
unfolding update_desc_base
set_desc q addr = update_desc_base (record q { desc_paddr = addr }) addr

unfoldable pub set_avail : VirtQueue → ℕ → VirtQueue
unfolding update_avail_base
set_avail q addr = update_avail_base (record q { avail_paddr = addr }) addr

unfoldable pub set_used : VirtQueue → ℕ → VirtQueue
unfolding update_used_base
set_used q addr = update_used_base (record q { used_paddr = addr }) addr

unfoldable pub set_used_high : VirtQueue → ℕ → VirtQueue
unfolding update_used_base
set_used_high q addr_high =
    let addr = bit_or (bit_and q.used_paddr (bit_not (0xFFFF_FFFF * 2 ^ 32))) (shl addr_high 32) in
    update_used_base (record q { used_paddr = addr }) addr

unfoldable pub set_queue_num : VirtQueue → ℕ → VirtQueue
set_queue_num q num = record q { queue_num = num }

abbrev is_null : Option ℕ → Bool
is_null none = true
is_null (some _) = false

unfoldable pub queue_ready : VirtQueue → Bool
queue_ready q =
    not (q.queue_num == 0) && not (is_null q.desc) && not (is_null q.avail) && not (is_null q.used)

-- `interrupts_enabled`: the driver asks for interrupts by the flag 0.
unfoldable pub interrupts_enabled : QueueMemory → VirtQueue → Bool
interrupts_enabled m q = elim q.avail [ none ↦ false | some at ↦ (m.avail_at at).avail_flags == 0 ]

pub record VirtQueueCompletion : Type 0 where
  pub used_at_ptr : ℕ
  pub completion_num : ℕ
  pub entry_idx : ℕ

-- `complete`, which publishes the element in the used ring.
unfoldable pub complete_request : QueueMemory → VirtQueueCompletion → ℕ → Option QueueMemory
unfolding insert_used
complete_request m c len =
    elim (insert_used (m.used_at c.used_at_ptr) c.completion_num
      (record { id = c.entry_idx; elem_len = len })) [
        | none ↦ none
        | some used ↦ some (record m { used_at = update m.used_at c.used_at_ptr used })
      ]

-- The three pointers of a queue that is ready.
abbrev pointers : VirtQueue → Option (ℕ × ℕ × ℕ)
pointers q = elim q.desc [
  | none ↦ none
  | some desc ↦ elim q.avail [
    | none ↦ none
    | some avail ↦ elim q.used [ none ↦ none | some used ↦ some (desc, avail, used) ]
  ]
]

-- What a request leaves: the completion where there was one, the queue and the state.
pub record Taken (S : Type 0) : Type 0 where
  pub completion : Option VirtQueueCompletion
  pub queue : VirtQueue
  pub state : S

module _ {S : Type 0} (memory : S → QueueMemory) (func : VirtQueueDesc → ℕ → S → S) where
  -- `take_one_request`, with the fuel of its loop.
  unfoldable pub take_one_request : ℕ → VirtQueue → S → Option (Taken S)
  unfolding try_get_desc_idx handle_new walk
  take_one_request fuel q s =
      if q.queue_num == 0
      then some (record { completion = none; queue = q; state = s })
      else elim (pointers q) [
        | none ↦ some (record { completion = none; queue = q; state = s })
        | some (desc, avail, used) ↦
            elim (try_get_desc_idx ((memory s).avail_at avail) q.queue_num q.last_avail_idx) [
              | none ↦ none
              | some (none, last) ↦ some (record {
                completion = none;
                queue = record q { last_avail_idx = last };
                state = s;
              })
              | some (some head, last) ↦
                  elim (walk memory func fuel (handle_new desc q.queue_num head) 0 s) [
                    | none ↦ none
                    | some (_, s') ↦ some (record {
                      completion = some (record {
                        used_at_ptr = used;
                        completion_num = q.queue_num;
                        entry_idx = head;
                      });
                      queue = record q { last_avail_idx = last };
                      state = s';
                    })
                  ]
            ]
      ]
