-- ===== src/Plic/Layout.antt =====
-- `PLICLayout` of src/device/plic/mod.rs: the registers and the arbitration between sources.
pub mod Order
pub mod Arbitration
pub mod Invariant
pub mod Gateway
mod Examples
use here.Plic.BitReg
use here.Base.{
  Bool, List, Option, [], bit_and, false, if◌then◌else◌, leb, ltb, none, not, some, suc, true,
  update, zero, ℕ, ◌&&◌, ◌+◌, ◌==◌, ◌||◌, ◌∷◌,
}
use here.Plic.BitReg.{
  PlicBitReg, clear_bit, get_bit, not_word, set_bit, source_zero_bit_mask, source_zero_word_index,
  take_bit, virt_max_interrupts, write_word,
}
use here.Plic.BitSet.{BitSet}

-- The contexts and the priorities are arrays, held by their index.
pub record PlicContext : Type 0 where
  pub enable : PlicBitReg
  pub priority_threshold : ℕ

abbrev pub priority_before : (ℕ → ℕ) → ℕ → ℕ → Bool
priority_before priority a b =
    ltb (priority b) (priority a) || (priority a == priority b && leb a b)

-- `sort_by_key` with the key (`Reverse(priority)`, id): a stable sort
unfoldable pub insert_sorted : (ℕ → ℕ) → ℕ → List ℕ → List ℕ
insert_sorted priority a [] = a ∷ []
insert_sorted priority a (b ∷ bs) =
    if priority_before priority a b then a ∷ b ∷ bs else b ∷ insert_sorted priority a bs

unfoldable pub sort_by_priority : (ℕ → ℕ) → List ℕ → List ℕ
unfolding insert_sorted
sort_by_priority priority [] = []
sort_by_priority priority (a ∷ rest) = insert_sorted priority a (sort_by_priority priority rest)

-- `array::from_fn(|id| id)`, from the first id on
unfoldable pub ids_from : ℕ → ℕ → List ℕ
ids_from first zero = []
ids_from first (suc n) = first ∷ ids_from (first + 1) n

-- `interrupt_id != 0 && interrupt_id < 64`
abbrev pub is_valid_interrupt_id : ℕ → Bool
is_valid_interrupt_id id = not (id == 0) && ltb id virt_max_interrupts

module _ (B : BitSet) where
  open B use {Carrier, with_capacity, contains, insert, remove}

  pub record PlicLayout : Type 0 where
    pub priority : ℕ → ℕ
    pub pending : PlicBitReg
    pub source_level : PlicBitReg
    pub contexts : ℕ → PlicContext
    pub priority_order : List ℕ
    pub interrupt_sources_busy : Carrier

  unfoldable pub layout_new : PlicLayout
  unfolding ids_from
  layout_new = record {
    priority = λ _. 0;
    pending = BitReg.new;
    source_level = BitReg.new;
    contexts = λ _. record { enable = BitReg.new; priority_threshold = 0 };
    priority_order = ids_from 0 virt_max_interrupts;
    interrupt_sources_busy = with_capacity virt_max_interrupts;
  }

  unfoldable pub sort_priority_order : PlicLayout → PlicLayout
  sort_priority_order l = record l { priority_order = sort_by_priority l.priority l.priority_order }

  unfoldable pub write_priority : PlicLayout → ℕ → ℕ → PlicLayout
  unfolding sort_priority_order
  write_priority l id value =
      if not (value == l.priority id)
      then sort_priority_order (record l { priority = update l.priority id value })
      else l

  unfoldable pub set_source_level : PlicLayout → ℕ → Bool → PlicLayout
  set_source_level l id level =
      if level
      then (let l' = record l { source_level = set_bit l.source_level id } in
          if not (get_bit l'.pending id) && not (contains l'.interrupt_sources_busy id)
          then record l' { pending = set_bit l'.pending id }
          else l')
      else record l { source_level = clear_bit l.source_level id }

  unfoldable pub write_enable_word : PlicLayout → ℕ → ℕ → ℕ → PlicLayout
  write_enable_word l context word_index value =
      let value' =
        if word_index == source_zero_word_index
        then bit_and value (not_word source_zero_bit_mask)
        else value in
      let c = l.contexts context in
      record l {
        contexts =
            update l.contexts context (record c { enable = write_word c.enable word_index value' });
      }

  unfoldable pub is_enabled : PlicLayout → ℕ → ℕ → Bool
  is_enabled l context id = get_bit (l.contexts context).enable id

  unfoldable pub write_priority_threshold : PlicLayout → ℕ → ℕ → PlicLayout
  write_priority_threshold l context value =
      let c = l.contexts context in
      record l { contexts = update l.contexts context (record c { priority_threshold = value }) }

  -- The loop of `find_pending_interrupt` over what is left of the order.
  unfoldable pub find_in_order : PlicLayout → ℕ → Bool → List ℕ → Option ℕ
  unfolding is_enabled
  find_in_order l context apply_threshold [] = none
  find_in_order l context apply_threshold (id ∷ ids) =
      let continue = find_in_order l context apply_threshold ids in
      let priority = l.priority id in
      if id == 0
      then continue
      else if priority == 0
      then none
      else if apply_threshold && leb priority (l.contexts context).priority_threshold
      then continue
      else if contains l.interrupt_sources_busy id
      then continue
      else if is_enabled l context id && get_bit l.pending id
      then some id
      else continue

  unfoldable pub find_pending_interrupt : PlicLayout → ℕ → Bool → Option ℕ
  unfolding find_in_order
  find_pending_interrupt l context apply_threshold =
      find_in_order l context apply_threshold l.priority_order

  unfoldable pub pending_interrupt_to_notify : PlicLayout → ℕ → Option ℕ
  unfolding find_pending_interrupt
  pending_interrupt_to_notify l context = find_pending_interrupt l context true

  unfoldable pub read_claim : PlicLayout → ℕ → ℕ × PlicLayout
  unfolding find_pending_interrupt
  read_claim l context = elim (find_pending_interrupt l context false) [
    | none ↦ (0, l)
    | some id ↦ (
      id,
      record l {
        pending = (take_bit l.pending id).0;
        interrupt_sources_busy = insert l.interrupt_sources_busy id;
      },
    )
  ]

  -- The test `remove(id) && get_bit(id)` runs `remove` first.
  unfoldable pub write_complete : PlicLayout → ℕ → ℕ → PlicLayout
  unfolding is_enabled
  write_complete l context id =
      if not (is_valid_interrupt_id id) || not (is_enabled l context id)
      then l
      else (let (busy, was_busy) = remove l.interrupt_sources_busy id in
          let l' = record l { interrupt_sources_busy = busy } in
          if was_busy && get_bit l'.source_level id
          then record l' { pending = set_bit l'.pending id }
          else l')
