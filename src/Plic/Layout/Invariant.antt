-- ===== src/Plic/Layout/Invariant.antt =====
-- The invariant of the PLIC's registers, kept by every operation, and what it says of a search.
use here.Base.{
  Bool, Bool-cases, Option-cases, arith, false, if◌then◌else◌, inl, inr, ltb, not, true, update, ℕ,
  ◌==◌, ◌∙◌, ◌≡◌, ◌≢◌,
}
use here.Plic.BitReg.{get_bit}
use here.Plic.BitReg.Laws.{
  get_bit-clear_bit, get_bit-new, get_bit-set_bit, get_bit-write_word_zero, take_bit-eq,
}
use here.Plic.BitSet.{BitSet}
use here.Plic.Layout.{
  PlicLayout, find_pending_interrupt, layout_new, read_claim, set_source_level, write_complete,
  write_enable_word, write_priority, write_priority_threshold,
}
use here.Plic.Layout.Order.{
  IsOrdered, count, count-ids_from, count-sort_by_priority, ids_from-IsOrdered,
  sort_by_priority-IsOrdered,
}

module _ (B : BitSet) where
  open B use {contains, insert, remove, contains-with_capacity, contains-insert, contains-remove}

  -- The order is sorted and holds every source once; no source is both pending and claimed;
  -- source 0 is neither pending nor enabled.
  pub record IsValid (l : PlicLayout B) : Type 0 where
    pub ordered : IsOrdered l.priority l.priority_order
    pub complete : (i : ℕ) → count i l.priority_order ≡ (if ltb i 64 then 1 else 0)
    pub exclusive :
        (i : ℕ) → get_bit l.pending i ≡ true → contains l.interrupt_sources_busy i ≡ false
    pub zero_not_pending : get_bit l.pending 0 ≡ false
    pub zero_not_enabled : (c : ℕ) → get_bit (l.contexts c).enable 0 ≡ false

  pub layout_new-IsValid : IsValid (layout_new B)
  unfolding layout_new
  layout_new-IsValid = record {
    ordered = ids_from-IsOrdered 0 64;
    complete = λ i. count-ids_from i 0 64 ∙ ground arith;
    exclusive = λ i h. contains-with_capacity 64 i;
    zero_not_pending = get_bit-new 0;
    zero_not_enabled = λ c. get_bit-new 0;
  }

  pub write_priority-IsValid :
      (l : PlicLayout B) (id value : ℕ) → IsValid l → IsValid (write_priority B l id value)
  unfolding write_priority
  write_priority-IsValid l id value v = elim (Bool-cases (not (value == l.priority id))) [
    | inl changed ↦ rw changed (record {
      ordered = sort_by_priority-IsOrdered (update l.priority id value) l.priority_order;
      complete = λ i.
          count-sort_by_priority (update l.priority id value) i l.priority_order ∙ v.complete i;
      exclusive = v.exclusive;
      zero_not_pending = v.zero_not_pending;
      zero_not_enabled = v.zero_not_enabled;
    })
    | inr same ↦ rw same v
  ]

  pub set_source_level-IsValid :
      (l : PlicLayout B) (id : ℕ) (level : Bool)
      → id ≢ 0
      → IsValid l
      → IsValid (set_source_level B l id level)
  unfolding set_source_level
  set_source_level-IsValid l id level ne v = record {
    ordered = ground (arith, v.ordered);
    complete = λ i. ground (arith, v.complete i);
    exclusive = λ i. ground (arith, v.exclusive i, get_bit-set_bit l.pending id i);
    zero_not_pending = ground (arith, v.zero_not_pending, get_bit-set_bit l.pending id 0);
    zero_not_enabled = λ c. ground (arith, v.zero_not_enabled c);
  }

  pub write_enable_word-IsValid :
      (l : PlicLayout B) (c i value : ℕ) → IsValid l → IsValid (write_enable_word B l c i value)
  unfolding write_enable_word
  write_enable_word-IsValid l c i value v = record {
    ordered = v.ordered;
    complete = v.complete;
    exclusive = v.exclusive;
    zero_not_pending = v.zero_not_pending;
    zero_not_enabled = λ d. ground (
      arith,
      v.zero_not_enabled d,
      get_bit-write_word_zero (l.contexts c).enable i value (v.zero_not_enabled c),
    );
  }

  pub write_priority_threshold-IsValid :
      (l : PlicLayout B) (c value : ℕ) → IsValid l → IsValid (write_priority_threshold B l c value)
  unfolding write_priority_threshold
  write_priority_threshold-IsValid l c value v = record {
    ordered = v.ordered;
    complete = v.complete;
    exclusive = v.exclusive;
    zero_not_pending = v.zero_not_pending;
    zero_not_enabled = λ d. ground (arith, v.zero_not_enabled c, v.zero_not_enabled d);
  }

  pub read_claim-IsValid : (l : PlicLayout B) (c : ℕ) → IsValid l → IsValid (read_claim B l c).1
  unfolding read_claim
  read_claim-IsValid l c v = elim (Option-cases (find_pending_interrupt B l c false)) [
    | inl e ↦ rw (e, read_claim) v
    | inr (id, e) ↦
        rw (e, read_claim)
          (record {
            ordered = v.ordered;
            complete = v.complete;
            exclusive = λ i. ground (
              arith,
              v.exclusive i,
              take_bit-eq l.pending id,
              get_bit-clear_bit l.pending id i,
              contains-insert l.interrupt_sources_busy id i,
            );
            zero_not_pending = ground (
              arith,
              v.zero_not_pending,
              take_bit-eq l.pending id,
              get_bit-clear_bit l.pending id 0,
            );
            zero_not_enabled = v.zero_not_enabled;
          })
  ]

  pub write_complete-IsValid :
      (l : PlicLayout B) (c id : ℕ) → IsValid l → IsValid (write_complete B l c id)
  unfolding write_complete
  write_complete-IsValid l c id v = record {
    ordered = ground (arith, v.ordered);
    complete = λ i. ground (arith, v.complete i);
    exclusive = λ i. ground (
      arith,
      v.exclusive i,
      get_bit-set_bit l.pending id i,
      contains-remove l.interrupt_sources_busy id i,
    );
    zero_not_pending = ground (arith, v.zero_not_pending, get_bit-set_bit l.pending id 0);
    zero_not_enabled = λ d. ground (arith, v.zero_not_enabled d);
  }
