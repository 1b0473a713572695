-- ===== src/Virtio/Walk.antt =====
-- How far the walk of a chain of src/device/virtio/virtio_queue.rs goes.
use here.Base.{
  Bool-cases, Option-cases, ap, arith, false, inl, inr, ltb, none, not, refl, some, subst, suc, sym,
  true, zero, ℕ, ◌%◌, ◌&&◌, ◌+◌, ◌<◌, ◌==◌, ◌≡◌, ◌≤◌,
}
use here.Virtio.{
  QueueMemory, VirtQueueDesc, VirtQueueDescHandle, buffer_in_ram, desc_align, desc_f_indirect,
  desc_f_next, get_current, get_indirect, has_flag, in_ram, try_get, walk,
}

-- No entry of a table refers to another table.
abbrev pub IsDirect : QueueMemory → ℕ → ℕ → Type 0
IsDirect m table table_len =
    (i : ℕ) → i < table_len → has_flag (m.table_at table i) desc_f_indirect ≡ false

-- A step that gives a descriptor of a direct table stays in the table and uses one of what remains.
direct_step :
    (m : QueueMemory) (h : VirtQueueDescHandle)
    → IsDirect m h.table h.table_len
    → (d : VirtQueueDesc) (h' : VirtQueueDescHandle) → try_get m h ≡ (some d, h')
    → (h'.table ≡ h.table) × (h'.table_len ≡ h.table_len) × (suc h'.remaining ≡ h.remaining)
unfolding try_get get_current
direct_step m h plain d h' e = elim (Bool-cases (ltb h.idx h.table_len && not (h.remaining == 0))) [
  | inl p ↦ ground (arith, p, e, plain h.idx (ground (arith, p)))
  | inr p ↦ absurd (ground (arith, p, e))
]

module _ {S : Type 0} (memory : S → QueueMemory) (func : VirtQueueDesc → ℕ → S → S) where
  -- The work on a descriptor leaves a table without references to other tables so.
  abbrev pub KeepsDirect : ℕ → ℕ → Type 0
  KeepsDirect table table_len =
      (d : VirtQueueDesc) (i : ℕ) (s : S)
      → IsDirect (memory s) table table_len
      → IsDirect (memory (func d i s)) table table_len

  -- The walk of a chain in a table whose entries refer to no other table ends: it calls the work at
  -- most as many times as the handle has descriptors left, so fuel beyond that number is enough.
  pub walk-ends :
      (fuel : ℕ) (h : VirtQueueDescHandle) (position : ℕ) (s : S)
      → h.remaining < fuel
      → IsDirect (memory s) h.table h.table_len
      → KeepsDirect h.table h.table_len
      → (n : ℕ) × (s' : S) × (walk memory func fuel h position s ≡ some (n, s'))
        × (n ≤ position + h.remaining)
  unfolding walk
  walk-ends zero h position s lt plain keeps = absurd (omega arith)
  walk-ends (suc fuel) h position s lt plain keeps = elim (Option-cases (try_get (memory s) h).0) [
    | inl e ↦ (position, s, simp (walk, e) refl, omega arith)
    | inr (d, e) ↦
        let h' = (try_get (memory s) h).1 in
        let (et, el, er) = direct_step (memory s) h plain d h' (ap (λ r. (r, h')) e) in
        let (n, s', same, le) =
          walk-ends fuel h' (suc position) (func d position s) (omega (arith, er))
            (subst (λ (t : ℕ). IsDirect (memory (func d position s)) t h'.table_len) (sym et)
              (subst (λ (l : ℕ). IsDirect (memory (func d position s)) h.table l) (sym el)
                (keeps d position s plain)))
            (subst (λ (t : ℕ). KeepsDirect t h'.table_len) (sym et)
              (subst (λ (l : ℕ). KeepsDirect h.table l) (sym el) keeps)) in
        (n, s', simp (walk, e) same, omega (arith, er))
  ]

-- A table of two entries: the first is a buffer in the RAM that leads to the second, and the second
-- is indirect and refers to the table itself.
pub record IsLoop (m : QueueMemory) (table : ℕ) : Type 0 where
  pub first_direct : has_flag (m.table_at table 0) desc_f_indirect ≡ false
  pub first_next : has_flag (m.table_at table 0) desc_f_next ≡ true
  pub first_target : (m.table_at table 0).next_desc ≡ 1
  pub first_in_ram : buffer_in_ram (m.table_at table 0) ≡ true
  pub second_indirect : has_flag (m.table_at table 1) desc_f_indirect ≡ true
  pub second_len : (m.table_at table 1).len ≡ 32
  pub second_aligned : (m.table_at table 1).paddr % desc_align ≡ 0
  pub second_target : in_ram (m.table_at table 1).paddr 32 ≡ some table

abbrev pub at_second : ℕ → VirtQueueDescHandle
at_second table = record { table = table; table_len = 2; idx = 1; remaining = 1 }

loop_indirect :
    (m : QueueMemory) (table : ℕ)
    → IsLoop m table
    → get_indirect m (at_second table)
      ≡ (true, record { table = table; table_len = 2; idx = 0; remaining = 2 })
unfolding get_indirect
loop_indirect m table l = simp (get_indirect, l.second_len, l.second_aligned, l.second_target) refl

loop_step :
    (m : QueueMemory) (table : ℕ)
    → IsLoop m table
    → try_get m (at_second table) ≡ (some (m.table_at table 0), at_second table)
unfolding try_get get_current
loop_step m table l =
    simp
      (
        try_get,
        l.second_indirect,
        loop_indirect m table l,
        get_current,
        l.first_next,
        l.first_target,
        l.first_in_ram,
      )
      refl

module _ {S : Type 0} (memory : S → QueueMemory) (func : VirtQueueDesc → ℕ → S → S) where
  -- The work on a descriptor leaves such a table so.
  abbrev pub KeepsLoop : ℕ → Type 0
  KeepsLoop table =
      (d : VirtQueueDesc) (i : ℕ) (s : S)
      → IsLoop (memory s) table
      → IsLoop (memory (func d i s)) table

  -- From the second entry of an indirect table of two entries, whose first leads to the second and
  -- whose second refers to the table, the walk does not end: no number of steps is enough, as long as
  -- the work leaves the two entries so. Each indirect entry sets the count of descriptors left anew.
  pub walk-loops :
      (fuel table position : ℕ) (s : S)
      → IsLoop (memory s) table
      → KeepsLoop table
      → walk memory func fuel (at_second table) position s ≡ none
  unfolding walk
  walk-loops zero table position s l keeps = refl
  walk-loops (suc fuel) table position s l keeps =
      let first = (memory s).table_at table 0 in
      simp (walk, loop_step (memory s) table l)
        (walk-loops fuel table (suc position) (func first position s) (keeps first position s l)
          keeps)
