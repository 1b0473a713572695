-- ===== src/Aclint.antt =====
-- src/device/aclint.rs: the timer and software interrupts of the harts. `now` is the reading of the
-- clock during an operation. An interrupt line is the levels that it was told, the last one first;
-- the timer of src/clock.rs is the due time of each task by its number, without their order. `none`
-- is a panic: a line that is not connected.
pub mod Timer
pub mod Mtime
mod Examples
use here.Base.{
  Bool, List, Option, Result, bit_and, err, false, if◌then◌else◌, leb, ltb, none, not, ok, some,
  suc, true, update, zero, ℕ, ◌&&◌, ◌*◌, ◌-◌, ◌/◌, ◌==◌, ◌^◌, ◌||◌, ◌∷◌,
}
use here.Word.{
  Width, bits_of, concat_to_u64, negative_of, truncate_to, word, wrapping_add, wrapping_sub,
}
use here.Device.{MemError, load_fault, store_fault}

pub record Clint : Type 0 where
  pub hart_num : ℕ
  pub msip_base : ℕ
  pub time_base : ℕ
  pub timecmp_base : ℕ
  pub time_offset : ℕ
  pub timer : ℕ → Option ℕ
  pub msip : ℕ → ℕ
  pub time_cmp : ℕ → ℕ
  pub timer_irq_line : Option (List Bool)
  pub software_irq_line : Option (List Bool)
  pub timer_cb_id : ℕ

unfoldable pub clint_new : ℕ → ℕ → ℕ → ℕ → (ℕ → Option ℕ) → ℕ → Clint
unfolding negative_of
clint_new hart_num msip_base mtime_base mtimecmp_base timer now = record {
  hart_num = hart_num;
  msip_base = msip_base;
  time_base = mtime_base;
  timecmp_base = mtimecmp_base;
  time_offset = negative_of now;
  timer = timer;
  msip = λ _. 0;
  time_cmp = λ _. 0;
  timer_irq_line = none;
  software_irq_line = none;
  timer_cb_id = 2 ^ 64 - 1;
}

-- `Timer::set_due`, which changes a task that is registered.
abbrev set_due : (ℕ → Option ℕ) → ℕ → ℕ → (ℕ → Option ℕ)
set_due timer seq new_due = elim (timer seq) [
  | none ↦ timer
  | some old ↦ update timer seq (some new_due)
]

abbrev pub in_msip : Clint → ℕ → Bool
in_msip c addr = leb c.msip_base addr && ltb addr (wrapping_add c.msip_base (c.hart_num * 4))

abbrev pub in_timecmp : Clint → ℕ → Bool
in_timecmp c addr =
    leb c.timecmp_base addr && ltb addr (wrapping_add c.timecmp_base (c.hart_num * 8))

-- The answer of a write beside the device after it.
abbrev pub Wrote : Type 0
Wrote = Option (Result MemError (Unit {0}) × Clint)

abbrev wrote : Option Clint → Wrote
wrote none = none
wrote (some c) = some (ok tt, c)

abbrev tell : Option (List Bool) → Bool → Option (List Bool)
tell none level = none
tell (some told) level = some (level ∷ told)

unfoldable pub write_msip : Clint → ℕ → ℕ → Wrote
write_msip c hartid v =
    if leb c.hart_num hartid
    then some (err store_fault, c)
    else some (
      ok tt,
      record c {
        msip = update c.msip hartid v;
        software_irq_line = tell c.software_irq_line (not (bit_and v 1 == 0));
      },
    )

module _ (now : ℕ) where
  unfoldable pub get_time : Clint → ℕ
  get_time c = wrapping_add now c.time_offset

  unfoldable pub update_timer : ℕ → Clint → Option Clint
  unfolding get_time
  update_timer hartid c = elim c.timer_irq_line [
    | none ↦ none
    | some told ↦
        if leb (c.time_cmp hartid) (get_time c)
        then some (record c { timer_irq_line = some (true ∷ told) })
        else some (record c {
          timer_irq_line = some (false ∷ told);
          timer = set_due c.timer c.timer_cb_id (wrapping_sub (c.time_cmp hartid) c.time_offset);
        })
  ]

  -- The loop over the harts from `hartid`.
  unfoldable pub update_timers : ℕ → ℕ → Clint → Option Clint
  unfolding update_timer
  update_timers zero hartid c = some c
  update_timers (suc left) hartid c = elim (update_timer hartid c) [
    | none ↦ none
    | some c' ↦ update_timers left (suc hartid) c'
  ]

  unfoldable pub clint_read : Width → Clint → ℕ → Result MemError ℕ
  unfolding get_time
  clint_read t c addr =
      if in_msip c addr
      then read_msip ((addr - c.msip_base) / 4)
      else if in_timecmp c addr
      then read_timecmp ((addr - c.timecmp_base) / 8)
      else if addr == c.time_base
      then ok (truncate_to t (get_time c))
      else if addr == wrapping_add c.time_base 4
      then ok (truncate_to t (get_time c / 2 ^ 32))
      else err load_fault
    where
      read_msip : ℕ → Result MemError ℕ
      read_msip hartid =
          if leb c.hart_num hartid then err load_fault else ok (truncate_to t (c.msip hartid))

      read_timecmp : ℕ → Result MemError ℕ
      read_timecmp hartid =
          if leb c.hart_num hartid
          then err load_fault
          else if bit_and addr 0x7 == 0
          then ok (truncate_to t (c.time_cmp hartid))
          else if bit_and addr 0x7 == 4
          then ok (truncate_to t (c.time_cmp hartid / 2 ^ 32))
          else err load_fault

  abbrev pub put_timecmp : Clint → ℕ → ℕ → Wrote
  put_timecmp c hartid v =
      wrote (update_timer hartid (record c { time_cmp = update c.time_cmp hartid v }))

  unfoldable pub write_timecmp : Clint → ℕ → ℕ → ℕ → Wrote
  unfolding update_timer concat_to_u64
  write_timecmp c hartid addr new_value =
      if leb c.hart_num hartid
      then some (err store_fault, c)
      else if bit_and addr 0x7 == 0
      then put_timecmp c hartid new_value
      else if bit_and addr 0x7 == 4
      then put_timecmp c hartid
          (concat_to_u64 (truncate_to word new_value) (bit_and (c.time_cmp hartid) 0xFFFF_FFFF))
      else some (ok tt, c)

  -- The new value of `mtime`; `low` is whether the address is that of the low half.
  unfoldable pub mtime_value : Width → Clint → Bool → ℕ → ℕ
  unfolding get_time concat_to_u64
  mtime_value t c low new_value =
      if low
      then (if bits_of t == 32
          then concat_to_u64 (get_time c / 2 ^ 32) (truncate_to word new_value)
          else new_value)
      else concat_to_u64 (truncate_to word new_value) (bit_and (get_time c) 0xFFFF_FFFF)

  unfoldable pub write_mtime : Clint → ℕ → Wrote
  unfolding update_timers
  write_mtime c value =
      wrote (update_timers c.hart_num 0 (record c { time_offset = wrapping_sub value now }))

  unfoldable pub clint_write : Width → Clint → ℕ → ℕ → Wrote
  unfolding write_msip write_timecmp mtime_value write_mtime
  clint_write t c addr new_value =
      if in_msip c addr
      then write_msip c ((addr - c.msip_base) / 4) (truncate_to word new_value)
      else if in_timecmp c addr
      then write_timecmp c ((addr - c.timecmp_base) / 8) addr new_value
      else if addr == c.time_base || addr == wrapping_add c.time_base 4
      then write_mtime c (mtime_value t c (addr == c.time_base) new_value)
      else some (err store_fault, c)
