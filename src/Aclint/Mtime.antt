-- ===== src/Aclint/Mtime.antt =====
-- Writing and reading the time register of src/device/aclint.rs.
use here.Base.{
  Option-cases, ap, arith, false, inl, inr, ok, some, sym, ℕ, ◌%◌, ◌+◌, ◌<◌, ◌^◌, ◌∙◌, ◌≡◌,
}
use here.Word.{double, wrapping_add, wrapping_sub}
use here.Aclint.{
  Clint, clint_read, clint_write, get_time, in_msip, in_timecmp, mtime_value, update_timers,
  write_mtime,
}
use here.Aclint.Timer.{SameMap, update_timers-SameMap}

reads_time :
    (now d v offset : ℕ)
    → now < 2 ^ 64
    → v < 2 ^ 64
    → offset ≡ wrapping_sub v now
    → wrapping_add (now + d) offset ≡ (v + d) % 2 ^ 64
reads_time now d v offset hn hv e = omega (arith, e)

read_time :
    (now : ℕ) (c : Clint) (a : ℕ)
    → in_msip c a ≡ false
    → in_timecmp c a ≡ false
    → a ≡ c.time_base
    → clint_read now double c a ≡ ok (get_time now c % 2 ^ 64)
unfolding clint_read
read_time now c a m t e = ground (arith, m, t, e)

-- The device before its timers are updated.
abbrev with_offset : ℕ → Clint → ℕ → Clint
with_offset now c v = record c { time_offset = wrapping_sub v now }

SameMap-reads :
    (now d v : ℕ) (c c' : Clint)
    → now < 2 ^ 64
    → v < 2 ^ 64
    → in_msip c c.time_base ≡ false
    → in_timecmp c c.time_base ≡ false
    → SameMap (with_offset now c v) c'
    → clint_read (now + d) double c' c.time_base ≡ ok ((v + d) % 2 ^ 64)
unfolding get_time
SameMap-reads now d v c c' hn hv m t (n, b, q, r, o) =
    read_time (now + d) c' c.time_base (ground (arith, n, b, m)) (ground (arith, n, q, t)) (sym r)
    ∙ ap (λ k. ok k) (time_mod _ (v + d) (reads_time now d v c'.time_offset hn hv o))
  where
    time_mod : (x y : ℕ) → x ≡ y % 2 ^ 64 → x % 2 ^ 64 ≡ y % 2 ^ 64
    time_mod x y e = omega (arith, e)

-- `mtime` that is written as 64 bits at one reading of the clock reads, `d` ticks later, as the
-- value plus `d`, modulo 2 ^ 64, where the address of the register lies in no other block.
pub clint_read-clint_write :
    (now d v : ℕ) (c c' : Clint)
    → now < 2 ^ 64
    → v < 2 ^ 64
    → in_msip c c.time_base ≡ false
    → in_timecmp c c.time_base ≡ false
    → clint_write now double c c.time_base v ≡ some (ok tt, c')
    → clint_read (now + d) double c' c.time_base ≡ ok ((v + d) % 2 ^ 64)
unfolding clint_write write_mtime mtime_value get_time
clint_read-clint_write now d v c c' hn hv m t h =
    elim (Option-cases (update_timers now c.hart_num 0 (with_offset now c v))) [
      | inl e ↦ absurd (ground (arith, e, m, t, h))
      | inr (c1, e) ↦ SameMap-reads now d v c c' hn hv m t (
          update_timers-SameMap now c.hart_num 0 (with_offset now c v) c'
            (ground (arith, e, m, t, h)))
    ]
