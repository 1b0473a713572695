-- ===== src/Aclint/Timer.antt =====
-- The timer interrupt and the time register of src/device/aclint.rs.
use here.Base.{
  Bool, Bool-cases, List, Option, Option-cases, arith, bit_and, inl, inr, leb, none, ok, some,
  subst, suc, update, zero, ℕ, ◌-◌, ◌/◌, ◌==◌, ◌||◌, ◌∙◌, ◌∷◌, ◌≡◌,
}
use here.Word.{Width, concat_to_u64, truncate_to, word, wrapping_add, wrapping_sub}
use here.Aclint.{
  Clint, clint_write, get_time, in_msip, in_timecmp, mtime_value, put_timecmp, update_timer,
  update_timers, write_msip, write_mtime, write_timecmp,
}

abbrev last_told : Option (List Bool) → Option Bool
last_told (some (level ∷ told)) = some level
last_told _ = none

-- The level that the timer line was told last is whether the hart's compare value is reached.
abbrev pub IsTold : ℕ → ℕ → Clint → Type 0
IsTold now hartid c = last_told c.timer_irq_line ≡ some (leb (c.time_cmp hartid) (get_time now c))

-- The blocks of the device and the offset of its time are left alone.
abbrev pub SameMap : Clint → Clint → Type 0
SameMap c c' =
    (c'.hart_num ≡ c.hart_num)
    × (c'.msip_base ≡ c.msip_base)
    × (c'.timecmp_base ≡ c.timecmp_base)
    × (c'.time_base ≡ c.time_base)
    × (c'.time_offset ≡ c.time_offset)

trans_map : (a b c : Clint) → SameMap a b → SameMap b c → SameMap a c
trans_map a b c (p, q, r, s, t) (p', q', r', s', t') = (p' ∙ p, q' ∙ q, r' ∙ r, s' ∙ s, t' ∙ t)

module _ (now : ℕ) where
  update_timer-IsTold :
      (hartid : ℕ) (c c' : Clint) → update_timer now hartid c ≡ some c' → IsTold now hartid c'
  unfolding update_timer get_time
  update_timer-IsTold hartid c c' h = elim (Option-cases c.timer_irq_line) [
    | inl e ↦ absurd (ground (arith, e, h))
    | inr (told, e) ↦ elim (Bool-cases (leb (c.time_cmp hartid) (get_time now c))) [
      | inl t ↦ ground (arith, e, t, h)
      | inr t ↦ ground (arith, e, t, h)
    ]
  ]

  update_timer-SameMap :
      (hartid : ℕ) (c c' : Clint) → update_timer now hartid c ≡ some c' → SameMap c c'
  unfolding update_timer
  update_timer-SameMap hartid c c' h = elim (Option-cases c.timer_irq_line) [
    | inl e ↦ absurd (ground (arith, e, h))
    | inr (told, e) ↦ elim (Bool-cases (leb (c.time_cmp hartid) (get_time now c))) [
      | inl t ↦ (
        ground (arith, e, t, h),
        ground (arith, e, t, h),
        ground (arith, e, t, h),
        ground (arith, e, t, h),
        ground (arith, e, t, h),
      )
      | inr t ↦ (
        ground (arith, e, t, h),
        ground (arith, e, t, h),
        ground (arith, e, t, h),
        ground (arith, e, t, h),
        ground (arith, e, t, h),
      )
    ]
  ]

  pub update_timers-SameMap :
      (left hartid : ℕ) (c c' : Clint) → update_timers now left hartid c ≡ some c' → SameMap c c'
  unfolding update_timers
  update_timers-SameMap zero hartid c c' h = (
    ground (arith, h),
    ground (arith, h),
    ground (arith, h),
    ground (arith, h),
    ground (arith, h),
  )
  update_timers-SameMap (suc n) hartid c c' h = elim (Option-cases (update_timer now hartid c)) [
    | inl e ↦ absurd (ground (arith, e, h))
    | inr (c1, e) ↦
        trans_map c c1 c' (update_timer-SameMap hartid c c1 e)
          (update_timers-SameMap n (suc hartid) c1 c' (ground (arith, e, h)))
  ]

  one_timer : (c c' : Clint) → update_timers now 1 0 c ≡ some c' → update_timer now 0 c ≡ some c'
  unfolding update_timers
  one_timer c c' h = elim (Option-cases (update_timer now 0 c)) [
    | inl e ↦ absurd (ground (arith, e, h))
    | inr (c1, e) ↦ ground (arith, e, h)
  ]

  timers-IsTold :
      (n : ℕ) (c c' : Clint) → n ≡ 1 → update_timers now n 0 c ≡ some c' → IsTold now 0 c'
  timers-IsTold n c c' one h =
      update_timer-IsTold 0 c c'
        (one_timer c c' (subst (λ k. update_timers now k 0 c ≡ some c') one h))

  write_mtime-IsTold :
      (c c' : Clint) (v : ℕ)
      → c.hart_num ≡ 1
      → write_mtime now c v ≡ some (ok tt, c')
      → IsTold now 0 c'
  unfolding write_mtime
  write_mtime-IsTold c c' v one h =
      elim (Option-cases
        (update_timers now c.hart_num 0 (record c { time_offset = wrapping_sub v now }))) [
          | inl e ↦ absurd (ground (arith, e, h))
          | inr (c1, e) ↦
              timers-IsTold c.hart_num (record c { time_offset = wrapping_sub v now }) c' one
                (ground (arith, e, h))
        ]

  put_timecmp-IsTold :
      (c c' : Clint) (hartid v : ℕ)
      → hartid ≡ 0
      → put_timecmp now c hartid v ≡ some (ok tt, c')
      → IsTold now 0 c'
  put_timecmp-IsTold c c' hartid v z h =
      elim (Option-cases
        (update_timer now hartid (record c { time_cmp = update c.time_cmp hartid v }))) [
          | inl e ↦ absurd (ground (arith, e, h))
          | inr (c1, e) ↦
              subst (λ k. IsTold now k c') z
                (update_timer-IsTold hartid (record c { time_cmp = update c.time_cmp hartid v }) c'
                  (ground (arith, e, h)))
        ]

  write_msip-IsTold :
      (c c' : Clint) (hartid v : ℕ)
      → IsTold now 0 c
      → write_msip c hartid v ≡ some (ok tt, c')
      → IsTold now 0 c'
  unfolding write_msip get_time
  write_msip-IsTold c c' hartid v told h = elim (Bool-cases (leb c.hart_num hartid)) [
    | inl t ↦ absurd (ground (arith, t, h))
    | inr t ↦ ground (arith, t, h, told)
  ]

  write_timecmp-IsTold :
      (c c' : Clint) (hartid addr v : ℕ)
      → c.hart_num ≡ 1
      → IsTold now 0 c
      → write_timecmp now c hartid addr v ≡ some (ok tt, c')
      → IsTold now 0 c'
  unfolding write_timecmp
  write_timecmp-IsTold c c' hartid addr v one told h = elim (Bool-cases (leb c.hart_num hartid)) [
    | inl t ↦ absurd (ground (arith, t, h))
    | inr t ↦ elim (Bool-cases (bit_and addr 0x7 == 0)) [
      | inl t0 ↦
          put_timecmp-IsTold c c' hartid v (ground (arith, t, one)) (ground (arith, t, t0, h))
      | inr t0 ↦ elim (Bool-cases (bit_and addr 0x7 == 4)) [
        | inl t4 ↦
            put_timecmp-IsTold c c' hartid
              (concat_to_u64 (truncate_to word v) (bit_and (c.time_cmp hartid) 0xFFFF_FFFF))
              (ground (arith, t, one)) (ground (arith, t, t0, t4, h))
        | inr t4 ↦ ground (arith, t, t0, t4, h, told)
      ]
    ]
  ]

  -- On a board with one hart, every write to the device, to whichever register and of whichever
  -- width, keeps the last level of the timer line at whether `mtime` has reached `mtimecmp`.
  pub clint_write-IsTold :
      (t : Width) (c c' : Clint) (addr v : ℕ)
      → c.hart_num ≡ 1
      → IsTold now 0 c
      → clint_write now t c addr v ≡ some (ok tt, c')
      → IsTold now 0 c'
  unfolding clint_write
  clint_write-IsTold t c c' addr v one told h = elim (Bool-cases (in_msip c addr)) [
    | inl m ↦
        write_msip-IsTold c c' ((addr - c.msip_base) / 4) (truncate_to word v) told
          (ground (arith, m, h))
    | inr m ↦ elim (Bool-cases (in_timecmp c addr)) [
      | inl q ↦
          write_timecmp-IsTold c c' ((addr - c.timecmp_base) / 8) addr v one told
            (ground (arith, m, q, h))
      | inr q ↦ elim (Bool-cases (addr == c.time_base || addr == wrapping_add c.time_base 4)) [
        | inl r ↦
            write_mtime-IsTold c c' (mtime_value now t c (addr == c.time_base) v) one
              (ground (arith, m, q, r, h))
        | inr r ↦ absurd (ground (arith, m, q, r, h))
      ]
    ]
  ]
