-- ===== src/Plic/Device/Steps.antt =====
-- Every operation of the device keeps the registers valid, in any order.
use mathlib.Core.Option.{some-injective}
use here.Base.{
  Bool, Bool-cases, List, Option, Option-cases, [], ap, arith, false, if◌then◌else◌, inl, inr, ltb,
  none, not, refl, some, subst, suc, sym, true, update, zero, ℕ, ◌+◌, ◌∙◌, ◌∷◌, ◌≡◌, ◌≢◌, ◌⊎◌,
}
use here.Word.{Width, truncate_to, word}
use here.Plic.BitReg.{virt_max_contexts}
use here.Plic.BitSet.{BitSet}
use here.Plic.Device.{
  Plic, is_claim_complete, is_some, plic_new, read_decoded, read_impl, refresh_all,
  refresh_context_irq_line, register_device, set_context_irq_line, set_interrupt_level,
  set_irq_line, sync_from, sync_peripheral_irq_levels, update_context_irq_line,
  update_context_irq_lines, write_decoded, write_impl,
}
use here.Plic.Layout.{
  PlicLayout, find_pending_interrupt, is_valid_interrupt_id, pending_interrupt_to_notify,
  set_source_level,
}
use here.Plic.Layout.Arbitration.{IsArbitrated, find_pending_interrupt-IsArbitrated}
use here.Plic.Layout.Invariant.{IsValid, layout_new-IsValid, set_source_level-IsValid}
use here.Plic.Registers.{
  PlicRegister, claim_complete, decode_register, pending_word, read_register-IsValid,
  write_register-IsValid,
}

module _ (B : BitSet) where
  -- Sources that can be registered: never source 0.
  abbrev pub IsGood : Plic B → Type 0
  IsGood p = IsValid B p.layout × (p.peripheral_irq_devices 0 ≡ false)

  pub sync_from-IsValid :
      (devices irq_level : ℕ → Bool) (first n : ℕ) (l : PlicLayout B)
      → devices 0 ≡ false
      → IsValid B l
      → IsValid B (sync_from B devices irq_level first n l)
  unfolding sync_from
  sync_from-IsValid devices irq_level first zero l h v = v
  sync_from-IsValid devices irq_level first (suc n) l h v =
      sync_from-IsValid devices irq_level (first + 1) n
        (if devices first then set_source_level B l first (irq_level first) else l) h
        (elim (Bool-cases (devices first)) [
          | inl there ↦
              rw there
                (set_source_level-IsValid B l first (irq_level first) (nonzero first there) v)
          | inr absent ↦ rw absent v
        ])
    where
      nonzero : (i : ℕ) → devices i ≡ true → i ≢ 0
      nonzero zero there = cc
      nonzero (suc i) there = omega arith

  sync-IsGood :
      (irq_level : ℕ → Bool) (p : Plic B)
      → IsGood p
      → IsGood (sync_peripheral_irq_levels B irq_level p)
  unfolding sync_peripheral_irq_levels
  sync-IsGood irq_level p g =
      (sync_from-IsValid p.peripheral_irq_devices irq_level 0 64 p.layout g.1 g.0, g.1)

  -- One access or event of the device. A failed access is a step too.
  pub data Step : Plic B → Plic B → Type 0 where
    reads :
        (p : Plic B) (t : Width) (irq_level : ℕ → Bool) (addr : ℕ)
        → Step p (read_impl B t irq_level p addr).1
    writes :
        (p : Plic B) (t : Width) (irq_level : ℕ → Bool) (addr value : ℕ)
        → Step p (write_impl B t irq_level p addr value).1
    samples : (p : Plic B) (id : ℕ) (level : Bool) → Step p (set_interrupt_level B p id level)
    updates :
        (p : Plic B) (irq_level : ℕ → Bool) (contexts : List ℕ)
        → Step p (update_context_irq_lines B irq_level p contexts)
    updates_one :
        (p : Plic B) (irq_level : ℕ → Bool) (context : ℕ)
        → Step p (update_context_irq_line B irq_level p context).1
    registers : (p p' : Plic B) (id : ℕ) → register_device B p id ≡ some p' → Step p p'
    connects : (p p' : Plic B) (id : ℕ) → set_irq_line B p id ≡ some p' → Step p p'

  pub data Reach : Plic B → Type 0 where
    start : Reach (plic_new B)
    next : {p p' : Plic B} → Reach p → Step p p' → Reach p'

  pub set_context_irq_line-layout :
      (p : Plic B) (c : ℕ) (level : Bool)
      → ((set_context_irq_line B p c level).layout ≡ p.layout)
        × ((set_context_irq_line B p c level).peripheral_irq_devices ≡ p.peripheral_irq_devices)
  unfolding set_context_irq_line
  set_context_irq_line-layout p c level = ground arith

  IsGood-if : (b : Bool) (p q : Plic B) → IsGood p → IsGood q → IsGood (if b then p else q)
  IsGood-if true p q g h = g
  IsGood-if false p q g h = h

  refresh-IsGood : (p : Plic B) (c : ℕ) → IsGood p → IsGood (refresh_context_irq_line B p c).1
  unfolding refresh_context_irq_line
  refresh-IsGood p c g =
      let same =
        set_context_irq_line-layout p c (is_some (pending_interrupt_to_notify B p.layout c)) in
      (subst (IsValid B) (sym same.0) g.0, ap (λ (d : ℕ → Bool). d 0) same.1 ∙ g.1)

  refresh_all-IsGood : (cs : List ℕ) (p : Plic B) → IsGood p → IsGood (refresh_all B cs p)
  unfolding refresh_all
  refresh_all-IsGood [] p g = g
  refresh_all-IsGood (c ∷ cs) p g =
      refresh_all-IsGood cs
        (if ltb c virt_max_contexts then (refresh_context_irq_line B p c).1 else p)
        (IsGood-if (ltb c 16) (refresh_context_irq_line B p c).1 p (refresh-IsGood p c g) g)

  synced-IsGood :
      (irq_level : ℕ → Bool) (p : Plic B) (r : PlicRegister)
      → IsGood p
      → IsGood (if is_claim_complete r then sync_peripheral_irq_levels B irq_level p else p)
  synced-IsGood irq_level p r g =
      IsGood-if (is_claim_complete r) (sync_peripheral_irq_levels B irq_level p) p
        (sync-IsGood irq_level p g) g

  read_decoded-IsGood :
      (irq_level : ℕ → Bool) (p : Plic B) (r : PlicRegister)
      → IsGood p
      → IsGood (read_decoded B irq_level p r).1
  unfolding read_decoded
  read_decoded-IsGood irq_level p r g =
      let p' = if is_claim_complete r then sync_peripheral_irq_levels B irq_level p else p in
      let g' = synced-IsGood irq_level p r g in (read_register-IsValid B p'.layout r g'.0, g'.1)

  read_impl-IsGood :
      (t : Width) (irq_level : ℕ → Bool) (p : Plic B) (addr : ℕ)
      → IsGood p
      → IsGood (read_impl B t irq_level p addr).1
  unfolding read_impl
  read_impl-IsGood t irq_level p addr g = by_width t (Option-cases (decode_register addr))
    where
      decoded :
          (decode_register addr ≡ none) ⊎ ((r : PlicRegister) × (decode_register addr ≡ some r))
          → IsGood (read_impl B word irq_level p addr).1
      decoded (inl e) = rw (e, read_impl) g
      decoded (inr (r, e)) = rw (e, read_impl) (read_decoded-IsGood irq_level p r g)

      by_width :
          (t : Width)
          → (decode_register addr ≡ none) ⊎ ((r : PlicRegister) × (decode_register addr ≡ some r))
          → IsGood (read_impl B t irq_level p addr).1
      by_width word h = decoded h
      by_width _ h = g

  write_decoded-IsGood :
      (irq_level : ℕ → Bool) (p : Plic B) (r : PlicRegister) (value : ℕ)
      → IsGood p
      → IsGood (write_decoded B irq_level p r value).1
  unfolding write_decoded
  write_decoded-IsGood irq_level p (pending_word i) value g = g
  write_decoded-IsGood irq_level p (claim_complete c) value g =
      let g' = sync-IsGood irq_level p g in
      (
        write_register-IsValid B (sync_peripheral_irq_levels B irq_level p).layout
            (claim_complete c) (truncate_to word value) g'.0,
        g'.1,
      )
  write_decoded-IsGood irq_level p r value g =
      (write_register-IsValid B p.layout r (truncate_to word value) g.0, g.1)

  write_impl-IsGood :
      (t : Width) (irq_level : ℕ → Bool) (p : Plic B) (addr value : ℕ)
      → IsGood p
      → IsGood (write_impl B t irq_level p addr value).1
  unfolding write_impl
  write_impl-IsGood t irq_level p addr value g = by_width t (Option-cases (decode_register addr))
    where
      decoded :
          (decode_register addr ≡ none) ⊎ ((r : PlicRegister) × (decode_register addr ≡ some r))
          → IsGood (write_impl B word irq_level p addr value).1
      decoded (inl e) = rw (e, write_impl) g
      decoded (inr (r, e)) = rw (e, write_impl) (write_decoded-IsGood irq_level p r value g)

      by_width :
          (t : Width)
          → (decode_register addr ≡ none) ⊎ ((r : PlicRegister) × (decode_register addr ≡ some r))
          → IsGood (write_impl B t irq_level p addr value).1
      by_width word h = decoded h
      by_width _ h = g

  set_interrupt_level-IsGood :
      (p : Plic B) (id : ℕ) (level : Bool) → IsGood p → IsGood (set_interrupt_level B p id level)
  unfolding set_interrupt_level
  set_interrupt_level-IsGood p zero level g = g
  set_interrupt_level-IsGood p (suc i) level g =
      IsGood-if (not (is_valid_interrupt_id (suc i))) p
        (record p { layout = set_source_level B p.layout (suc i) level }) g
        (set_source_level-IsValid B p.layout (suc i) level (omega arith) g.0, g.1)

  IsGood-guarded :
      (b : Bool) (q p' : Plic B) → (if b then some q else none) ≡ some p' → IsGood q → IsGood p'
  IsGood-guarded true q p' e g = subst IsGood (some-injective q p' e) g
  IsGood-guarded false q p' e g = cc

  IsGood-if_pair :
      (b : Bool) (x y : Option ℕ × Plic B) → IsGood x.1 → IsGood y.1 → IsGood (if b then x else y).1
  IsGood-if_pair true x y g h = g
  IsGood-if_pair false x y g h = h

  register_device-IsGood :
      (p p' : Plic B) (id : ℕ) → register_device B p id ≡ some p' → IsGood p → IsGood p'
  unfolding register_device
  register_device-IsGood p p' zero e g = cc
  register_device-IsGood p p' (suc i) e g =
      IsGood-guarded (is_valid_interrupt_id (suc i))
        (record p { peripheral_irq_devices = update p.peripheral_irq_devices (suc i) true }) p' e
        (g.0, ground (arith, g.1))

  set_irq_line-IsGood :
      (p p' : Plic B) (id : ℕ) → set_irq_line B p id ≡ some p' → IsGood p → IsGood p'
  unfolding set_irq_line
  set_irq_line-IsGood p p' id e g =
      let fresh : Plic B = record p {
        riscv_irq_line = update p.riscv_irq_line id (some []);
        riscv_irq_level = update p.riscv_irq_level id none;
      } in
      IsGood-guarded (ltb id virt_max_contexts) (refresh_context_irq_line B fresh id).1 p' e
        (refresh-IsGood fresh id g)

  Step-IsGood : {p p' : Plic B} → Step p p' → IsGood p → IsGood p'
  Step-IsGood (reads p t irq_level addr) g = read_impl-IsGood t irq_level p addr g
  Step-IsGood (writes p t irq_level addr value) g = write_impl-IsGood t irq_level p addr value g
  Step-IsGood (samples p id level) g = set_interrupt_level-IsGood p id level g
  Step-IsGood (updates p irq_level contexts) g =
      unfold update_context_irq_lines in
      refresh_all-IsGood contexts (sync_peripheral_irq_levels B irq_level p)
        (sync-IsGood irq_level p g)
  Step-IsGood (updates_one p irq_level c) g =
      unfold update_context_irq_line in
      (let synced = sync_peripheral_irq_levels B irq_level p in
        IsGood-if_pair (not (ltb c virt_max_contexts)) (none, p)
          (refresh_context_irq_line B synced c) g
          (refresh-IsGood synced c (sync-IsGood irq_level p g)))
  Step-IsGood (registers p p' id e) g = register_device-IsGood p p' id e g
  Step-IsGood (connects p p' id e) g = set_irq_line-IsGood p p' id e g

  Reach-IsGood : {p : Plic B} → Reach p → IsGood p
  Reach-IsGood start = unfold plic_new in (layout_new-IsValid B, refl)
  Reach-IsGood (next r s) = Step-IsGood s (Reach-IsGood r)

  -- Whatever accesses and events the device has seen, its registers are valid and each search of
  -- them is a right arbitration.
  pub Reach-IsArbitrated :
      {p : Plic B}
      → Reach p
      → (context : ℕ) (t : Bool)
      → IsValid B p.layout
        × IsArbitrated B p.layout context t (find_pending_interrupt B p.layout context t)
  Reach-IsArbitrated {p} r context t =
      let v = (Reach-IsGood r).0 in (v, find_pending_interrupt-IsArbitrated B p.layout context t v)
