-- ===== src/Plic/Device.antt =====
-- `PLIC` of src/device/plic/mod.rs: the bus accesses, the peripherals that are sampled, and the
-- interrupt lines of the CPU contexts. What a peripheral answers to `irq_level()` comes from
-- outside, as the argument `irq_level`. A line is the list of the levels that `IRQLine::set_irq`
-- passed to its handler, the last one first.
pub mod Lines
pub mod Steps
mod Examples
use here.Base.{
  Bool, List, Option, Result, [], err, false, if◌then◌else◌, ltb, none, not, ok, some, suc, true,
  update, zero, ℕ, ◌+◌, ◌==◌, ◌∷◌,
}
use here.Word.{Width, size_of, truncate_to, word}
use here.Device.{MemError, load_fault, store_fault}
use here.Plic.BitReg.{register_bytes, virt_max_contexts, virt_max_interrupts}
use here.Plic.BitSet.{BitSet}
use here.Plic.Layout.{
  PlicLayout, is_valid_interrupt_id, layout_new, pending_interrupt_to_notify, set_source_level,
}
use here.Plic.Registers.{
  PlicRegister, claim_complete, decode_register, pending_word, read_register, write_register,
}

abbrev pub is_claim_complete : PlicRegister → Bool
is_claim_complete (claim_complete c) = true
is_claim_complete _ = false

abbrev pub is_pending_word : PlicRegister → Bool
is_pending_word (pending_word i) = true
is_pending_word _ = false

abbrev pub is_some : Option ℕ → Bool
is_some none = false
is_some (some i) = true

abbrev pub same_level : Option Bool → Bool → Bool
same_level none level = false
same_level (some true) level = level
same_level (some false) level = not level

module _ (B : BitSet) where
  pub record Plic : Type 0 where
    pub layout : PlicLayout B
    pub riscv_irq_line : ℕ → Option (List Bool)
    pub riscv_irq_level : ℕ → Option Bool
    pub peripheral_irq_devices : ℕ → Bool

  unfoldable pub plic_new : Plic
  plic_new = record {
    layout = layout_new B;
    riscv_irq_line = λ _. none;
    riscv_irq_level = λ _. none;
    peripheral_irq_devices = λ _. false;
  }

  -- `none` is the failed assertion.
  unfoldable pub register_device : Plic → ℕ → Option Plic
  register_device p id =
      if is_valid_interrupt_id id
      then some (record p { peripheral_irq_devices = update p.peripheral_irq_devices id true })
      else none

  unfoldable pub set_interrupt_level : Plic → ℕ → Bool → Plic
  set_interrupt_level p id level =
      if not (is_valid_interrupt_id id)
      then p
      else record p { layout = set_source_level B p.layout id level }

  -- The loop over the devices, from the first id on.
  unfoldable pub sync_from : (ℕ → Bool) → (ℕ → Bool) → ℕ → ℕ → PlicLayout B → PlicLayout B
  sync_from devices irq_level first zero l = l
  sync_from devices irq_level first (suc n) l =
      sync_from devices irq_level (first + 1) n
        (if devices first then set_source_level B l first (irq_level first) else l)

  unfoldable pub sync_peripheral_irq_levels : (ℕ → Bool) → Plic → Plic
  unfolding sync_from
  sync_peripheral_irq_levels irq_level p = record p {
    layout = sync_from p.peripheral_irq_devices irq_level 0 virt_max_interrupts p.layout;
  }

  pub read_decoded : (ℕ → Bool) → Plic → PlicRegister → Result MemError ℕ × Plic
  read_decoded irq_level p r =
      let p' = if is_claim_complete r then sync_peripheral_irq_levels irq_level p else p in
      let (value, l) = read_register B p'.layout r in
      (ok (truncate_to word value), record p' { layout = l })

  unfoldable pub read_impl : Width → (ℕ → Bool) → Plic → ℕ → Result MemError ℕ × Plic
  unfolding read_decoded
  read_impl t irq_level p addr =
      if not (size_of t == register_bytes)
      then (err load_fault, p)
      else elim (decode_register addr) [
        | none ↦ (err load_fault, p)
        | some r ↦ read_decoded irq_level p r
      ]

  pub write_decoded : (ℕ → Bool) → Plic → PlicRegister → ℕ → Result MemError (Unit {0}) × Plic
  write_decoded irq_level p r value =
      if is_pending_word r
      then (err store_fault, p)
      else (let p' = if is_claim_complete r then sync_peripheral_irq_levels irq_level p else p in
          (ok tt, record p' { layout = write_register B p'.layout r (truncate_to word value) }))

  unfoldable pub write_impl : Width → (ℕ → Bool) → Plic → ℕ → ℕ → Result MemError (Unit {0}) × Plic
  unfolding write_decoded
  write_impl t irq_level p addr value =
      if not (size_of t == register_bytes)
      then (err store_fault, p)
      else elim (decode_register addr) [
        | none ↦ (err store_fault, p)
        | some r ↦ write_decoded irq_level p r value
      ]

  unfoldable pub set_context_irq_line : Plic → ℕ → Bool → Plic
  set_context_irq_line p context level =
      if same_level (p.riscv_irq_level context) level
      then p
      else (let p' = record p { riscv_irq_level = update p.riscv_irq_level context (some level) } in
          elim (p'.riscv_irq_line context) [
            | none ↦ p'
            | some told ↦ record p' {
              riscv_irq_line = update p'.riscv_irq_line context (some (level ∷ told));
            }
          ])

  unfoldable pub refresh_context_irq_line : Plic → ℕ → Option ℕ × Plic
  unfolding set_context_irq_line
  refresh_context_irq_line p context =
      let pending_interrupt = pending_interrupt_to_notify B p.layout context in
      (pending_interrupt, set_context_irq_line p context (is_some pending_interrupt))

  unfoldable pub update_context_irq_line : (ℕ → Bool) → Plic → ℕ → Option ℕ × Plic
  unfolding refresh_context_irq_line
  update_context_irq_line irq_level p context =
      if not (ltb context virt_max_contexts)
      then (none, p)
      else refresh_context_irq_line (sync_peripheral_irq_levels irq_level p) context

  unfoldable pub refresh_all : List ℕ → Plic → Plic
  unfolding refresh_context_irq_line
  refresh_all [] p = p
  refresh_all (context ∷ contexts) p =
      refresh_all contexts
        (if ltb context virt_max_contexts then (refresh_context_irq_line p context).1 else p)

  unfoldable pub update_context_irq_lines : (ℕ → Bool) → Plic → List ℕ → Plic
  unfolding refresh_all
  update_context_irq_lines irq_level p contexts =
      refresh_all contexts (sync_peripheral_irq_levels irq_level p)

  -- A new line has been told nothing. `none` is the failed assertion.
  unfoldable pub set_irq_line : Plic → ℕ → Option Plic
  unfolding refresh_context_irq_line
  set_irq_line p id =
      if ltb id virt_max_contexts
      then some (
          (refresh_context_irq_line
            (record p {
              riscv_irq_line = update p.riscv_irq_line id (some []);
              riscv_irq_level = update p.riscv_irq_level id none;
            })
            id).1)
      else none
