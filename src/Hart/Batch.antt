-- ===== src/Hart/Batch.antt =====
-- src/isa/riscv/executor.rs: batches of cycles with a hook, interrupts between instructions and
-- from the devices, and the end of a translated block.
use here.Base.{Bool, Option, false, if◌then◌else◌, none, some, suc, true, update, zero, ℕ}
use here.Csr.File.{set_field}
use here.Csr.Table.Machine.{mip}
use here.Hart.{Op, RvCpu, next_minstret}
use here.Hart.Step.{counted_step, increment_mcycle_by}
use here.Isa.{RvInstrInfo}
use here.Isa.Funct.{Decoder}
use here.Isa.Instr.{RiscvInstr}
use here.Mmio.{DeviceArena}
use here.Trap.{Interrupt, machine_external, machine_soft, machine_timer, supervisor_external}
use here.Trap.Controller.{try_take_interrupt}

module _ (A : DeviceArena) where
  -- `ExecutionHook`: the state of the hook, the data of a cycle, and what it does, which may panic.
  pub record ExecutionHook : Type 1 where
    pub Hook : Type 0
    pub CycleContext : Type 0
    pub before_step : Hook → RvCpu A → Option (CycleContext × Hook × RvCpu A)
    pub on_interrupt_taken : Hook → ℕ → Option (CycleContext × Hook)
    pub after_step : Hook → CycleContext → RvCpu A → Option (Bool × Hook × RvCpu A)

  abbrev pub noop_hook : ExecutionHook
  noop_hook = record {
    Hook = Unit {0};
    CycleContext = Unit {0};
    before_step = λ h cpu. some (tt, h, cpu);
    on_interrupt_taken = λ h pc. some (tt, h);
    after_step = λ h context cpu. some (false, h, cpu);
  }

pub record BatchResult : Type 0 where
  pub cycles : ℕ
  pub hook_stopped : Bool

abbrev pub batch_result : ℕ → Bool → BatchResult
batch_result n stopped = record { cycles = n; hook_stopped = stopped }

module _ {A : DeviceArena} where
  -- `TrapController::try_take_interrupt` on the CSRs and the program counter
  unfoldable pub take_interrupt : RvCpu A → Option (Bool × RvCpu A)
  unfolding try_take_interrupt
  take_interrupt cpu = elim (try_take_interrupt (record { csr = cpu.csr; pc = cpu.pc })) [
    | none ↦ none
    | some (none, t) ↦ some (false, record cpu { csr = t.csr; pc = t.pc })
    | some (some i, t) ↦ some (true, record cpu { csr = t.csr; pc = t.pc })
  ]

  abbrev set_mip : RvCpu A → ℕ → Bool → Option (RvCpu A)
  set_mip cpu bit level = elim (set_field cpu.csr mip bit 1 (if level then 1 else 0)) [
    | none ↦ none
    | some f ↦ some (record cpu { csr = f })
  ]

  -- `RiscvIRQHandler::handle_irq`; `none` is `todo!`.
  unfoldable pub handle_irq : Interrupt → Bool → RvCpu A → Option (RvCpu A)
  unfolding set_field
  handle_irq machine_timer level cpu = set_mip cpu 7 level
  handle_irq machine_external level cpu = set_mip cpu 11 level
  handle_irq supervisor_external level cpu = set_mip cpu 9 level
  handle_irq machine_soft level cpu = set_mip cpu 3 level
  handle_irq _ level cpu = none

  unfoldable pub try_take_pending_interrupt : RvCpu A → Option (Bool × RvCpu A)
  unfolding take_interrupt increment_mcycle_by
  try_take_pending_interrupt cpu = elim (take_interrupt cpu) [
    | none ↦ none
    | some (false, c) ↦ some (false, c)
    | some (true, c) ↦ some (true, increment_mcycle_by 1 c)
  ]

  unfoldable pub finish_jit_block : ℕ → ℕ → RvCpu A → Option (RvCpu A)
  unfolding increment_mcycle_by next_minstret
  finish_jit_block next_pc instr_count cpu =
      let c =
        increment_mcycle_by instr_count
          (record cpu { pc = next_pc; reg_file = update cpu.reg_file 0 0 }) in
      elim (next_minstret c.csr instr_count) [ none ↦ none | some f ↦ some (record c { csr = f }) ]

  module _ (debug : Bool) (units : RiscvInstr → RvInstrInfo → Op A (Unit {0}))
      (decoder : Decoder) where
    module _ (x : ExecutionHook A) where
      abbrev Ran : Type 0
      Ran = Option (BatchResult × x.Hook × RvCpu A)

      -- After a cycle: the hook may stop the batch.
      abbrev pub after_cycle :
          ℕ → x.CycleContext → x.Hook → RvCpu A → (x.Hook → RvCpu A → Ran) → Ran
      after_cycle executed context h cpu continue = elim (x.after_step h context cpu) [
        | none ↦ none
        | some (true, h', c) ↦ some (batch_result executed true, h', c)
        | some (false, h', c) ↦ continue h' c
      ]

      -- The loop, by the number of cycles that are left.
      unfoldable pub batch_loop : ℕ → ℕ → x.Hook → RvCpu A → Ran
      unfolding counted_step
      batch_loop zero executed h cpu = some (batch_result executed false, h, cpu)
      batch_loop (suc left) executed h cpu = elim (x.before_step h cpu) [
        | none ↦ none
        | some (context, h', c) ↦ elim (counted_step debug units decoder c) [
          | none ↦ none
          | some c' ↦ after_cycle (suc executed) context h' c' (batch_loop left (suc executed))
        ]
      ]

      unfoldable pub step_batch_with_hook : ℕ → x.Hook → RvCpu A → Ran
      unfolding take_interrupt increment_mcycle_by batch_loop
      step_batch_with_hook zero h cpu = some (batch_result 0 false, h, cpu)
      step_batch_with_hook (suc cycles) h cpu = elim (take_interrupt cpu) [
        | none ↦ none
        | some (false, c) ↦ batch_loop (suc cycles) 0 h c
        | some (true, c) ↦ elim (x.on_interrupt_taken h cpu.pc) [
          | none ↦ none
          | some (context, h') ↦
              after_cycle 1 context h' (increment_mcycle_by 1 c) (batch_loop cycles 1)
        ]
      ]

    unfoldable pub step_batch : ℕ → RvCpu A → Option (RvCpu A)
    unfolding step_batch_with_hook
    step_batch cycles cpu = elim (step_batch_with_hook (noop_hook A) cycles tt cpu) [
      | none ↦ none
      | some (r, h, c) ↦ some c
    ]

    unfoldable pub step : RvCpu A → Option (RvCpu A)
    unfolding step_batch
    step cpu = step_batch 1 cpu
