-- ===== src/Hart/Cycles.antt =====
-- Which cycles a batch of src/isa/riscv/executor.rs runs, and how many.
use mathlib.Core.Option.{some-injective}
use here.Base.{
  Bool, Option, Option-cases, arith, false, inl, inr, refl, some, subst, suc, true, zero, ℕ, ◌+◌,
  ◌≡◌, ◌≤◌,
}
use here.Hart.{Op, RvCpu}
use here.Hart.Batch.{
  BatchResult, ExecutionHook, batch_loop, batch_result, step_batch_with_hook, take_interrupt,
}
use here.Hart.Step.{counted_step, increment_mcycle_by}
use here.Isa.{RvInstrInfo}
use here.Isa.Funct.{Decoder}
use here.Isa.Instr.{RiscvInstr}
use here.Mmio.{DeviceArena}

abbrev ended : {H C : Type 0} → ℕ → Bool → H → C → Option (BatchResult × H × C)
ended n stopped h c = some (batch_result n stopped, h, c)

-- A batch of `cycles` runs no more than that, and exactly that unless its hook stopped it.
abbrev pub WithinBudget : ℕ → BatchResult → Type 0
WithinBudget cycles r = (r.cycles ≤ cycles) × (r.hook_stopped ≡ false → r.cycles ≡ cycles)

module _ {A : DeviceArena} (debug : Bool) (units : RiscvInstr → RvInstrInfo → Op A (Unit {0}))
    (decoder : Decoder) where
  module _ (x : ExecutionHook A) where
    -- `Turns n stopped h cpu h' c`: from the hook `h` and the hart `cpu`, `n` turns, each of the hook,
    -- a counted step and the hook again, give `h'` and `c`; `stopped` is the answer of the last one.
    pub data Turns : ℕ → Bool → x.Hook → RvCpu A → x.Hook → RvCpu A → Type 0 where
      still : {h : x.Hook} {cpu : RvCpu A} → Turns 0 false h cpu h cpu
      halted :
          {h h1 h' : x.Hook} {cpu c1 c2 c : RvCpu A} (context : x.CycleContext)
          → x.before_step h cpu ≡ some (context, h1, c1)
          → counted_step debug units decoder c1 ≡ some c2
          → x.after_step h1 context c2 ≡ some (true, h', c)
          → Turns 1 true h cpu h' c
      turned :
          {n : ℕ} {stopped : Bool} {h h1 h2 h' : x.Hook} {cpu c1 c2 c3 c : RvCpu A}
          (context : x.CycleContext)
          → x.before_step h cpu ≡ some (context, h1, c1)
          → counted_step debug units decoder c1 ≡ some c2
          → x.after_step h1 context c2 ≡ some (false, h2, c3)
          → Turns n stopped h2 c3 h' c
          → Turns (suc n) stopped h cpu h' c

    -- `Ran n stopped h cpu h' c`: a batch of `n` cycles. An interrupt that is taken at the start is the
    -- first of them, and the hook may stop the batch after it.
    pub data Ran : ℕ → Bool → x.Hook → RvCpu A → x.Hook → RvCpu A → Type 0 where
      none_asked : {h : x.Hook} {cpu : RvCpu A} → Ran 0 false h cpu h cpu
      not_interrupted :
          {n : ℕ} {stopped : Bool} {h h' : x.Hook} {cpu c1 c : RvCpu A}
          → take_interrupt cpu ≡ some (false, c1)
          → Turns n stopped h c1 h' c
          → Ran n stopped h cpu h' c
      interrupt_only :
          {h h1 h' : x.Hook} {cpu c1 c : RvCpu A} (context : x.CycleContext)
          → take_interrupt cpu ≡ some (true, c1)
          → x.on_interrupt_taken h cpu.pc ≡ some (context, h1)
          → x.after_step h1 context (increment_mcycle_by 1 c1) ≡ some (true, h', c)
          → Ran 1 true h cpu h' c
      interrupted :
          {n : ℕ} {stopped : Bool} {h h1 h2 h' : x.Hook} {cpu c1 c2 c : RvCpu A}
          (context : x.CycleContext)
          → take_interrupt cpu ≡ some (true, c1)
          → x.on_interrupt_taken h cpu.pc ≡ some (context, h1)
          → x.after_step h1 context (increment_mcycle_by 1 c1) ≡ some (false, h2, c2)
          → Turns n stopped h2 c2 h' c
          → Ran (suc n) stopped h cpu h' c

    -- What the loop does from `executed` cycles on, with `left` to go.
    abbrev LoopRan : ℕ → ℕ → x.Hook → RvCpu A → BatchResult → x.Hook → RvCpu A → Type 0
    LoopRan left executed h cpu r h' c =
        (n : ℕ) × (r.cycles ≡ executed + n)
        × (n ≤ left)
        × (r.hook_stopped ≡ false → n ≡ left)
        × Turns n r.hook_stopped h cpu h' c

    batch_loop-LoopRan :
        (left executed : ℕ) (h h' : x.Hook) (cpu c : RvCpu A) (r : BatchResult)
        → batch_loop debug units decoder x left executed h cpu ≡ some (r, h', c)
        → LoopRan left executed h cpu r h' c
    unfolding batch_loop
    batch_loop-LoopRan zero executed h h' cpu c r e =
        subst (λ t. LoopRan 0 executed h cpu t.0 t.1 t.2) (some-injective _ _ e)
          (0, omega arith, omega arith, (λ f. refl), still)
    batch_loop-LoopRan (suc left) executed h h' cpu c r e =
        elim (Option-cases (x.before_step h cpu)) [
          | inl e1 ↦ absurd (ground (arith, e, e1))
          | inr ((context, h1, c1), e1) ↦
              elim (Option-cases (counted_step debug units decoder c1)) [
                | inl e2 ↦ absurd (ground (arith, e, e1, e2))
                | inr (c2, e2) ↦ elim (Option-cases (x.after_step h1 context c2)) [
                  | inl e3 ↦ absurd (ground (arith, e, e1, e2, e3))
                  | inr ((true, h3, c3), e3) ↦
                      (let same : ended (suc executed) true h3 c3 ≡ some (r, h', c) =
                          ground (arith, e, e1, e2, e3) in
                        subst (λ t. LoopRan (suc left) executed h cpu t.0 t.1 t.2)
                          (some-injective _ _ same)
                          (
                            1,
                            omega arith,
                            omega arith,
                            (λ f. absurd (cc f)),
                            halted context e1 e2 e3,
                          ))
                  | inr ((false, h3, c3), e3) ↦
                      (let (n, count, le, all, turns) =
                          batch_loop-LoopRan left (suc executed) h3 h' c3 c r
                            (ground (arith, e, e1, e2, e3)) in
                        (
                          suc n,
                          omega (arith, count),
                          omega (arith, le),
                          (λ f. omega (arith, all f)),
                          turned context e1 e2 e3 turns,
                        ))
                ]
              ]
        ]

    not_interrupted-Ran :
        (cycles : ℕ) (h h' : x.Hook) (cpu c1 c : RvCpu A) (r : BatchResult)
        → take_interrupt cpu ≡ some (false, c1)
        → LoopRan cycles 0 h c1 r h' c
        → WithinBudget cycles r × Ran r.cycles r.hook_stopped h cpu h' c
    not_interrupted-Ran cycles h h' cpu c1 c r e (n, count, le, all, turns) =
        let n_cycles : n ≡ r.cycles = omega (arith, count) in
        (
          (omega (arith, count, le), λ f. omega (arith, count, all f)),
          subst (λ k. Ran k r.hook_stopped h cpu h' c) n_cycles (not_interrupted e turns),
        )

    interrupted-Ran :
        (left : ℕ) (h h1 h2 h' : x.Hook) (cpu c1 c2 c : RvCpu A) (r : BatchResult)
        (context : x.CycleContext)
        → take_interrupt cpu ≡ some (true, c1)
        → x.on_interrupt_taken h cpu.pc ≡ some (context, h1)
        → x.after_step h1 context (increment_mcycle_by 1 c1) ≡ some (false, h2, c2)
        → LoopRan left 1 h2 c2 r h' c
        → WithinBudget (suc left) r × Ran r.cycles r.hook_stopped h cpu h' c
    interrupted-Ran left h h1 h2 h' cpu c1 c2 c r context e1 e2 e3 (n, count, le, all, turns) =
        let n_cycles : suc n ≡ r.cycles = omega (arith, count) in
        (
          (omega (arith, count, le), λ f. omega (arith, count, all f)),
          subst (λ k. Ran k r.hook_stopped h cpu h' c) n_cycles
              (interrupted context e1 e2 e3 turns),
        )

    -- A batch under a hook that does not panic runs the cycles that it reports, each with the hook
    -- before and after it and in this order, where an interrupt taken at the start is the first. It
    -- reports at most `cycles` of them, and exactly `cycles` unless the hook stopped it.
    pub step_batch_with_hook-runs :
        (cycles : ℕ) (h h' : x.Hook) (cpu c : RvCpu A) (r : BatchResult)
        → step_batch_with_hook debug units decoder x cycles h cpu ≡ some (r, h', c)
        → WithinBudget cycles r × Ran r.cycles r.hook_stopped h cpu h' c
    unfolding step_batch_with_hook
    step_batch_with_hook-runs zero h h' cpu c r e =
        subst (λ t. WithinBudget 0 t.0 × Ran t.0.cycles t.0.hook_stopped h cpu t.1 t.2)
          (some-injective _ _ e) ((omega arith, (λ f. refl)), none_asked)
    step_batch_with_hook-runs (suc n) h h' cpu c r e = elim (Option-cases (take_interrupt cpu)) [
      | inl e1 ↦ absurd (ground (arith, e, e1))
      | inr ((false, c1), e1) ↦
          not_interrupted-Ran (suc n) h h' cpu c1 c r e1
            (batch_loop-LoopRan (suc n) 0 h h' c1 c r (ground (arith, e, e1)))
      | inr ((true, c1), e1) ↦ elim (Option-cases (x.on_interrupt_taken h cpu.pc)) [
        | inl e2 ↦ absurd (ground (arith, e, e1, e2))
        | inr ((context, h1), e2) ↦
            elim (Option-cases (x.after_step h1 context (increment_mcycle_by 1 c1))) [
              | inl e3 ↦ absurd (ground (arith, e, e1, e2, e3))
              | inr ((true, h2, c2), e3) ↦
                  (let same : ended 1 true h2 c2 ≡ some (r, h', c) =
                      ground (arith, e, e1, e2, e3) in
                    subst
                      (λ t.
                        WithinBudget (suc n) t.0 × Ran t.0.cycles t.0.hook_stopped h cpu t.1 t.2)
                      (some-injective _ _ same)
                      ((omega arith, (λ f. absurd (cc f))), interrupt_only context e1 e2 e3))
              | inr ((false, h2, c2), e3) ↦
                  interrupted-Ran n h h1 h2 h' cpu c1 c2 c r context e1 e2 e3
                    (batch_loop-LoopRan n 1 h2 h' c2 c r (ground (arith, e, e1, e2, e3)))
            ]
      ]
    ]
