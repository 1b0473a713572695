-- ===== src/Hart/Zero.antt =====
-- Register 0 reads as zero after every cycle of src/isa/riscv/executor.rs.
use here.Base.{
  Bool, Bool-cases, Option, Option-cases, Result, arith, err, inl, inr, none, ok, refl, some, suc,
  true, zero, ℕ, ◌&&◌, ◌==◌, ◌∙◌, ◌≡◌,
}
use here.Word.{Width, half, wrapping_add}
use here.Device.{MemError}
use here.Hart.{Op, RvCpu, read_for_ifetch}
use here.Hart.Mapping.{get_exec_func}
use here.Hart.Step.{
  ExceptionInfo, counted_step, decode_at_checked, decode_fetched, execute, fetch_failed,
  fetch_upper, finish_execution, hart_exception, icache_get, ifetch_at, increment_mcycle_by,
  left_over, pending_or_zero, step_batch_no_interrupt, step_impl, trap_view, with_trap,
}
use here.Isa.{DecodeInstr, RvInstrInfo, instr_len, raw_from}
use here.Isa.Funct.{Decoder, decode}
use here.Isa.Instr.{RiscvInstr}
use here.Mmio.{DeviceArena}
use here.Mmu.Manager.{read_with_policy}
use here.Mmu.Policy.{resolve_ifetch_policy}
use here.Trap.{Exception, from_instr_fetch_err, illegal_instruction}
use here.Trap.Controller.{take_exception}

module _ {A : DeviceArena} where
  fetch-reg_file :
      (t : Width) (addr : ℕ) (cpu c : RvCpu A) (r : Result MemError ℕ)
      → read_for_ifetch t addr cpu ≡ some (r, c)
      → c.reg_file 0 ≡ cpu.reg_file 0
  unfolding read_for_ifetch
  fetch-reg_file t addr cpu c r h = elim (Option-cases (resolve_ifetch_policy cpu.csr true)) [
    | inl e ↦ absurd (ground (arith, e, h))
    | inr (policy, e) ↦ elim (Option-cases (read_with_policy A t cpu.memory addr policy)) [
      | inl e' ↦ absurd (ground (arith, e, e', h))
      | inr ((r', m), e') ↦ ground (arith, e, e', h)
    ]
  ]

  failed-reg_file :
      {T : Type 0} (e : MemError) (addr : ℕ) (cpu c : RvCpu A) (r : Result ExceptionInfo T)
      → fetch_failed e addr cpu ≡ some (r, c)
      → c.reg_file 0 ≡ cpu.reg_file 0
  failed-reg_file e addr cpu c r h = elim (Option-cases (from_instr_fetch_err e)) [
    | inl e ↦ absurd (ground (arith, e, h))
    | inr (x, e) ↦ ground (arith, e, h)
  ]

  upper-reg_file :
      (low addr : ℕ) (cpu c : RvCpu A) (r : Result ExceptionInfo ℕ)
      → fetch_upper low addr cpu ≡ some (r, c)
      → c.reg_file 0 ≡ cpu.reg_file 0
  unfolding fetch_upper
  upper-reg_file low addr cpu c r h =
      elim (Option-cases (read_for_ifetch half (wrapping_add addr 2) cpu)) [
        | inl e ↦ absurd (ground (arith, e, h))
        | inr ((err x, c'), e) ↦
            failed-reg_file x (wrapping_add addr 2) c' c r (ground (arith, e, h))
            ∙ fetch-reg_file half (wrapping_add addr 2) cpu c' (err x) e
        | inr ((ok v, c'), e) ↦
            ground (arith, e, h, fetch-reg_file half (wrapping_add addr 2) cpu c' (ok v) e)
      ]

  ifetch_at-reg_file :
      (addr : ℕ) (cpu c : RvCpu A) (r : Result ExceptionInfo ℕ)
      → ifetch_at addr cpu ≡ some (r, c)
      → c.reg_file 0 ≡ cpu.reg_file 0
  unfolding ifetch_at
  ifetch_at-reg_file addr cpu c r h = elim (Option-cases (read_for_ifetch half addr cpu)) [
    | inl e ↦ absurd (ground (arith, e, h))
    | inr ((err x, c'), e) ↦
        failed-reg_file x addr c' c r (ground (arith, e, h))
        ∙ fetch-reg_file half addr cpu c' (err x) e
    | inr ((ok v, c'), e) ↦ elim (Bool-cases (instr_len (raw_from v) == 4)) [
      | inl t ↦
          upper-reg_file (raw_from v) addr c' c r (ground (arith, e, h, t))
          ∙ fetch-reg_file half addr cpu c' (ok v) e
      | inr t ↦ ground (arith, e, h, t, fetch-reg_file half addr cpu c' (ok v) e)
    ]
  ]

  module _ (decoder : Decoder) where
    fetched-reg_file :
        (raw addr : ℕ) (cpu c : RvCpu A) (r : Result ExceptionInfo DecodeInstr)
        → decode_fetched decoder raw addr cpu ≡ some (r, c)
        → c.reg_file 0 ≡ cpu.reg_file 0
    unfolding decode_fetched
    fetched-reg_file raw addr cpu c r h = elim (Option-cases (decode decoder raw)) [
      | inl e ↦ absurd (ground (arith, e, h))
      | inr (none, e) ↦ ground (arith, e, h)
      | inr (some d, e) ↦ ground (arith, e, h)
    ]

    decode_at-reg_file :
        (addr : ℕ) (cpu c : RvCpu A) (r : Result ExceptionInfo DecodeInstr)
        → decode_at_checked decoder addr cpu ≡ some (r, c)
        → c.reg_file 0 ≡ cpu.reg_file 0
    unfolding decode_at_checked
    decode_at-reg_file addr cpu c r h = elim (Option-cases (icache_get cpu.icache addr)) [
      | inr (d, e) ↦ ground (arith, e, h)
      | inl e ↦ elim (Option-cases (ifetch_at addr cpu)) [
        | inl e' ↦ absurd (ground (arith, e, e', h))
        | inr ((err x, c'), e') ↦
            ground (arith, e, e', h, ifetch_at-reg_file addr cpu c' (err x) e')
        | inr ((ok raw, c'), e') ↦
            fetched-reg_file raw addr c' c r (ground (arith, e, e', h))
            ∙ ifetch_at-reg_file addr cpu c' (ok raw) e'
      ]
    ]

  module _ (debug : Bool) (units : RiscvInstr → RvInstrInfo → Op A (Unit {0})) where
    exception-reg_file :
        (x : Exception) (tval : ℕ) (cpu c : RvCpu A)
        → hart_exception debug units x tval cpu ≡ some c
        → c.reg_file 0 ≡ cpu.reg_file 0
    unfolding hart_exception with_trap
    exception-reg_file x tval cpu c h =
        elim (Option-cases (take_exception debug (trap_view cpu) x tval)) [
          | inl e ↦ absurd (ground (arith, e, h))
          | inr (t, e) ↦ ground (arith, e, h)
        ]

    execute-reg_zero :
        (instr : RiscvInstr) (info : RvInstrInfo) (cpu c : RvCpu A)
        (r : Result Exception (Unit {0}))
        → execute debug units instr info cpu ≡ some (r, c)
        → c.reg_file 0 ≡ 0
    unfolding execute
    execute-reg_zero instr info cpu c r h =
        elim (Option-cases (get_exec_func debug units instr info cpu)) [
          | inl e ↦ absurd (ground (arith, e, h))
          | inr (w, e) ↦ ground (arith, e, h)
        ]

    retried-reg_zero :
        (cpu c : RvCpu A)
        → cpu.reg_file 0 ≡ 0
        → finish_execution debug units (some (err illegal_instruction, cpu)) ≡ some c
        → c.reg_file 0 ≡ 0
    unfolding finish_execution
    retried-reg_zero cpu c z h = elim (Option-cases (ifetch_at cpu.pc cpu)) [
      | inl e ↦ absurd (ground (arith, e, h))
      | inr ((err x, c'), e) ↦ absurd (ground (arith, e, h))
      | inr ((ok raw, c'), e) ↦
          exception-reg_file illegal_instruction raw c' c (ground (arith, e, h))
          ∙ ifetch_at-reg_file cpu.pc cpu c' (ok raw) e
          ∙ z
    ]

    -- The handling of an exception, whichever it is, leaves register 0 as it is.
    raised-reg_zero :
        (x : Exception) (cpu c : RvCpu A)
        → cpu.reg_file 0 ≡ 0
        → finish_execution debug units (some (err x, cpu)) ≡ some c
        → c.reg_file 0 ≡ 0
    unfolding finish_execution
    raised-reg_zero illegal_instruction cpu c z h = retried-reg_zero cpu c z h
    raised-reg_zero x cpu c z h =
        exception-reg_file x (pending_or_zero cpu.pending_tval) (record cpu { pending_tval = none })
          c h
        ∙ z

    finish-reg_zero :
        (o : Option (Result Exception (Unit {0}) × RvCpu A)) (c : RvCpu A)
        → ((r : Result Exception (Unit {0})) (c' : RvCpu A) → o ≡ some (r, c') → c'.reg_file 0 ≡ 0)
        → finish_execution debug units o ≡ some c
        → c.reg_file 0 ≡ 0
    unfolding finish_execution
    finish-reg_zero none c z h = absurd (ground (arith, h))
    finish-reg_zero (some (ok v, c')) c z h = ground (arith, h, z (ok v) c' refl)
    finish-reg_zero (some (err x, c')) c z h = raised-reg_zero x c' c (z (err x) c' refl) h

    module _ (decoder : Decoder) where
      step_impl-reg_zero :
          (cpu c : RvCpu A)
          → cpu.reg_file 0 ≡ 0
          → step_impl debug units decoder cpu ≡ some c
          → c.reg_file 0 ≡ 0
      unfolding step_impl
      step_impl-reg_zero cpu c z h = elim (Option-cases (decode_at_checked decoder cpu.pc cpu)) [
        | inl e ↦ absurd (ground (arith, e, h))
        | inr ((err x, c'), e) ↦
            exception-reg_file x.cause x.tval c' c (ground (arith, e, h))
            ∙ decode_at-reg_file decoder cpu.pc cpu c' (err x) e
            ∙ z
        | inr ((ok d, c'), e) ↦
            finish-reg_zero (execute debug units d.instr d.info c') c
              (λ r c''. execute-reg_zero d.instr d.info c' c'' r) (ground (arith, e, h))
      ]

      counted_step-reg_zero :
          (cpu c : RvCpu A)
          → cpu.reg_file 0 ≡ 0
          → counted_step debug units decoder cpu ≡ some c
          → c.reg_file 0 ≡ 0
      unfolding counted_step increment_mcycle_by
      counted_step-reg_zero cpu c z h = elim (Option-cases (step_impl debug units decoder cpu)) [
        | inl e ↦ absurd (ground (arith, e, h))
        | inr (c', e) ↦ elim (Bool-cases (debug && left_over c'.pending_tval)) [
          | inl t ↦ absurd (ground (arith, e, t, h))
          | inr t ↦ ground (arith, e, t, h, step_impl-reg_zero cpu c' z e)
        ]
      ]

      -- Register 0 of a hart stays zero over any number of cycles: over failed fetches, words that
      -- do not decode, exceptions, and every instruction, whatever those of the units left out do.
      pub step_batch_no_interrupt-reg_zero :
          (cycles : ℕ) (cpu c : RvCpu A)
          → cpu.reg_file 0 ≡ 0
          → step_batch_no_interrupt debug units decoder cycles cpu ≡ some c
          → c.reg_file 0 ≡ 0
      unfolding step_batch_no_interrupt
      step_batch_no_interrupt-reg_zero zero cpu c z h = ground (arith, h, z)
      step_batch_no_interrupt-reg_zero (suc n) cpu c z h =
          elim (Option-cases (counted_step debug units decoder cpu)) [
            | inl e ↦ absurd (ground (arith, e, h))
            | inr (c', e) ↦
                step_batch_no_interrupt-reg_zero n c' c (counted_step-reg_zero cpu c' z e)
                  (ground (arith, e, h))
          ]
