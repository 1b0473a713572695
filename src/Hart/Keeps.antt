-- ===== src/Hart/Keeps.antt =====
-- What an instruction's body leaves alone when it succeeds: nothing of
-- src/isa/riscv/instruction/exec_function.rs moves the program counter before the retirement.
use here.Base.{
  Bool, Option, Option-cases, Result, arith, err, if◌then◌else◌, inl, inr, none, ok, refl, some,
  true, ℕ, ◌*◌, ◌∙◌, ◌≡◌, ◌⊎◌,
}
use here.Word.{Width, sign_extend, size_of, truncate_to}
use here.Device.{MemError}
use here.Hart.{
  Op, RvCpu, cpu_read, cpu_write, done, finish_memory_access, reg, reg_write, with_data_policy,
  ◌>>=◌,
}
use here.Hart.Core.{handle_load, lift}
use here.Hart.Exec.{arith_body, load_body, store_body, wrapping_add_as_signed}
use here.Isa.{RvInstrInfo, info_i, info_r, info_s}
use here.Mmio.{DeviceArena}
use here.Mmu.Manager.{VirtAddrManager, read_with_policy, write_with_policy}
use here.Mmu.Policy.{AccessPolicy, AccessType, read_access, resolve_data_policy, write_access}
use here.Trap.{Exception}

module _ {A : DeviceArena} where
  abbrev pub KeepsPc : {T : Type 0} → Op A T → Type 0
  KeepsPc {T} f = (cpu c : RvCpu A) (v : T) → f cpu ≡ some (ok v, c) → c.pc ≡ cpu.pc

  pub run_outcome :
      {T : Type 0} (o : Option (Result Exception T × RvCpu A))
      → (o ≡ none)
        ⊎ ((x : Exception) × (c : RvCpu A) × (o ≡ some (err x, c)))
        ⊎ ((v : T) × (c : RvCpu A) × (o ≡ some (ok v, c)))
  run_outcome none = inl refl
  run_outcome (some (err x, c)) = inr (inl (x, c, refl))
  run_outcome (some (ok v, c)) = inr (inr (v, c, refl))

  pub >>=-KeepsPc :
      {S T : Type 0} (f : Op A S) (g : S → Op A T)
      → KeepsPc f
      → ((v : S) → KeepsPc (g v))
      → KeepsPc (f >>= g)
  >>=-KeepsPc f g kf kg cpu c w h = elim (run_outcome (f cpu)) [
    | inl e ↦ absurd (ground (arith, e, h))
    | inr (inl (x, c', e)) ↦ absurd (ground (arith, e, h))
    | inr (inr (v, c', e)) ↦ kg v c' c w (ground (arith, e, h)) ∙ kf cpu c' v e
  ]

  pub reg_write-KeepsPc : (rd v : ℕ) → KeepsPc (reg_write {A = A} rd v)
  unfolding reg_write
  reg_write-KeepsPc rd v cpu c tt h = ground (arith, h)

  done-KeepsPc : {T : Type 0} (v : T) → KeepsPc (done {A = A} v)
  done-KeepsPc v cpu c w h = ground (arith, h)

  lift-KeepsPc : {T : Type 0} (r : Result Exception T) → KeepsPc (lift {A = A} r)
  lift-KeepsPc (ok v) cpu c w h = ground (arith, h)
  lift-KeepsPc (err e) cpu c w h = absurd (ground (arith, h))

  finish-pc :
      {T : Type 0} (addr : ℕ) (o : Option (Result MemError T × VirtAddrManager A))
      → KeepsPc (finish_memory_access addr o)
  unfolding finish_memory_access
  finish-pc addr none cpu c v h = absurd (ground (arith, h))
  finish-pc addr (some (ok w, m)) cpu c v h = ground (arith, h)
  finish-pc addr (some (err e, m)) cpu c v h = absurd (ground (arith, h))

  policy-KeepsPc :
      {T : Type 0} (access : AccessType) (k : AccessPolicy → Op A T)
      → ((policy : AccessPolicy) → KeepsPc (k policy))
      → KeepsPc (with_data_policy access k)
  policy-KeepsPc access k keeps cpu c v h =
      elim (Option-cases (resolve_data_policy cpu.csr access true)) [
        | inl e ↦ absurd (ground (arith, e, h))
        | inr (policy, e) ↦ keeps policy cpu c v (ground (arith, e, h))
      ]

  pub cpu_read-KeepsPc : (t : Width) (addr : ℕ) → KeepsPc (cpu_read {A = A} t addr)
  unfolding cpu_read
  cpu_read-KeepsPc t addr =
      policy-KeepsPc read_access
        (λ policy cpu. finish_memory_access addr (read_with_policy A t cpu.memory addr policy) cpu)
        (λ policy cpu. finish-pc addr (read_with_policy A t cpu.memory addr policy) cpu)

  pub cpu_write-KeepsPc : (t : Width) (addr v : ℕ) → KeepsPc (cpu_write {A = A} t addr v)
  unfolding cpu_write
  cpu_write-KeepsPc t addr v =
      policy-KeepsPc write_access
        (λ policy cpu.
          finish_memory_access addr (write_with_policy A t cpu.memory addr v policy) cpu)
        (λ policy cpu. finish-pc addr (write_with_policy A t cpu.memory addr v policy) cpu)

  pub handle_load-KeepsPc :
      (t : Width) (extend : Bool) (rd addr : ℕ) → KeepsPc (handle_load {A = A} t extend rd addr)
  unfolding handle_load
  handle_load-KeepsPc t extend rd addr =
      >>=-KeepsPc (cpu_read t addr)
        (λ v. reg_write rd (if extend then sign_extend v (size_of t * 8) else v))
        (cpu_read-KeepsPc t addr)
        (λ v. reg_write-KeepsPc rd (if extend then sign_extend v (size_of t * 8) else v))

  computed-KeepsPc : (r : Result Exception ℕ) (rd : ℕ) → KeepsPc (lift {A = A} r >>= reg_write rd)
  computed-KeepsPc r rd =
      >>=-KeepsPc (lift r) (reg_write rd) (lift-KeepsPc r) (reg_write-KeepsPc rd)

  pub arith_body-KeepsPc :
      (f : ℕ → ℕ → Result Exception ℕ) (info : RvInstrInfo) → KeepsPc (arith_body {A = A} f info)
  unfolding arith_body
  arith_body-KeepsPc f (info_r rs1 rs2 rd) cpu c v h =
      computed-KeepsPc (f (reg cpu rs1) (reg cpu rs2)) rd cpu c v h
  arith_body-KeepsPc f (info_i rs1 rd imm) cpu c v h =
      computed-KeepsPc (f (reg cpu rs1) imm) rd cpu c v h
  arith_body-KeepsPc f info cpu c v h = absurd (ground (arith, h))

  pub load_body-KeepsPc :
      (t : Width) (extend : Bool) (info : RvInstrInfo) → KeepsPc (load_body {A = A} t extend info)
  unfolding load_body
  load_body-KeepsPc t extend (info_i rs1 rd imm) cpu c v h =
      handle_load-KeepsPc t extend rd (wrapping_add_as_signed (reg cpu rs1) imm) cpu c v h
  load_body-KeepsPc t extend info cpu c v h = absurd (ground (arith, h))

  pub store_body-KeepsPc : (t : Width) (info : RvInstrInfo) → KeepsPc (store_body {A = A} t info)
  unfolding store_body
  store_body-KeepsPc t (info_s rs1 rs2 imm) cpu c v h =
      cpu_write-KeepsPc t (wrapping_add_as_signed (reg cpu rs1) imm) (truncate_to t (reg cpu rs2))
        cpu c v h
  store_body-KeepsPc t info cpu c v h = absurd (ground (arith, h))
