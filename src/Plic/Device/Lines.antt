-- ===== src/Plic/Device/Lines.antt =====
-- The interrupt lines of the contexts follow the arbitration, and are told only changes.
use mathlib.Core.Option.{some-injective}
use here.Base.{
  Bool, List, Option, [], arith, false, if◌then◌else◌, ltb, lt→ltb, none, not, refl, some, subst,
  sym, true, update, update-eq, ℕ, ◌&&◌, ◌<◌, ◌==◌, ◌∷◌, ◌≡◌, ◌≢◌,
}
use here.Word.{Width}
use here.Plic.BitReg.{virt_max_contexts}
use here.Plic.BitSet.{BitSet}
use here.Plic.Device.{
  Plic, is_some, plic_new, read_impl, refresh_all, refresh_context_irq_line, register_device,
  same_level, set_context_irq_line, set_interrupt_level, set_irq_line, sync_peripheral_irq_levels,
  update_context_irq_line, update_context_irq_lines, write_impl,
}
use here.Plic.Device.Steps.{
  Reach, Step, connects, next, reads, registers, samples, start, updates, updates_one, writes,
}
use here.Plic.Layout.{pending_interrupt_to_notify}

abbrev pub Alternates : List Bool → Type 0
Alternates [] = Unit
Alternates (a ∷ []) = Unit
Alternates (a ∷ b ∷ rest) = (a ≡ not b) × Alternates (b ∷ rest)

-- The level that is kept for a context is the one its line was last told, and each level that
-- the line was told differs from the one before.
abbrev pub IsWired : Option (List Bool) → Option Bool → Type 0
IsWired none level = Unit
IsWired (some []) level = level ≡ none
IsWired (some (b ∷ told)) level = (level ≡ some b) × Alternates (b ∷ told)

abbrev pub last_told : Option (List Bool) → Option Bool
last_told none = none
last_told (some []) = none
last_told (some (b ∷ told)) = some b

abbrev tell : Bool → Option (List Bool) → Option (List Bool)
tell b none = none
tell b (some told) = some (b ∷ told)

IsWired-tell :
    (line : Option (List Bool)) (level : Option Bool) (b : Bool)
    → same_level level b ≡ false
    → IsWired line level
    → IsWired (tell b line) (some b)
IsWired-tell none level b h w = tt
IsWired-tell (some []) level b h w = (refl, tt)
IsWired-tell (some (c ∷ told)) none b h w = cc (w.0)
IsWired-tell (some (c ∷ told)) (some d) b h w = (refl, (ground (arith, w.0), w.1))

same_level-eq : (level : Option Bool) (b : Bool) → same_level level b ≡ true → level ≡ some b
same_level-eq none b h = cc
same_level-eq (some true) true h = refl
same_level-eq (some true) false h = cc
same_level-eq (some false) true h = cc
same_level-eq (some false) false h = refl

last_told-eq :
    (line : Option (List Bool)) (level : Option Bool)
    → line ≢ none
    → IsWired line level
    → last_told line ≡ level
last_told-eq none level h w = absurd (h refl)
last_told-eq (some []) level h w = sym w
last_told-eq (some (b ∷ told)) level h w = sym (w.0)

module _ (B : BitSet) where
  abbrev pub AllWired : Plic B → Type 0
  AllWired p = (c : ℕ) → IsWired (p.riscv_irq_line c) (p.riscv_irq_level c)

  line-set_context :
      (p : Plic B) (c : ℕ) (b : Bool) (d : ℕ)
      → ((set_context_irq_line B p c b).riscv_irq_line d ≡ (
          if not (same_level (p.riscv_irq_level c) b) && c == d
          then tell b (p.riscv_irq_line d)
          else p.riscv_irq_line d))
        × ((set_context_irq_line B p c b).riscv_irq_level d ≡ (
            if not (same_level (p.riscv_irq_level c) b) && c == d
            then some b
            else p.riscv_irq_level d))
  unfolding set_context_irq_line
  line-set_context p c b d = ground arith

  set_context_irq_line-AllWired :
      (p : Plic B) (c : ℕ) (b : Bool) → AllWired p → AllWired (set_context_irq_line B p c b)
  set_context_irq_line-AllWired p c b w d =
      rw ((line-set_context p c b d).0, (line-set_context p c b d).1)
        (at (not (same_level (p.riscv_irq_level c) b) && c == d) refl)
    where
      at :
          (t : Bool)
          → (not (same_level (p.riscv_irq_level c) b) && c == d) ≡ t
          → IsWired
              (if t then tell b (p.riscv_irq_line d) else p.riscv_irq_line d)
              (if t then some b else p.riscv_irq_level d)
      at true e = IsWired-tell (p.riscv_irq_line d) (p.riscv_irq_level d) b (ground arith) (w d)
      at false e = w d

  set_context-level :
      (p : Plic B) (c : ℕ) (b : Bool) → (set_context_irq_line B p c b).riscv_irq_level c ≡ some b
  set_context-level p c b =
      ground (arith, (line-set_context p c b c).1, same_level-eq (p.riscv_irq_level c) b)

  set_context-tells :
      (p : Plic B) (c : ℕ) (b : Bool) (told : List Bool)
      → AllWired p
      → p.riscv_irq_line c ≡ some told
      → last_told ((set_context_irq_line B p c b).riscv_irq_line c) ≡ some b
  set_context-tells p c b told w e =
      last_told-eq ((set_context_irq_line B p c b).riscv_irq_line c) (some b)
        (ground (arith, (line-set_context p c b c).0))
        (rw (← set_context-level p c b) (set_context_irq_line-AllWired p c b w c))

  refresh-AllWired : (p : Plic B) (c : ℕ) → AllWired p → AllWired (refresh_context_irq_line B p c).1
  unfolding refresh_context_irq_line
  refresh-AllWired p c w =
      set_context_irq_line-AllWired p c (is_some (pending_interrupt_to_notify B p.layout c)) w

  AllWired-if : (b : Bool) (p q : Plic B) → AllWired p → AllWired q → AllWired (if b then p else q)
  AllWired-if true p q v w = v
  AllWired-if false p q v w = w

  refresh_all-AllWired : (cs : List ℕ) (p : Plic B) → AllWired p → AllWired (refresh_all B cs p)
  unfolding refresh_all
  refresh_all-AllWired [] p w = w
  refresh_all-AllWired (c ∷ cs) p w =
      refresh_all-AllWired cs
        (if ltb c virt_max_contexts then (refresh_context_irq_line B p c).1 else p)
        (AllWired-if (ltb c virt_max_contexts) (refresh_context_irq_line B p c).1 p
          (refresh-AllWired p c w) w)

  -- Accesses leave the lines alone.
  abbrev SameLines : Plic B → Plic B → Type 0
  SameLines p q = (q.riscv_irq_line ≡ p.riscv_irq_line) × (q.riscv_irq_level ≡ p.riscv_irq_level)

  SameLines-read :
      (t : Width) (f : ℕ → Bool) (p : Plic B) (addr : ℕ) → SameLines p (read_impl B t f p addr).1
  unfolding read_impl sync_peripheral_irq_levels
  SameLines-read t f p addr = ground arith

  SameLines-write :
      (t : Width) (f : ℕ → Bool) (p : Plic B) (addr v : ℕ)
      → SameLines p (write_impl B t f p addr v).1
  unfolding write_impl sync_peripheral_irq_levels
  SameLines-write t f p addr v = ground arith

  SameLines-sample :
      (p : Plic B) (id : ℕ) (level : Bool) → SameLines p (set_interrupt_level B p id level)
  unfolding set_interrupt_level
  SameLines-sample p id level = ground arith

  SameLines-register : (p p' : Plic B) (id : ℕ) → register_device B p id ≡ some p' → SameLines p p'
  unfolding register_device
  SameLines-register p p' id e = ground arith

  AllWired-SameLines : (p q : Plic B) → SameLines p q → AllWired p → AllWired q
  AllWired-SameLines p q e w c = rw (e.0, e.1) (w c)

  -- Connecting a line starts it with nothing told.
  fresh-AllWired :
      (p : Plic B) (id : ℕ)
      → AllWired p
      → AllWired (record p {
        riscv_irq_line = update p.riscv_irq_line id (some []);
        riscv_irq_level = update p.riscv_irq_level id none;
      })
  fresh-AllWired p id w c =
      rw (update-eq p.riscv_irq_line id (some []) c, update-eq p.riscv_irq_level id none c)
        (at (id == c))
    where
      at :
          (t : Bool)
          → IsWired
              (if t then some [] else p.riscv_irq_line c)
              (if t then none else p.riscv_irq_level c)
      at true = refl
      at false = w c

  AllWired-guarded :
      (b : Bool) (q p' : Plic B) → (if b then some q else none) ≡ some p' → AllWired q → AllWired p'
  AllWired-guarded true q p' e w = subst AllWired (some-injective q p' e) w
  AllWired-guarded false q p' e w = cc

  AllWired-if_pair :
      (b : Bool) (x y : Option ℕ × Plic B)
      → AllWired x.1
      → AllWired y.1
      → AllWired (if b then x else y).1
  AllWired-if_pair true x y g h = g
  AllWired-if_pair false x y g h = h

  Step-AllWired : {p p' : Plic B} → Step B p p' → AllWired p → AllWired p'
  Step-AllWired (reads p t f addr) w =
      AllWired-SameLines p (read_impl B t f p addr).1 (SameLines-read t f p addr) w
  Step-AllWired (writes p t f addr v) w =
      AllWired-SameLines p (write_impl B t f p addr v).1 (SameLines-write t f p addr v) w
  Step-AllWired (samples p id level) w =
      AllWired-SameLines p (set_interrupt_level B p id level) (SameLines-sample p id level) w
  Step-AllWired (updates p f contexts) w =
      unfold update_context_irq_lines sync_peripheral_irq_levels in
      refresh_all-AllWired contexts (sync_peripheral_irq_levels B f p) w
  Step-AllWired (updates_one p f c) w =
      unfold update_context_irq_line sync_peripheral_irq_levels in
      AllWired-if_pair (not (ltb c virt_max_contexts)) (none, p)
        (refresh_context_irq_line B (sync_peripheral_irq_levels B f p) c) w
        (refresh-AllWired (sync_peripheral_irq_levels B f p) c w)
  Step-AllWired (registers p p' id e) w = AllWired-SameLines p p' (SameLines-register p p' id e) w
  Step-AllWired (connects p p' id e) w =
      let fresh : Plic B = record p {
        riscv_irq_line = update p.riscv_irq_line id (some []);
        riscv_irq_level = update p.riscv_irq_level id none;
      } in
      AllWired-guarded (ltb id virt_max_contexts) (refresh_context_irq_line B fresh id).1 p'
        (unfold set_irq_line in e) (refresh-AllWired fresh id (fresh-AllWired p id w))

  -- In every state that the device can reach, each connected line was told each change of its
  -- level once, and the level that is kept is the last one told.
  pub Reach-AllWired : {p : Plic B} → Reach B p → AllWired p
  Reach-AllWired start = unfold plic_new in λ c. tt
  Reach-AllWired (next r s) = Step-AllWired s (Reach-AllWired r)

  -- An update of a context whose line is connected leaves the line told whether an interrupt is
  -- pending above the context's threshold, as sampled in the same update.
  pub update_context_irq_line-tells :
      {p : Plic B}
      → Reach B p
      → (f : ℕ → Bool) (c : ℕ) (told : List Bool) → c < 16
      → p.riscv_irq_line c ≡ some told
      → last_told ((update_context_irq_line B f p c).1.riscv_irq_line c)
        ≡ some (is_some (pending_interrupt_to_notify B (sync_peripheral_irq_levels B f p).layout c))
  unfolding update_context_irq_line sync_peripheral_irq_levels
  update_context_irq_line-tells {p} r f c told h e =
      let synced = sync_peripheral_irq_levels B f p in
      rw (lt→ltb c 16 h) (
        set_context-tells synced c (is_some (pending_interrupt_to_notify B synced.layout c)) told
          (Reach-AllWired r) e)
