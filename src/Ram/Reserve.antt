-- ===== src/Ram/Reserve.antt =====
-- LR and SC of src/ram.rs: what a store-conditional that succeeds, or fails, says about the
-- writes since the load-reserved.
use here.Base.{
  Bool, Bool-cases, List, Option, [], ap, arith, if◌then◌else◌, inl, inr, leb, none, ok, refl, some,
  sym, true, ℕ, ◌%◌, ◌&&◌, ◌+◌, ◌/◌, ◌<◌, ◌∙◌, ◌∷◌, ◌≡◌, ◌≢◌, ◌≤◌, ◌⊎◌,
}
use here.Word.{Width, byte, double, half, ram_size, size_of, word}
use here.Ram.{
  Ram, Reservation, load_reserved, read, reservation_new, reserves, store_bytes, store_conditional,
  write,
}
use here.Ram.Access.{IsHosted, outcome, read-eq, write-eq}
use here.Ram.Bytes.{load_bytes_ext, store_bytes-outside}

pub record Store : Type 0 where
  pub width : Width
  pub addr : ℕ
  pub value : ℕ

-- Plain stores, one after the other, whether or not each succeeds.
pub run : List Store → Ram → Ram
run [] ram = ram
run (s ∷ ss) ram = run ss (write s.width ram s.addr s.value).1

-- An aligned access lies within one reservation set.
aligned_in_set :
    (t : Width) (a i : ℕ) → a % size_of t ≡ 0 → i / 8 ≢ a / 8 → (i < a) ⊎ (a + size_of t ≤ i)
aligned_in_set byte a i h ne = ground arith
aligned_in_set half a i h ne = ground arith
aligned_in_set word a i h ne = ground arith
aligned_in_set double a i h ne = ground arith

reserved-write :
    (t : Width) (ram : Ram) (a v : ℕ)
    → (write t ram a v).1.reserved
      ≡ (if leb (a + size_of t) ram_size && reserves ram.reserved a then none else ram.reserved)
unfolding write
reserved-write t ram a v = ground arith

data-write :
    (t : Width) (ram : Ram) (a v i : ℕ)
    → IsHosted ram
    → i / 8 ≢ a / 8
    → (write t ram a v).1.data_at i ≡ ram.data_at i
data-write t ram a v i h ne =
    ap (λ (f : ℕ → ℕ). f i) (write-eq t ram a v h).1
    ∙ ground (
      arith,
      λ (p : a % size_of t ≡ 0).
          store_bytes-outside (size_of t) ram.data_at a v i (aligned_in_set t a i p ne),
    )

out_of_bounds :
    (t : Width) (ram : Ram) (a v : ℕ)
    → IsHosted ram
    → ram_size < a + size_of t
    → (write t ram a v).1.data_at ≡ ram.data_at
out_of_bounds t ram a v h lt = ground (arith, write-eq t ram a v h)

-- A reservation that is there after a write was there before it, and the write left alone every
-- byte of its set.
pub write-keeps_set :
    (t : Width) (ram : Ram) (a v : ℕ) (r : Reservation)
    → IsHosted ram
    → (write t ram a v).1.reserved ≡ some r
    → (ram.reserved ≡ some r)
      × ((i : ℕ) → i / 8 ≡ r.reservation_set_id → (write t ram a v).1.data_at i ≡ ram.data_at i)
write-keeps_set t ram a v r h e = (
  ground (arith, reserved-write t ram a v),
  λ i in_set. elim (Bool-cases (leb (a + size_of t) ram_size)) [
    | inl fits ↦ data-write t ram a v i h (ground (arith, reserved-write t ram a v))
    | inr out ↦ ap (λ (f : ℕ → ℕ). f i) (out_of_bounds t ram a v h (ground arith))
  ],
)

run-keeps_set :
    (ss : List Store) (ram : Ram) (r : Reservation)
    → IsHosted ram
    → (run ss ram).reserved ≡ some r
    → (ram.reserved ≡ some r)
      × ((i : ℕ) → i / 8 ≡ r.reservation_set_id → (run ss ram).data_at i ≡ ram.data_at i)
      × IsHosted (run ss ram)
unfolding run
run-keeps_set [] ram r h e = (e, λ i p. refl, h)
run-keeps_set (s ∷ ss) ram r h e =
    let after : Ram = (write s.width ram s.addr s.value).1 in
    let h' : IsHosted after = ap (λ (b : ℕ). b % 8) (write-eq s.width ram s.addr s.value h).2 ∙ h in
    let later = run-keeps_set ss after r h' e in
    let first = write-keeps_set s.width ram s.addr s.value r h later.0 in
    (first.0, λ i p. later.1 i p ∙ first.1 i p, later.2)

size-pos : (t : Width) → 0 < size_of t
size-pos byte = omega arith
size-pos half = omega arith
size-pos word = omega arith
size-pos double = omega arith

reserves-some :
    (o : Option Reservation) (b : ℕ)
    → reserves o b ≡ true
    → (r : Reservation) × (o ≡ some r) × (r.reservation_set_id ≡ b / 8)
reserves-some none b h = cc
reserves-some (some r) b h = (r, refl, ground arith)

success-reserves :
    (debug : Bool) (u : Width) (ram : Ram) (b v : ℕ)
    → (store_conditional debug u ram b v).0 ≡ ok true
    → reserves ram.reserved b ≡ true
unfolding store_conditional
success-reserves debug u ram b v h = ground arith

load_reserved-ok :
    (t : Width) (ram : Ram) (a d : ℕ)
    → (load_reserved t ram a).0 ≡ ok d
    → ((load_reserved t ram a).1 ≡ record ram { reserved = some (reservation_new a) })
      × (read t ram a ≡ ok d)
unfolding load_reserved
load_reserved-ok t ram a d h = ground arith

-- A read that succeeds is aligned, and sees only its own set.
read_same_set :
    (t : Width) (ram ram' : Ram) (a d : ℕ)
    → IsHosted ram
    → IsHosted ram'
    → ((i : ℕ) → i / 8 ≡ a / 8 → ram'.data_at i ≡ ram.data_at i)
    → read t ram a ≡ ok d
    → read t ram' a ≡ ok d
read_same_set t ram ram' a d h h' same loaded = ground (
  arith,
  read-eq t ram a h,
  read-eq t ram' a h',
  λ (p : a % size_of t ≡ 0).
      load_bytes_ext (size_of t) ram'.data_at ram.data_at a (λ i q r. same i (in_set t i p q r)),
)
  where
    in_set : (t : Width) (i : ℕ) → a % size_of t ≡ 0 → a ≤ i → i < a + size_of t → i / 8 ≡ a / 8
    in_set byte i p q r = omega arith
    in_set half i p q r = omega arith
    in_set word i p q r = omega arith
    in_set double i p q r = omega arith

-- Where a store-conditional succeeds after a load-reserved and any plain stores, it is to the set
-- that was reserved, and the value that was loaded is still in memory.
pub store_conditional-atomic :
    (debug : Bool) (t u : Width) (ss : List Store) (ram : Ram) (a b v d : ℕ)
    → IsHosted ram
    → (load_reserved t ram a).0 ≡ ok d
    → (store_conditional debug u (run ss (load_reserved t ram a).1) b v).0 ≡ ok true
    → (b / 8 ≡ a / 8) × (read t (run ss (load_reserved t ram a).1) a ≡ ok d)
store_conditional-atomic debug t u ss ram a b v d h loaded success =
    let locked = load_reserved-ok t ram a d loaded in
    let lr : Ram = record ram { reserved = some (reservation_new a) } in
    let success' : (store_conditional debug u (run ss lr) b v).0 ≡ ok true =
      rw locked.0 at success in
    let (r, held, set) =
      reserves-some (run ss lr).reserved b (success-reserves debug u (run ss lr) b v success') in
    let kept = run-keeps_set ss lr r h held in
    let r_id : r.reservation_set_id ≡ a / 8 = ground (arith, kept.0) in
    rw locked.0 (
      sym set ∙ r_id,
      read_same_set t ram (run ss lr) a d h kept.2 (λ i p. kept.1 i (p ∙ sym r_id)) locked.1,
    )

-- A store-conditional that returns a Boolean has dropped the reservation; it has written the
-- value if that is `true`, and nothing if it is `false`.
pub store_conditional-ok :
    (debug : Bool) (t : Width) (ram : Ram) (a v : ℕ) (done : Bool)
    → IsHosted ram
    → (store_conditional debug t ram a v).0 ≡ ok done
    → ((store_conditional debug t ram a v).1.reserved ≡ none)
      × ((store_conditional debug t ram a v).1.data_at
          ≡ (if done then store_bytes (size_of t) ram.data_at a v else ram.data_at))
unfolding store_conditional outcome
store_conditional-ok debug t ram a v done h e =
    ground (arith, write-eq t ram a v h, reserved-write t ram a v)

-- No store of the list is to the given set.
abbrev pub Elsewhere : ℕ → List Store → Type 0
Elsewhere set [] = Unit
Elsewhere set (s ∷ ss) = (s.addr / 8 ≢ set) × Elsewhere set ss

IsHosted-run : (ss : List Store) (ram : Ram) → IsHosted ram → IsHosted (run ss ram)
unfolding run
IsHosted-run [] ram h = h
IsHosted-run (s ∷ ss) ram h =
    IsHosted-run ss (write s.width ram s.addr s.value).1
      (ap (λ (b : ℕ). b % 8) (write-eq s.width ram s.addr s.value h).2 ∙ h)

run-Elsewhere :
    (ss : List Store) (ram : Ram) (r : Reservation)
    → Elsewhere r.reservation_set_id ss
    → ram.reserved ≡ some r
    → (run ss ram).reserved ≡ some r
unfolding run
run-Elsewhere [] ram r e h = h
run-Elsewhere (s ∷ ss) ram r e h =
    run-Elsewhere ss (write s.width ram s.addr s.value).1 r e.1
      (ground (arith, reserved-write s.width ram s.addr s.value, e.0))

reserved_store :
    (debug : Bool) (u : Width) (ram : Ram) (b v : ℕ)
    → IsHosted ram
    → reserves ram.reserved b ≡ true
    → b % size_of u ≡ 0
    → b + size_of u ≤ ram_size
    → (store_conditional debug u ram b v).0 ≡ ok true
unfolding store_conditional outcome
reserved_store debug u ram b v h held aligned fits =
    ground (arith, write-eq u ram b v h, size-pos u)

-- Plain stores to other sets do not disturb the pair: the store-conditional succeeds.
pub store_conditional-succeeds :
    (debug : Bool) (t u : Width) (ss : List Store) (ram : Ram) (a b v d : ℕ)
    → IsHosted ram
    → (load_reserved t ram a).0 ≡ ok d
    → Elsewhere (a / 8) ss
    → b / 8 ≡ a / 8
    → b % size_of u ≡ 0
    → b + size_of u ≤ ram_size
    → (store_conditional debug u (run ss (load_reserved t ram a).1) b v).0 ≡ ok true
store_conditional-succeeds debug t u ss ram a b v d h loaded apart same aligned fits =
    let lr : Ram = record ram { reserved = some (reservation_new a) } in
    let held : (run ss lr).reserved ≡ some (reservation_new a) =
      run-Elsewhere ss lr (reservation_new a) apart refl in
    rw ((load_reserved-ok t ram a d loaded).0) (
      reserved_store debug u (run ss lr) b v (IsHosted-run ss lr h) (ground (arith, held)) aligned
        fits)
