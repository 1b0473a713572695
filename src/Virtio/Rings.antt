-- ===== src/Virtio/Rings.antt =====
-- The available and the used ring of src/device/virtio/virtio_queue.rs as queues.
use mathlib.Core.Path.{ap₂}
use native.Mathlib.Nat.{
  mod-mod_of_dvd, dvd_iff_mod-eq-zero, mod-add-mod, div-add-mod, mul-le-mul_left, mul-suc,
}
use here.Base.{
  Bool-cases, List, Option, [], ap, arith, inl, inr, leb, none, refl, some, subst, suc, sym, update,
  update_ne, update_self, zero, ℕ, ◌%◌, ◌++◌, ◌+◌, ◌/◌, ◌<◌, ◌^◌, ◌∙◌, ◌∷◌, ◌≡◌, ◌≢◌,
}
use here.Virtio.{VirtQueueAvail, VirtQueueUsed, VirtQueueUsedElem, insert_used, try_get_desc_idx}

-- The entries of a ring from `last` to `last + count`, in the order of their indices.
abbrev pub entries {ℓ} : {T : Type ℓ} → (ℕ → T) → ℕ → ℕ → ℕ → List T
entries ring queue_num last zero = []
entries ring queue_num last (suc count) =
    ring (last % queue_num) ∷ entries ring queue_num (last + 1) count

-- A ring whose published index is `head`, and whose reader is at `last`, with `count` entries between.
abbrev pub IsPending : ℕ → ℕ → ℕ → Type 0
IsPending head last count = (last < 2 ^ 16) × (head ≡ (last + count) % 2 ^ 16)

wrapped : (q x : ℕ) → 2 ^ 16 % q ≡ 0 → x % 2 ^ 16 % q ≡ x % q
wrapped q x h = mod-mod_of_dvd q x ((dvd_iff_mod-eq-zero q).1 h)

next_mod : (q a b : ℕ) → a % q ≡ b % q → (a + 1) % q ≡ (b + 1) % q
next_mod q a b h = sym (mod-add-mod a q 1) ∙ ap (λ (x : ℕ). (x + 1) % q) h ∙ mod-add-mod b q 1

module _ {ℓ} {T : Type ℓ} where
  entries_mod :
      (ring : ℕ → T) (q a b count : ℕ)
      → a % q ≡ b % q
      → entries ring q a count ≡ entries ring q b count
  entries_mod ring q a b zero h = refl
  entries_mod ring q a b (suc count) h =
      ap₂ (λ (i : ℕ) rest. ring i ∷ rest) h
        (entries_mod ring q (a + 1) (b + 1) count (next_mod q a b h))

  -- A write to a slot that holds none of the entries.
  entries_other :
      (ring : ℕ → T) (q last count k : ℕ) (v : T)
      → ((i : ℕ) → i < count → (last + i) % q ≢ k)
      → entries (update ring k v) q last count ≡ entries ring q last count
  entries_other ring q last zero k v h = refl
  entries_other ring q last (suc count) k v h =
      ap₂ (λ x rest. x ∷ rest)
        (update_ne ring k v (last % q)
          (subst (λ (n : ℕ). n % q ≢ k) (omega arith) (h 0 (omega arith))))
        (entries_other ring q (last + 1) count k v
          (λ i lt. subst (λ (n : ℕ). n % q ≢ k) (omega arith) (h (suc i) (omega arith))))

  entries_snoc :
      (ring : ℕ → T) (q last count : ℕ)
      → entries ring q last (suc count)
        ≡ entries ring q last count ++ (ring ((last + count) % q) ∷ [])
  entries_snoc ring q last zero = ap (λ (i : ℕ). ring (i % q) ∷ []) (omega arith)
  entries_snoc ring q last (suc count) =
      ap (λ rest. ring (last % q) ∷ rest)
        (entries_snoc ring q (last + 1) count
          ∙ ap (λ (i : ℕ). entries ring q (last + 1) count ++ (ring (i % q) ∷ [])) (omega arith))

-- Entries less than a lap apart have different slots.
apart : (q x i count : ℕ) → i < count → count < q → (x + i) % q ≢ (x + count) % q
apart q x i count lt le h =
    let a = (x + i) / q in
    let b = (x + count) / q in
    elim (Bool-cases (leb b a)) [
      | inl e ↦ omega (
        arith,
        div-add-mod (x + i) q,
        div-add-mod (x + count) q,
        mul-le-mul_left {m = b} {n = a} q (ground (arith, e)),
      )
      | inr e ↦ omega (
        arith,
        div-add-mod (x + i) q,
        div-add-mod (x + count) q,
        mul-le-mul_left {m = suc a} {n = b} q (ground (arith, e)),
        mul-suc q a,
      )
    ]

-- What the driver has published in the available ring and the device has not taken, or the other way
-- around for the used ring.
abbrev pub avail_pending : VirtQueueAvail → ℕ → ℕ → ℕ → List ℕ
avail_pending avail queue_num last count = entries avail.avail_ring queue_num last count

abbrev pub used_pending : VirtQueueUsed → ℕ → ℕ → ℕ → List VirtQueueUsedElem
used_pending used queue_num last count = entries used.used_ring queue_num last count

-- The first entry of a queue, and what is left of it.
abbrev pub IsTaken : VirtQueueAvail → ℕ → ℕ → ℕ → Option ℕ × ℕ → Type 0
IsTaken avail queue_num last zero (r, last') = (r ≡ none) × (last' ≡ last)
IsTaken avail queue_num last (suc count) (r, last') =
    (d : ℕ) × (r ≡ some d)
    × (avail_pending avail queue_num last (suc count)
        ≡ d ∷ avail_pending avail queue_num last' count)
    × IsPending avail.avail_idx last' count

-- For a queue size that divides 2^16, the device takes the entries of the available ring in the order
-- in which they were published, one at a time and across the wrap of the 16-bit index; it takes
-- nothing exactly when nothing is left.
pub try_get_desc_idx-IsTaken :
    (avail : VirtQueueAvail) (queue_num last count : ℕ)
    → 0 < queue_num
    → 2 ^ 16 % queue_num ≡ 0
    → count < 2 ^ 16
    → IsPending avail.avail_idx last count
    → (t : Option ℕ × ℕ) × (try_get_desc_idx avail queue_num last ≡ some t)
      × IsTaken avail queue_num last count t
unfolding try_get_desc_idx
try_get_desc_idx-IsTaken avail q last zero hq hd hc (lt, e) =
    ((none, last), ground (arith, e), (refl, refl))
try_get_desc_idx-IsTaken avail q last (suc count) hq hd hc (lt, e) = (
  (some (avail.avail_ring (last % q)), (last + 1) % 2 ^ 16),
  ground (arith, e),
  (
    avail.avail_ring (last % q),
    refl,
    ap (λ rest. avail.avail_ring (last % q) ∷ rest)
        (sym (
          entries_mod avail.avail_ring q ((last + 1) % 2 ^ 16) (last + 1) count
            (wrapped q (last + 1) hd))),
    (omega arith, omega (arith, e)),
  ),
)

-- For a queue size that divides 2^16, publishing an element in a used ring that is not full puts it
-- behind the elements that the driver has not read yet, and leaves those as they are.
pub insert_used-appends :
    (used : VirtQueueUsed) (queue_num last count : ℕ) (elem : VirtQueueUsedElem)
    → 0 < queue_num
    → 2 ^ 16 % queue_num ≡ 0
    → count < queue_num
    → IsPending used.used_idx last count
    → (used' : VirtQueueUsed) × (insert_used used queue_num elem ≡ some used')
      × (used_pending used' queue_num last (suc count)
          ≡ used_pending used queue_num last count ++ (elem ∷ []))
      × IsPending used'.used_idx last (suc count)
unfolding insert_used
insert_used-appends used q last count elem hq hd hc (lt, e) =
    let slot = used.used_idx % q in
    let same : (last + count) % q ≡ slot =
      sym (wrapped q (last + count) hd) ∙ ap (λ (x : ℕ). x % q) (sym e) in
    let ring' = update used.used_ring slot elem in
    (
      record used { used_idx = (used.used_idx + 1) % 2 ^ 16; used_ring = ring' },
      ground (arith, hq),
      entries_snoc ring' q last count
          ∙ ap₂ (λ xs x. xs ++ (x ∷ []))
              (entries_other used.used_ring q last count slot elem
                (λ i le. subst (λ (k : ℕ). (last + i) % q ≢ k) same (apart q last i count le hc)))
              (ap ring' same ∙ update_self used.used_ring slot elem),
      (lt, omega (arith, e)),
    )
