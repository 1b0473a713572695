-- ===== src/Plic/Layout/Arbitration.antt =====
-- `find_pending_interrupt`: which source is claimed, or notified.
use here.Base.{
  Bool, Bool-cases, List, Option, [], arith, false, if◌then◌else◌, inl, inr, leb, ltb, none, not,
  some, true, ℕ, ◌&&◌, ◌<◌, ◌==◌, ◌∷◌, ◌≡◌,
}
use here.Plic.BitReg.{get_bit}
use here.Plic.BitSet.{BitSet}
use here.Plic.Layout.{PlicLayout, find_in_order, find_pending_interrupt, is_enabled}
use here.Plic.Layout.Invariant.{IsValid}
use here.Plic.Layout.Order.{Before, BeforeAll, BeforeAll-count, IsOrdered, count}

module _ (B : BitSet) (l : PlicLayout B) (context : ℕ) (apply_threshold : Bool) where
  open B use {contains}

  -- Pending and enabled for the context, not claimed, of a priority above 0 and, where the
  -- threshold counts, above the threshold.
  abbrev pub eligible : ℕ → Bool
  eligible id =
      not (id == 0)
      && ltb 0 (l.priority id)
      && not (apply_threshold && leb (l.priority id) (l.contexts context).priority_threshold)
      && not (contains l.interrupt_sources_busy id)
      && is_enabled B l context id
      && get_bit l.pending id

  -- What the search returns: an eligible source that comes before every other eligible one, or
  -- nothing where no source is eligible.
  abbrev pub IsWinner : List ℕ → Option ℕ → Type 0
  IsWinner ids none = (j : ℕ) → 0 < count j ids → eligible j ≡ false
  IsWinner ids (some id) =
      (eligible id ≡ true)
      × ((j : ℕ) → 0 < count j ids → eligible j ≡ true → Before l.priority id j)

  -- One round of the loop: take the source, skip it, or stop at a priority of 0.
  find_in_order-cons :
      (id : ℕ) (ids : List ℕ)
      → find_in_order B l context apply_threshold (id ∷ ids) ≡ (
          if eligible id
          then some id
          else if not (id == 0) && l.priority id == 0
          then none
          else find_in_order B l context apply_threshold ids)
  unfolding find_in_order
  find_in_order-cons id ids = ground arith

  IsWinner-skip :
      (id : ℕ) (ids : List ℕ) (r : Option ℕ)
      → eligible id ≡ false
      → IsWinner ids r
      → IsWinner (id ∷ ids) r
  unfolding count
  IsWinner-skip id ids none h w = λ j k. ground (arith, w j)
  IsWinner-skip id ids (some i) h w = (w.0, λ j k e. ground (arith, w.1 j))

  IsWinner-take :
      (id : ℕ) (ids : List ℕ)
      → eligible id ≡ true
      → BeforeAll l.priority id ids
      → IsWinner (id ∷ ids) (some id)
  unfolding count
  IsWinner-take id ids h b = (h, λ j k e. ground (arith, BeforeAll-count l.priority id j ids b))

  IsWinner-stop :
      (id : ℕ) (ids : List ℕ)
      → l.priority id ≡ 0
      → BeforeAll l.priority id ids
      → IsWinner (id ∷ ids) none
  unfolding count
  IsWinner-stop id ids h b = λ j k. ground (arith, BeforeAll-count l.priority id j ids b)

  find_in_order-IsWinner :
      (ids : List ℕ)
      → IsOrdered l.priority ids
      → IsWinner ids (find_in_order B l context apply_threshold ids)
  unfolding find_in_order
  find_in_order-IsWinner [] h = unfold count in λ j k. absurd (omega arith)
  find_in_order-IsWinner (id ∷ ids) h =
      rw (find_in_order-cons id ids) (elim (Bool-cases (eligible id)) [
        | inl taken ↦ rw taken (IsWinner-take id ids taken h.0)
        | inr skipped ↦ rw skipped (elim (Bool-cases (not (id == 0) && l.priority id == 0)) [
          | inl stop ↦ rw stop (IsWinner-stop id ids (ground arith) h.0)
          | inr go ↦ rw go (
              IsWinner-skip id ids (find_in_order B l context apply_threshold ids) skipped
                (find_in_order-IsWinner ids h.1))
        ])
      ])

module _ (B : BitSet) where
  -- The outcome of the arbitration over all 64 sources.
  abbrev pub IsArbitrated : PlicLayout B → ℕ → Bool → Option ℕ → Type 0
  IsArbitrated l context t none = (j : ℕ) → j < 64 → eligible B l context t j ≡ false
  IsArbitrated l context t (some id) =
      (eligible B l context t id ≡ true)
      × ((j : ℕ) → j < 64 → eligible B l context t j ≡ true → Before l.priority id j)

  -- In a valid layout the search returns the source of the highest priority, and among those the
  -- lowest id, of all that are pending, enabled, unclaimed, above priority 0 and, for a
  -- notification, above the threshold; it returns nothing only where there is none.
  pub find_pending_interrupt-IsArbitrated :
      (l : PlicLayout B) (context : ℕ) (t : Bool)
      → IsValid B l
      → IsArbitrated l context t (find_pending_interrupt B l context t)
  unfolding find_pending_interrupt
  find_pending_interrupt-IsArbitrated l context t v =
      over_all (find_in_order B l context t l.priority_order)
        (find_in_order-IsWinner B l context t l.priority_order v.ordered)
    where
      over_all :
          (r : Option ℕ) → IsWinner B l context t l.priority_order r → IsArbitrated l context t r
      over_all none w = λ j lt. w j (ground (arith, v.complete j))
      over_all (some id) w = (w.0, λ j lt. w.1 j (ground (arith, v.complete j)))
