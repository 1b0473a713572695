-- ===== src/Plic/Layout/Order.antt =====
-- `sort_priority_order`: the order holds every source once, by falling priority and rising id.
use here.Base.{
  List, [], arith, false, if◌then◌else◌, inl, inr, leb, ltb, refl, suc, true, zero, ℕ, ◌&&◌, ◌+◌,
  ◌<◌, ◌==◌, ◌∷◌, ◌≡◌, ◌≤◌, ◌⊎◌,
}
use here.Plic.Layout.{ids_from, insert_sorted, priority_before, sort_by_priority}

abbrev pub Before : (ℕ → ℕ) → ℕ → ℕ → Type 0
Before priority a b = (priority b < priority a) ⊎ ((priority a ≡ priority b) × (a ≤ b))

abbrev pub BeforeAll : (ℕ → ℕ) → ℕ → List ℕ → Type 0
BeforeAll priority a [] = Unit
BeforeAll priority a (b ∷ bs) = Before priority a b × BeforeAll priority a bs

-- Each element comes before all that follow it.
abbrev pub IsOrdered : (ℕ → ℕ) → List ℕ → Type 0
IsOrdered priority [] = Unit
IsOrdered priority (a ∷ rest) = BeforeAll priority a rest × IsOrdered priority rest

unfoldable pub count : ℕ → List ℕ → ℕ
count x [] = 0
count x (a ∷ rest) = if x == a then count x rest + 1 else count x rest

module _ (priority : ℕ → ℕ) where
  Before-trans : (a b c : ℕ) → Before priority a b → Before priority b c → Before priority a c
  Before-trans a b c h k = ground arith

  BeforeAll-trans :
      (a b : ℕ) (l : List ℕ) → Before priority a b → BeforeAll priority b l → BeforeAll priority a l
  BeforeAll-trans a b [] h k = tt
  BeforeAll-trans a b (c ∷ l) h k = (Before-trans a b c h k.0, BeforeAll-trans a b l h k.1)

  pub BeforeAll-count :
      (a j : ℕ) (l : List ℕ) → BeforeAll priority a l → 0 < count j l → Before priority a j
  unfolding count
  BeforeAll-count a j [] h k = absurd (omega arith)
  BeforeAll-count a j (b ∷ l) h k = ground (arith, BeforeAll-count a j l h.1)

  priority_before-cases :
      (a b : ℕ)
      → ((priority_before priority a b ≡ true) × Before priority a b)
        ⊎ ((priority_before priority a b ≡ false) × Before priority b a)
  priority_before-cases a b = ground arith

  BeforeAll-insert_sorted :
      (b a : ℕ) (l : List ℕ)
      → Before priority b a
      → BeforeAll priority b l
      → BeforeAll priority b (insert_sorted priority a l)
  unfolding insert_sorted
  BeforeAll-insert_sorted b a [] h k = (h, tt)
  BeforeAll-insert_sorted b a (c ∷ l) h k = elim (priority_before-cases a c) [
    | inl first ↦ rw first.0 (h, k)
    | inr later ↦ rw later.0 (k.0, BeforeAll-insert_sorted b a l h k.1)
  ]

  insert_sorted-IsOrdered :
      (a : ℕ) (l : List ℕ) → IsOrdered priority l → IsOrdered priority (insert_sorted priority a l)
  unfolding insert_sorted
  insert_sorted-IsOrdered a [] h = (tt, tt)
  insert_sorted-IsOrdered a (b ∷ l) h = elim (priority_before-cases a b) [
    | inl first ↦ rw first.0 ((first.1, BeforeAll-trans a b l first.1 h.0), h)
    | inr later ↦
        rw later.0 (BeforeAll-insert_sorted b a l later.1 h.0, insert_sorted-IsOrdered a l h.1)
  ]

  pub sort_by_priority-IsOrdered : (l : List ℕ) → IsOrdered priority (sort_by_priority priority l)
  unfolding sort_by_priority
  sort_by_priority-IsOrdered [] = tt
  sort_by_priority-IsOrdered (a ∷ l) =
      insert_sorted-IsOrdered a (sort_by_priority priority l) (sort_by_priority-IsOrdered l)

  count-insert_sorted :
      (x a : ℕ) (l : List ℕ)
      → count x (insert_sorted priority a l) ≡ (if x == a then count x l + 1 else count x l)
  unfolding count insert_sorted
  count-insert_sorted x a [] = refl
  count-insert_sorted x a (b ∷ l) = ground (arith, count-insert_sorted x a l)

  pub count-sort_by_priority :
      (x : ℕ) (l : List ℕ) → count x (sort_by_priority priority l) ≡ count x l
  unfolding count sort_by_priority
  count-sort_by_priority x [] = refl
  count-sort_by_priority x (a ∷ l) =
      ground
        (arith, count-insert_sorted x a (sort_by_priority priority l), count-sort_by_priority x l)

pub count-ids_from :
    (x first n : ℕ)
    → count x (ids_from first n) ≡ (if leb first x && ltb x (first + n) then 1 else 0)
unfolding count ids_from
count-ids_from x first zero = ground arith
count-ids_from x first (suc n) = ground (arith, count-ids_from x (first + 1) n)

ids_from-BeforeAll : (a first n : ℕ) → a ≤ first → BeforeAll (λ _. 0) a (ids_from first n)
unfolding ids_from
ids_from-BeforeAll a first zero h = tt
ids_from-BeforeAll a first (suc n) h =
    (inr (refl, h), ids_from-BeforeAll a (first + 1) n (omega arith))

pub ids_from-IsOrdered : (first n : ℕ) → IsOrdered (λ _. 0) (ids_from first n)
unfolding ids_from
ids_from-IsOrdered first zero = tt
ids_from-IsOrdered first (suc n) =
    (ids_from-BeforeAll first (first + 1) n (omega arith), ids_from-IsOrdered (first + 1) n)
