-- ===== src/Mmio/Search.antt =====
-- The search of the device map finds the item that holds an address.
use mathlib.Core.Path.{Path}
use here.Base.{
  Bool-cases, List, Option, Option-cases, Result, [], ap, arith, err, false, get_elem?, inl, inr,
  ltb, lt→ltb, none, ok, refl, some, suc, sym, true, zero, ℕ, ◌+◌, ◌<◌, ◌∙◌, ◌∷◌, ◌≡◌, ◌≤◌, ◌⊎◌,
}
use here.Mmio.{MemoryMapItem, binary_search, bump, find_item, item_of}

-- The items are in order and apart, and none is empty.
abbrev pub IsApart : List MemoryMapItem → Type 0
IsApart [] = Unit {0}
IsApart (x ∷ xs) =
    (0 < x.size)
    × ((k : ℕ) (y : MemoryMapItem) → get_elem? xs k ≡ some y → x.start_at + x.size ≤ y.start_at)
    × IsApart xs

abbrev or_item : Option MemoryMapItem → MemoryMapItem → Option MemoryMapItem
or_item none y = some y
or_item (some z) y = some z

-- An index that the search gives is in range.
InRange : List MemoryMapItem → Result ℕ ℕ → Type 0
InRange ys r = (r ≡ err 0) ⊎ ((z : MemoryMapItem) × (item_of ys r ≡ some z))

after :
    (y : MemoryMapItem) (ys : List MemoryMapItem) (r : Result ℕ ℕ)
    → InRange ys r
    → item_of (y ∷ ys) (bump r) ≡ or_item (item_of ys r) y
unfolding InRange
after y ys (err zero) h = refl
after y ys (err (suc i)) (inl e) = absurd (ground (arith, e))
after y ys (err (suc i)) (inr (z, e)) = simp e
after y ys (ok i) (inl e) = absurd (ground (arith, e))
after y ys (ok i) (inr (z, e)) = simp e

some_or :
    (o : Option MemoryMapItem) (y : MemoryMapItem) → (z : MemoryMapItem) × (or_item o y ≡ some z)
some_or none y = (y, refl)
some_or (some z) y = (z, refl)

module _ (y : MemoryMapItem) (ys : List MemoryMapItem) (p : ℕ) where
  search_before : ltb p y.start_at ≡ true → binary_search (y ∷ ys) p ≡ err 0
  unfolding binary_search
  search_before lt = ground (arith, lt)

  search_after : ltb y.start_at p ≡ true → binary_search (y ∷ ys) p ≡ bump (binary_search ys p)
  unfolding binary_search
  search_after gt = ground (arith, gt)

  search_here :
      ltb p y.start_at ≡ false → ltb y.start_at p ≡ false → binary_search (y ∷ ys) p ≡ ok 0
  unfolding binary_search
  search_here ge le = ground (arith, ge, le)

search_empty : (p : ℕ) → binary_search [] p ≡ err 0
unfolding binary_search
search_empty p = refl

in_range : (ys : List MemoryMapItem) (p : ℕ) → InRange ys (binary_search ys p)
unfolding InRange
in_range [] p = inl (search_empty p)
in_range (y ∷ ys) p = elim (Bool-cases (ltb p y.start_at)) [
  | inl lt ↦ inl (search_before y ys p lt)
  | inr ge ↦ elim (Bool-cases (ltb y.start_at p)) [
    | inl gt ↦
        (let (z, e) = some_or (item_of ys (binary_search ys p)) y in
          inr (
            z,
            ap (item_of (y ∷ ys)) (search_after y ys p gt)
                ∙ after y ys (binary_search ys p) (in_range ys p)
                ∙ e,
          ))
    | inr le ↦ inr (y, ap (item_of (y ∷ ys)) (search_here y ys p ge le))
  ]
]

module _ (y : MemoryMapItem) (ys : List MemoryMapItem) (p : ℕ) where
  find_before : p < y.start_at → find_item (y ∷ ys) p ≡ none
  unfolding find_item
  find_before lt = ap (item_of (y ∷ ys)) (search_before y ys p (lt→ltb p y.start_at lt))

  find_after : y.start_at < p → find_item (y ∷ ys) p ≡ or_item (find_item ys p) y
  unfolding find_item
  find_after gt =
      ap (item_of (y ∷ ys)) (search_after y ys p (lt→ltb y.start_at p gt))
      ∙ after y ys (binary_search ys p) (in_range ys p)

  find_here : y.start_at ≡ p → find_item (y ∷ ys) p ≡ some y
  unfolding find_item
  find_here e = ap (item_of (y ∷ ys)) (search_here y ys p (ground (arith, e)) (ground (arith, e)))

find_none :
    (ys : List MemoryMapItem) (p : ℕ)
    → ((k : ℕ) (z : MemoryMapItem) → get_elem? ys k ≡ some z → p < z.start_at)
    → find_item ys p ≡ none
unfolding find_item binary_search
find_none [] p h = refl
find_none (y ∷ ys) p h = find_before y ys p (h 0 y refl)

order : (a b : ℕ) → (a < b) ⊎ ((b < a) ⊎ (a ≡ b))
order a b = ground arith

-- The search gives the item that holds the address.
pub find_item-holds :
    (map : List MemoryMapItem) (p k : ℕ) (item : MemoryMapItem)
    → IsApart map
    → get_elem? map k ≡ some item
    → item.start_at ≤ p
    → p < item.start_at + item.size
    → find_item map p ≡ some item
find_item-holds [] p k item h e le lt = absurd (ground (arith, e))
find_item-holds (y ∷ ys) p zero item (pos, all, rest) e le lt = elim (order y.start_at p) [
  | inl gt ↦
      find_after y ys p gt
      ∙ ap (λ o. or_item o y) (find_none ys p (λ k z hz. omega (arith, all k z hz, ends)))
      ∙ e
  | inr (inl before) ↦ absurd (omega (arith, before, starts))
  | inr (inr at) ↦ find_here y ys p at ∙ e
]
  where
    starts : y.start_at ≤ p
    starts = ground (arith, e, le)

    ends : p < y.start_at + y.size
    ends = ground (arith, e, lt)
find_item-holds (y ∷ ys) p (suc k) item (pos, all, rest) e le lt =
    find_after y ys p (omega (arith, all k item e, pos))
    ∙ ap (λ o. or_item o y) (find_item-holds ys p k item rest e le lt)

head_starts :
    (y item : MemoryMapItem) (p : ℕ)
    → Path (Option MemoryMapItem) (some y) (some item)
    → y.start_at ≤ p
    → item.start_at ≤ p
head_starts y item p e le = ground (arith, e, le)

-- What the search gives is an item of the map that starts at or below the address.
pub find_item-starts :
    (map : List MemoryMapItem) (p : ℕ) (item : MemoryMapItem)
    → find_item map p ≡ some item
    → ((k : ℕ) × (get_elem? map k ≡ some item)) × (item.start_at ≤ p)
find_item-starts [] p item h =
    absurd (ground (arith, h, find_none [] p (λ k z hz. absurd (ground (arith, hz)))))
find_item-starts (y ∷ ys) p item h = elim (order y.start_at p) [
  | inr (inl before) ↦ absurd (ground (arith, h, find_before y ys p before))
  | inr (inr at) ↦ (
    (0, sym (find_here y ys p at) ∙ h),
    head_starts y item p (sym (find_here y ys p at) ∙ h) (omega (arith, at)),
  )
  | inl gt ↦ elim (Option-cases (find_item ys p)) [
    | inl none_there ↦ (
      (0, sym (ap (λ o. or_item o y) none_there) ∙ sym (find_after y ys p gt) ∙ h),
      head_starts y item p (sym (ap (λ o. or_item o y) none_there) ∙ sym (find_after y ys p gt) ∙ h)
          (omega (arith, gt)),
    )
    | inr (z, there) ↦
        (let ((k, at), le) =
            find_item-starts ys p item
              (there ∙ sym (ap (λ o. or_item o y) there) ∙ sym (find_after y ys p gt) ∙ h) in
          ((suc k, at), le))
  ]
]
