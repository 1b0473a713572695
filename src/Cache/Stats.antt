-- ===== src/Cache/Stats.antt =====
-- `Cache<P>`: a policy with counters of accesses and hits.
use here.Base.{Option, arith, none, some, ℕ, ◌+◌, ◌≡◌, ◌≤◌}
use here.Cache.{CachePolicy}

module _ {T : Type 0} (P : CachePolicy T) where
  open P use {State, empty, get, put, invalidate, clear}

  pub record Cache : Type 0 where
    pub policy : State
    pub hit_count : ℕ
    pub access_count : ℕ

  unfoldable pub cache_new : Cache
  cache_new = record { policy = empty; hit_count = 0; access_count = 0 }

  -- The counters are cells, which `get` updates.
  unfoldable pub cache_get : Cache → ℕ → Option T × Cache
  cache_get c addr =
      let r = get c.policy addr in
      let counted = record c { access_count = c.access_count + 1 } in
      (r, elim r [ none ↦ counted | some _ ↦ record counted { hit_count = c.hit_count + 1 } ])

  unfoldable pub cache_put : Cache → ℕ → T → Cache
  cache_put c addr v = record c { policy = put c.policy addr v }

  unfoldable pub cache_invalidate : Cache → ℕ → Cache
  cache_invalidate c addr = record c { policy = invalidate c.policy addr }

  unfoldable pub cache_clear : Cache → Cache
  cache_clear c = record c { policy = clear c.policy }

  pub policy-cache_get : (c : Cache) (addr : ℕ) → (cache_get c addr).1.policy ≡ c.policy
  unfolding cache_get
  policy-cache_get c addr = ground arith

  -- A lookup leaves the hits below the accesses.
  pub cache_get-counts :
      (c : Cache) (addr : ℕ)
      → c.hit_count ≤ c.access_count
      → (cache_get c addr).1.hit_count ≤ (cache_get c addr).1.access_count
  unfolding cache_get
  cache_get-counts c addr h = ground arith
