-- ===== src/Cache/Examples.antt =====
-- The caches on concrete values.
use here.Base.{some, ℕ, ◌≡◌}
use here.Cache.{CachePolicy, IsCoherent}
use here.Cache.Associative.{set_cache, set_cache-stale}
use here.Cache.Direct.{direct_cache, direct_cache-IsCoherent}

direct_cache-IsCoherent_example : IsCoherent (direct_cache {T = ℕ} 1 13)
direct_cache-IsCoherent_example = direct_cache-IsCoherent ℕ 1 13

abbrev two_ways : CachePolicy ℕ
two_ways = set_cache 0 2 2

set_cache-stale_example :
    two_ways.get (two_ways.put (two_ways.put two_ways.empty 5 10) 5 20) 5 ≡ some 10
set_cache-stale_example = set_cache-stale ℕ 0 2 0 5 10 20
