-- ===== src/Cache/Writes.antt =====
-- MoqxCache: `cacheObjectAndUpdateBytes`, with the eviction that it ends with.
use moq_testbed.Prelude.{◌≡◌}
use moq_testbed.Cache.State.{Locations, MoqxCache}
use moq_testbed.Cache.Eviction.{Run, returns}
use moq_testbed.Cache.Limits.{IsLinked}

module _ {L : Locations} {Ftn : Type 0} (dec : Discrete Ftn) where
  -- The entries still stand for groups, and they and the limit are as they were.
  abbrev Unmoved : MoqxCache L Ftn → MoqxCache L Ftn → Type 0
  Unmoved c d =
      IsLinked dec d
      × ((d.global_group_lru ≡ c.global_group_lru) × (d.max_cached_bytes ≡ c.max_cached_bytes))

  abbrev LeavesUnmoved : {A : Type 0} → (A → MoqxCache L Ftn) → MoqxCache L Ftn → Run A → Type 0
  LeavesUnmoved cache_of c (returns a) = Unmoved c (cache_of a)
  LeavesUnmoved cache_of c r = Unit {0}
