-- ===== src/Cache/Eviction.antt =====
-- MoqxCache: the LRU lists and the evictions. A run of an operation returns, or a check of the source
-- fails (`XCHECK`), or a loop is out of fuel. A track that is evicted is kept alive by the write-backs
-- that still hold it; they see its flag and leave it alone, and it is not followed further.
use moq_testbed.Prelude.{
  ℕ, zero, suc, ◌+◌, ◌-◌, Bool, true, false, not, ◌&&◌, ◌||◌, Option, none, some, List, [], ◌∷◌,
  length, ite, ltb, leb, ◌==◌, lookup, ℕ_discrete, if◌then◌else◌,
}
use moq_testbed.Prelude.Assoc.{assign, emplace, keys, value_or}
use moq_testbed.Cache.State.{
  Locations, CacheGroup, CacheTrack, MoqxCache, new_group, group_of, put_group, can_evict,
}

pub data Run (A : Type 0) : Type 0 where
  returns : A → Run A
  check_fails : Run A
  out_of_fuel : Run A

abbrev pub and_then : {A B : Type 0} → Run A → (A → Run B) → Run B
and_then (returns a) f = f a
and_then check_fails f = check_fails
and_then out_of_fuel f = out_of_fuel

abbrev pub empty : {A : Type 0} → List A → Bool
empty [] = true
empty (x ∷ xs) = false

-- `back` and `pop_back`.
abbrev pub back : {A : Type 0} → List A → Option A
back [] = none
back (x ∷ []) = some x
back (x ∷ y ∷ ys) = back (y ∷ ys)

abbrev pub pop_back : {A : Type 0} → List A → List A
pop_back [] = []
pop_back (x ∷ []) = []
pop_back (x ∷ y ∷ ys) = x ∷ pop_back (y ∷ ys)

-- `erase` of the node that an iterator stands at.
module _ {K : Type 0} (dec : Discrete K) where
  unfoldable pub erase_node : K → List K → List K
  erase_node k [] = []
  erase_node k (j ∷ js) = ite (dec j k) js (j ∷ erase_node k js)

  -- `erase` of the entry that a `find` has found.
  unfoldable pub erase_entry : {V : Type 0} → K → List (K × V) → List (K × V)
  erase_entry k [] = []
  erase_entry k ((j, v) ∷ m) = ite (dec j k) m ((j, v) ∷ erase_entry k m)

  unfoldable pub erase_group_node : K → ℕ → List (K × ℕ) → List (K × ℕ)
  erase_group_node k g [] = []
  erase_group_node k g ((j, h) ∷ ns) =
      let rest = (j, h) ∷ erase_group_node k g ns in
      ite (dec j k) (if h == g then ns else rest) rest

module _ {L : Locations} {Ftn : Type 0} where
  -- `clear`. The global list of groups stays.
  unfoldable pub clear : MoqxCache L Ftn → MoqxCache L Ftn
  clear c = record c { tracks = []; track_lru = []; total_cached_bytes = 0 }

module _ {L : Locations} {Ftn : Type 0} (dec : Discrete Ftn) where
  abbrev pub put_track : Ftn → CacheTrack L → MoqxCache L Ftn → MoqxCache L Ftn
  put_track ftn t c = record c { tracks = assign dec ftn t c.tracks }

  -- `addTrackToLRU`, `removeTrackFromLRU`, `onTrackBecameEvictable`.
  unfoldable pub add_track_to_lru : Ftn → CacheTrack L → MoqxCache L Ftn → MoqxCache L Ftn
  add_track_to_lru ftn t c =
      if t.track_lru_iter
      then c
      else put_track ftn (record t { track_lru_iter = true })
          (record c { track_lru = ftn ∷ c.track_lru })

  unfoldable pub remove_track_from_lru : Ftn → CacheTrack L → MoqxCache L Ftn → MoqxCache L Ftn
  remove_track_from_lru ftn t c =
      if t.track_lru_iter
      then put_track ftn (record t { track_lru_iter = false })
          (record c { track_lru = erase_node dec ftn c.track_lru })
      else c

  unfoldable pub on_track_became_evictable : Ftn → MoqxCache L Ftn → MoqxCache L Ftn
  on_track_became_evictable ftn c = elim (lookup dec ftn c.tracks) [
    | none ↦ c
    | some t ↦ if can_evict t then add_track_to_lru ftn t c else c
  ]

  -- `addGroupToLRU`, `removeGroupFromLRU`.
  unfoldable pub add_group_to_lru : Ftn → ℕ → CacheTrack L → MoqxCache L Ftn → MoqxCache L Ftn
  add_group_to_lru ftn g t c =
      let group = group_of g t in
      if group.lru_iter
      then c
      else put_track ftn
          (record (put_group g (record group { lru_iter = true; global_lru_iter = true }) t) {
            group_lru = g ∷ t.group_lru;
          })
          (record c { global_group_lru = (ftn, g) ∷ c.global_group_lru })

  unfoldable pub remove_group_from_lru : Ftn → ℕ → CacheTrack L → MoqxCache L Ftn → MoqxCache L Ftn
  remove_group_from_lru ftn g t c =
      let group = group_of g t in
      if not group.lru_iter
      then c
      else put_track ftn
          (record (put_group g (record group { lru_iter = false; global_lru_iter = false }) t) {
            group_lru = erase_node ℕ_discrete g t.group_lru;
          })
          (record c {
            global_group_lru =
                if group.global_lru_iter
                then erase_group_node dec ftn g c.global_group_lru
                else c.global_group_lru;
          })

  -- The group goes from the track, the lists and the total.
  abbrev pub drop_group : Ftn → ℕ → CacheTrack L → CacheGroup → MoqxCache L Ftn → MoqxCache L Ftn
  drop_group ftn g t group c =
      put_track ftn
        (record t {
          group_lru = if group.lru_iter then erase_node ℕ_discrete g t.group_lru else t.group_lru;
          cached_content = L.remove_interval (g, 0) (g, L.location_max.1) t.cached_content;
          groups = erase_entry ℕ_discrete g t.groups;
        })
        (record c {
          global_group_lru =
              if group.global_lru_iter
              then erase_group_node dec ftn g c.global_group_lru
              else c.global_group_lru;
          total_cached_bytes = c.total_cached_bytes - group.total_bytes;
        })

  -- `evictGroup`.
  unfoldable pub evict_group : Ftn → ℕ → MoqxCache L Ftn → Run (MoqxCache L Ftn)
  evict_group ftn g c = elim (lookup dec ftn c.tracks) [
    | none ↦ returns c
    | some t ↦ elim (lookup ℕ_discrete g t.groups) [
      | none ↦ returns c
      | some group ↦
          if ltb c.total_cached_bytes group.total_bytes
          then check_fails
          else returns (drop_group ftn g t group c)
    ]
  ]

  -- The loop of `evictTrack` over the groups.
  unfoldable pub evict_groups :
      Ftn → List (ℕ × CacheGroup) → MoqxCache L Ftn → Run (MoqxCache L Ftn)
  evict_groups ftn [] c = returns c
  evict_groups ftn ((g, group) ∷ gs) c = and_then (evict_group ftn g c) (evict_groups ftn gs)

  abbrev pub stamp : Ftn → CacheTrack L → MoqxCache L Ftn → MoqxCache L Ftn
  stamp ftn t c =
      put_track ftn (record t { evicted = true })
        (record c {
          track_lru = if t.track_lru_iter then erase_node dec ftn c.track_lru else c.track_lru;
        })

  abbrev pub forget : Ftn → MoqxCache L Ftn → MoqxCache L Ftn
  forget ftn c = record c { tracks = erase_entry dec ftn c.tracks }

  -- `evictTrack`, with the number of tracks that went.
  unfoldable pub evict_track : Ftn → MoqxCache L Ftn → Run (MoqxCache L Ftn × ℕ)
  evict_track ftn c = elim (lookup dec ftn c.tracks) [
    | none ↦ returns (c, 0)
    | some t ↦ and_then (evict_groups ftn t.groups (stamp ftn t c)) (λ d. returns (forget ftn d, 1))
  ]

  unfoldable pub evict_tracks : List Ftn → MoqxCache L Ftn → Run (MoqxCache L Ftn × ℕ)
  evict_tracks [] c = returns (c, 0)
  evict_tracks (ftn ∷ ftns) c =
      and_then (evict_track ftn c)
        (λ one. and_then (evict_tracks ftns one.0) (λ more. returns (more.0, one.1 + more.1)))

  -- The tracks of a namespace, and `purge`.
  abbrev pub matching : (Ftn → Bool) → List (Ftn × CacheTrack L) → List Ftn
  matching in_namespace [] = []
  matching in_namespace ((ftn, t) ∷ ts) =
      let rest = matching in_namespace ts in if in_namespace ftn then ftn ∷ rest else rest

  unfoldable pub purge_namespace : (Ftn → Bool) → MoqxCache L Ftn → Run (MoqxCache L Ftn × ℕ)
  purge_namespace in_namespace c = evict_tracks (matching in_namespace c.tracks) c

  unfoldable pub purge : MoqxCache L Ftn → Run (MoqxCache L Ftn × ℕ)
  purge c = and_then (evict_tracks (keys c.tracks) c) (λ d. returns (d.0, length (keys c.tracks)))

  -- `evictOldestTrackIfNeeded`.
  unfoldable pub evict_oldest_track_if_needed : MoqxCache L Ftn → Run (MoqxCache L Ftn × Bool)
  evict_oldest_track_if_needed c =
      if (c.max_cached_tracks == 0) || ltb (length c.tracks) c.max_cached_tracks
      then returns (c, true)
      else elim (back c.track_lru) [
        | none ↦ returns (c, false)
        | some ftn ↦ and_then (evict_track ftn c) (λ d. returns (d.0, true))
      ]

  -- The loop of `evictOldestGroupsIfNeeded`, and what it evicts next.
  abbrev pub oldest_group : Ftn → MoqxCache L Ftn → Option ℕ
  oldest_group ftn c = elim (lookup dec ftn c.tracks) [
    | none ↦ none
    | some t ↦
        if (c.max_cached_groups_per_track == 0)
          || leb (length t.groups) c.max_cached_groups_per_track
        then none
        else back t.group_lru
  ]

  unfoldable pub evict_oldest_groups : ℕ → Ftn → MoqxCache L Ftn → Run (MoqxCache L Ftn)
  evict_oldest_groups zero ftn c = elim (oldest_group ftn c) [
    | none ↦ returns c
    | some g ↦ out_of_fuel
  ]
  evict_oldest_groups (suc n) ftn c = elim (oldest_group ftn c) [
    | none ↦ returns c
    | some g ↦ and_then (evict_group ftn g c) (evict_oldest_groups n ftn)
  ]

  -- `getOrCreateGroupWithEviction`.
  unfoldable pub get_or_create_group_with_eviction :
      ℕ → Ftn → ℕ → MoqxCache L Ftn → Run (MoqxCache L Ftn)
  get_or_create_group_with_eviction fuel ftn g c = elim (lookup dec ftn c.tracks) [
    | none ↦ returns c
    | some t ↦ elim (lookup ℕ_discrete g t.groups) [
      | some group ↦ returns c
      | none ↦ and_then (evict_oldest_groups fuel ftn c) (λ d.
          let u = value_or (lookup dec ftn d.tracks) t in
          let made = record u { groups = emplace ℕ_discrete g new_group u.groups } in
          returns (add_group_to_lru ftn g made d))
    ]
  ]

  -- One turn of the loop of `evictForByteLimitIfNeeded`, for the entry at the back. For a stale entry
  -- the source logs, and goes on without it.
  abbrev pub evict_shell : Ftn → MoqxCache L Ftn → Run (MoqxCache L Ftn)
  evict_shell ftn c = elim (lookup dec ftn c.tracks) [
    | none ↦ returns c
    | some t ↦
        if empty t.groups && can_evict t
        then and_then (evict_track ftn c) (λ d. returns d.0)
        else returns c
  ]

  abbrev pub evict_entry : Ftn × ℕ → MoqxCache L Ftn → Run (MoqxCache L Ftn)
  evict_entry (ftn, g) c = elim (lookup dec ftn c.tracks) [
    | none ↦ returns (record c { global_group_lru = pop_back c.global_group_lru })
    | some t ↦ and_then (evict_group ftn g c) (evict_shell ftn)
  ]

  abbrev pub oldest_entry : ℕ → MoqxCache L Ftn → Option (Ftn × ℕ)
  oldest_entry target c = if leb c.total_cached_bytes target then none else back c.global_group_lru

  unfoldable pub evict_down_to : ℕ → ℕ → MoqxCache L Ftn → Run (MoqxCache L Ftn)
  evict_down_to zero target c = elim (oldest_entry target c) [
    | none ↦ returns c
    | some entry ↦ out_of_fuel
  ]
  evict_down_to (suc n) target c = elim (oldest_entry target c) [
    | none ↦ returns c
    | some entry ↦ and_then (evict_entry entry c) (evict_down_to n target)
  ]

  -- `evictForByteLimitIfNeeded`.
  unfoldable pub evict_for_byte_limit_if_needed : ℕ → MoqxCache L Ftn → Run (MoqxCache L Ftn × Bool)
  evict_for_byte_limit_if_needed fuel c =
      if (c.max_cached_bytes == 0) || leb c.total_cached_bytes c.max_cached_bytes
      then returns (c, true)
      else let target =
          if ltb c.min_eviction_bytes c.max_cached_bytes
          then c.max_cached_bytes - c.min_eviction_bytes
          else 0 in
        and_then (evict_down_to fuel target c)
          (λ d. returns (d, leb d.total_cached_bytes c.max_cached_bytes))
