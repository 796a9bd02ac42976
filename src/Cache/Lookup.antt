-- ===== src/Cache/Lookup.antt =====
-- MoqxCache: writes with their byte accounting, reads with the expiry, durations and limits.
use moq_testbed.Prelude.{
  ℕ, zero, suc, ◌+◌, ◌-◌, min, Bool, false, not, ◌&&◌, Option, none, some, List, [], ◌∷◌, map,
  length, ltb, leb, lookup, ℕ_discrete, if◌then◌else◌,
}
use moq_testbed.Prelude.Assoc.{keys, is_some}
use moq_testbed.Cache.State.{
  Location, Locations, Extensions, CacheEntry, CacheGroup, CacheTrack, MoqxCache, new_track,
  group_of, put_group, subtract,
}
use moq_testbed.Cache.Objects.{MalformedTrack, NewObject, cache_object}
use moq_testbed.Cache.Eviction.{
  Run, returns, check_fails, out_of_fuel, and_then, empty, put_track, erase_entry, add_track_to_lru,
  evict_oldest_track_if_needed, evict_oldest_groups, evict_for_byte_limit_if_needed,
}

-- The effective duration: the track's, else the default.
abbrev pub or_else : Option ℕ → Option ℕ → Option ℕ
or_else none d = d
or_else (some a) d = some a

abbrev pub is_past : Option ℕ → ℕ → Bool
is_past none age = false
is_past (some d) age = ltb d age

-- `getEffectiveCacheDuration`, from the value of the extension for the duration.
abbrev pub capped : ℕ → Option ℕ → ℕ
capped d none = d
capped d (some most) = min d most

module _ {L : Locations} {Ftn : Type 0} (dec : Discrete Ftn) where
  -- What the total becomes when a group's bytes change.
  abbrev pub account : ℕ → ℕ → MoqxCache L Ftn → Run (MoqxCache L Ftn)
  account old new c =
      if leb old new
      then returns (record c { total_cached_bytes = c.total_cached_bytes + (new - old) })
      else if ltb c.total_cached_bytes (old - new)
      then check_fails
      else returns (record c { total_cached_bytes = c.total_cached_bytes - (old - new) })

  abbrev pub written : Ftn → CacheTrack L → NewObject → MoqxCache L Ftn → MoqxCache L Ftn
  written ftn t n c = put_track dec ftn (record t { last_write = some n.now }) c

  -- The part of `cacheObjectAndUpdateBytes` before its eviction.
  unfoldable pub cache_object_and_count :
      Ftn → NewObject → MoqxCache L Ftn → Run (MoqxCache L Ftn × Option MalformedTrack)
  cache_object_and_count ftn n c = elim (lookup dec ftn c.tracks) [
    | none ↦ returns (c, none)
    | some t ↦
        let old = (group_of n.group_id t).total_bytes in
        let res = cache_object n t in
        elim res.1 [
          | some e ↦ returns (put_track dec ftn res.0 c, some e)
          | none ↦
              and_then (account old (group_of n.group_id res.0).total_bytes (written ftn res.0 n c))
                (λ d. returns (d, none))
        ]
  ]

  unfoldable pub cache_object_and_update_bytes :
      ℕ → Ftn → NewObject → MoqxCache L Ftn → Run (MoqxCache L Ftn × Option MalformedTrack)
  cache_object_and_update_bytes fuel ftn n c = and_then (cache_object_and_count ftn n c) (λ r.
      elim r.1 [
        | some e ↦ returns r
        | none ↦ and_then (evict_for_byte_limit_if_needed dec fuel r.0) (λ d. returns (d.0, none))
      ])

  -- The object goes from its group, and its bytes from the group and the total.
  abbrev pub expire :
      Ftn → CacheTrack L → Location → CacheGroup → CacheEntry → MoqxCache L Ftn → MoqxCache L Ftn
  expire ftn t l group e c =
      put_track dec ftn
        (record (put_group l.0
          (record group {
            total_bytes = subtract group.total_bytes e.payload_size;
            objects = erase_entry ℕ_discrete l.1 group.objects;
          })
          t) { cached_content = L.remove_interval l l t.cached_content })
        (record c { total_cached_bytes = subtract c.total_cached_bytes e.payload_size })

  -- `getCachedObjectMaybe`, of a track that the cache has.
  unfoldable pub get_cached_object_maybe :
      Ftn → Location → ℕ → MoqxCache L Ftn → MoqxCache L Ftn × Option CacheEntry
  get_cached_object_maybe ftn l now c = elim (lookup dec ftn c.tracks) [
    | none ↦ (c, none)
    | some t ↦ elim (lookup ℕ_discrete l.0 t.groups) [
      | none ↦ (c, none)
      | some group ↦ elim (lookup ℕ_discrete l.1 group.objects) [
        | none ↦ (c, none)
        | some e ↦
            let duration = or_else t.max_cache_duration c.default_max_cache_duration in
            if is_past duration (now - e.cached_at)
            then (expire ftn t l group e c, none)
            else (c, if e.is_complete then some e else none)
      ]
    ]
  ]

  -- `hasCachedObject`.
  unfoldable pub has_cached_object : Ftn → Location → ℕ → MoqxCache L Ftn → MoqxCache L Ftn × Bool
  has_cached_object ftn l now c = let r = get_cached_object_maybe ftn l now c in (r.0, is_some r.1)

  -- `hasTrack`.
  unfoldable pub has_track : Ftn → MoqxCache L Ftn → Bool
  has_track ftn c = is_some (lookup dec ftn c.tracks)

  unfoldable pub get_effective_cache_duration : Option ℕ → MoqxCache L Ftn → Option ℕ
  get_effective_cache_duration none c = c.default_max_cache_duration
  get_effective_cache_duration (some ms) c = some (capped ms c.max_allowed_cache_duration)

  -- A track that is not there is made, and can be evicted.
  unfoldable pub find_or_make_track : Ftn → MoqxCache L Ftn → MoqxCache L Ftn
  find_or_make_track ftn c = elim (lookup dec ftn c.tracks) [
    | some t ↦ c
    | none ↦ add_track_to_lru dec ftn (new_track L) (put_track dec ftn (new_track L) c)
  ]

  abbrev change_track : Ftn → (CacheTrack L → CacheTrack L) → MoqxCache L Ftn → MoqxCache L Ftn
  change_track ftn f c = elim (lookup dec ftn c.tracks) [
    | none ↦ c
    | some t ↦ put_track dec ftn (f t) c
  ]

  unfoldable pub set_max_cache_duration : Ftn → ℕ → MoqxCache L Ftn → MoqxCache L Ftn
  set_max_cache_duration ftn d c =
      change_track ftn (λ t. record t { max_cache_duration = some d }) (find_or_make_track ftn c)

  unfoldable pub clear_max_cache_duration : Ftn → MoqxCache L Ftn → MoqxCache L Ftn
  clear_max_cache_duration ftn c = change_track ftn (λ t. record t { max_cache_duration = none }) c

  abbrev set_duration : Ftn → Option ℕ → MoqxCache L Ftn → MoqxCache L Ftn
  set_duration ftn none c = clear_max_cache_duration ftn c
  set_duration ftn (some d) c = set_max_cache_duration ftn d c

  unfoldable pub set_track_extensions :
      Ftn → Extensions → Option ℕ → MoqxCache L Ftn → MoqxCache L Ftn
  set_track_extensions ftn extensions duration c =
      change_track ftn (λ t. record t { track_extensions = extensions })
        (find_or_make_track ftn (set_duration ftn (get_effective_cache_duration duration c) c))

  unfoldable pub set_max_cached_bytes : ℕ → ℕ → MoqxCache L Ftn → Run (MoqxCache L Ftn × Bool)
  set_max_cached_bytes fuel most c =
      evict_for_byte_limit_if_needed dec fuel (record c { max_cached_bytes = most })

  -- The loop of `setMaxCachedTracks`.
  abbrev too_many_tracks : MoqxCache L Ftn → Bool
  too_many_tracks c =
      ltb 0 c.max_cached_tracks
      && ltb c.max_cached_tracks (length c.tracks)
      && not (empty c.track_lru)

  unfoldable pub evict_oldest_tracks : ℕ → MoqxCache L Ftn → Run (MoqxCache L Ftn)
  evict_oldest_tracks zero c = if too_many_tracks c then out_of_fuel else returns c
  evict_oldest_tracks (suc n) c =
      if too_many_tracks c
      then and_then (evict_oldest_track_if_needed dec c) (λ d. evict_oldest_tracks n d.0)
      else returns c

  unfoldable pub set_max_cached_tracks : ℕ → ℕ → MoqxCache L Ftn → Run (MoqxCache L Ftn)
  set_max_cached_tracks fuel most c =
      evict_oldest_tracks fuel (record c { max_cached_tracks = most })

  -- The loop of `setMaxCachedGroupsPerTrack`.
  unfoldable pub evict_groups_of : ℕ → List Ftn → MoqxCache L Ftn → Run (MoqxCache L Ftn)
  evict_groups_of fuel [] c = returns c
  evict_groups_of fuel (ftn ∷ ftns) c =
      and_then (evict_oldest_groups dec fuel ftn c) (evict_groups_of fuel ftns)

  unfoldable pub set_max_cached_groups_per_track : ℕ → ℕ → MoqxCache L Ftn → Run (MoqxCache L Ftn)
  set_max_cached_groups_per_track fuel most c =
      let d = record c { max_cached_groups_per_track = most } in
      if ltb most c.max_cached_groups_per_track
      then evict_groups_of fuel (keys c.tracks) d
      else returns d

-- `getTrackStats`.
pub record TrackStats (Ftn : Type 0) : Type 0 where
  pub name : Ftn
  pub ended : Bool
  pub wrote_last : Option ℕ
  pub group_stats : List (ℕ × ℕ)

abbrev insert_stats : ℕ × ℕ → List (ℕ × ℕ) → List (ℕ × ℕ)
insert_stats s [] = s ∷ []
insert_stats s (r ∷ rs) =
    let rest = insert_stats s rs in if leb s.0 r.0 then s ∷ r ∷ rs else r ∷ rest

abbrev pub sorted_stats : List (ℕ × CacheGroup) → List (ℕ × ℕ)
sorted_stats [] = []
sorted_stats ((g, group) ∷ gs) = insert_stats (g, length group.objects) (sorted_stats gs)

module _ {L : Locations} {Ftn : Type 0} where
  abbrev stats_of : Ftn × CacheTrack L → TrackStats Ftn
  stats_of (ftn, t) = record {
    name = ftn;
    ended = t.track_ended;
    wrote_last = t.last_write;
    group_stats = sorted_stats t.groups;
  }

  unfoldable pub get_track_stats : MoqxCache L Ftn → List (TrackStats Ftn)
  get_track_stats c = map stats_of c.tracks
