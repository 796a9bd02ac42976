-- ===== src/Cache/Expiry.antt =====
-- MoqxCache: reads, with the expiry of what they find.
use moq_testbed.Prelude.{
  ℕ, ◌-◌, ◌≤◌, ◌≡◌, ap, true, Option, none, some, lookup, ℕ_discrete, Bool-cases, Option-cases, inl,
  inr, arith,
}
use moq_testbed.Prelude.Assoc.{value_or}
use moq_testbed.Cache.State.{
  Location, Locations, CacheEntry, CacheGroup, CacheTrack, MoqxCache, new_group, group_of,
  put_group, subtract,
}
use moq_testbed.Cache.Eviction.{erase_entry}
use moq_testbed.Cache.Lookup.{get_cached_object_maybe, expire, is_past, or_else}
use moq_testbed.Cache.Sums.{weight_at, sum_by-erase_entry, lookup-AllValues}
use moq_testbed.Cache.Bytes.{
  group_bytes, object_bytes, IsSummed, IsTrackSummed, put_group-Moves, group_of-put_group,
  subtract-le,
}
use moq_testbed.Cache.Accounts.{
  IsAccounted, put_track-IsAccounted, track_bytes-bytes_of, group_bytes-track_bytes,
}

-- The group without the object.
abbrev expired_group : Location → CacheGroup → CacheEntry → CacheGroup
expired_group l group e = record group {
  total_bytes = subtract group.total_bytes e.payload_size;
  objects = erase_entry ℕ_discrete l.1 group.objects;
}

object_within :
    (l : Location) (group : CacheGroup) (e : CacheEntry)
    → IsSummed group
    → lookup ℕ_discrete l.1 group.objects ≡ some e
    → e.payload_size ≤ group.total_bytes
object_within l group e h f = omega (
  arith,
  sum_by-erase_entry ℕ_discrete l.1 object_bytes group.objects,
  ap (weight_at object_bytes) f,
  h,
)

expired_group-IsSummed :
    (l : Location) (group : CacheGroup) (e : CacheEntry)
    → IsSummed group
    → lookup ℕ_discrete l.1 group.objects ≡ some e
    → IsSummed (expired_group l group e)
expired_group-IsSummed l group e h f =
    let less = object_within l group e h f in
    omega (
      arith,
      sum_by-erase_entry ℕ_discrete l.1 object_bytes group.objects,
      ap (weight_at object_bytes) f,
      h,
      less,
      subtract-le group.total_bytes e.payload_size less,
    )

-- An age within the first of two durations, or within the second where there is no first.
abbrev pub NotOlder : ℕ → Option ℕ → Option ℕ → Type 0
NotOlder age (some d) o = age ≤ d
NotOlder age none (some d) = age ≤ d
NotOlder age none none = Unit {0}

module _ {L : Locations} {Ftn : Type 0} (dec : Discrete Ftn) where
  expire-IsAccounted :
      (ftn : Ftn) (t : CacheTrack L) (l : Location) (group : CacheGroup) (e : CacheEntry)
      (c : MoqxCache L Ftn)
      → IsAccounted c
      → lookup dec ftn c.tracks ≡ some t
      → lookup ℕ_discrete l.0 t.groups ≡ some group
      → lookup ℕ_discrete l.1 group.objects ≡ some e
      → IsAccounted (expire dec ftn t l group e c)
  expire-IsAccounted ftn t l group e c h at_track at_group at_object =
      let all = lookup-AllValues dec IsTrackSummed ftn t c.tracks h.1 at_track in
      let summed = lookup-AllValues ℕ_discrete IsSummed l.0 group t.groups all at_group in
      let g = expired_group l group e in
      let less = object_within l group e summed at_object in
      let own : (group_of l.0 t).total_bytes ≡ group.total_bytes =
        ap (λ o. (value_or o new_group).total_bytes) at_group in
      let moved = put_group-Moves l.0 g t (expired_group-IsSummed l group e summed at_object) all in
      let held = track_bytes-bytes_of dec ftn t c at_track in
      let within = group_bytes-track_bytes dec l.0 t in
      let u : CacheTrack L = record (put_group l.0 g t) {
        cached_content = L.remove_interval l l t.cached_content;
      } in
      put_track-IsAccounted dec ftn t u c (subtract c.total_cached_bytes e.payload_size) h at_track
        moved.0
        (omega (
          arith,
          moved.1,
          own,
          ap group_bytes (group_of-put_group l.0 g t),
          less,
          h.0,
          held,
          within,
          subtract-le c.total_cached_bytes e.payload_size
              (omega (arith, less, own, within, held, h.0)),
          subtract-le group.total_bytes e.payload_size less,
        ))

  -- The accounts hold after a read, also when the object it finds has expired and goes.
  pub get_cached_object_maybe-IsAccounted :
      (ftn : Ftn) (l : Location) (now : ℕ) (c : MoqxCache L Ftn)
      → IsAccounted c
      → IsAccounted (get_cached_object_maybe dec ftn l now c).0
  unfolding get_cached_object_maybe
  get_cached_object_maybe-IsAccounted ftn l now c h =
      elim (Option-cases (lookup dec ftn c.tracks)) [
        | inl x ↦ rw (x, get_cached_object_maybe) h
        | inr (t, x) ↦ elim (Option-cases (lookup ℕ_discrete l.0 t.groups)) [
          | inl y ↦ rw (x, get_cached_object_maybe) rw y h
          | inr (group, y) ↦ elim (Option-cases (lookup ℕ_discrete l.1 group.objects)) [
            | inl z ↦ rw (x, get_cached_object_maybe) rw (y, z) h
            | inr (e, z) ↦
                elim (Bool-cases (
                  is_past (or_else t.max_cache_duration c.default_max_cache_duration)
                    (now - e.cached_at))) [
                      | inl past ↦
                          rw (x, get_cached_object_maybe) rw (y, z, past)
                            (expire-IsAccounted ftn t l group e c h x y z)
                      | inr fresh ↦ rw (x, get_cached_object_maybe) rw (y, z, fresh) h
                    ]
          ]
        ]
      ]

  -- The object of the cache at a place, complete and not too old.
  abbrev pub IsReadable : Ftn → Location → ℕ → MoqxCache L Ftn → CacheEntry → Type 0
  IsReadable ftn l now c e =
      (t : CacheTrack L) × ((lookup dec ftn c.tracks ≡ some t)
        × ((group : CacheGroup) × ((lookup ℕ_discrete l.0 t.groups ≡ some group)
              × ((lookup ℕ_discrete l.1 group.objects ≡ some e)
                  × ((e.is_complete ≡ true)
                      × NotOlder (now - e.cached_at) t.max_cache_duration
                          c.default_max_cache_duration)))))
