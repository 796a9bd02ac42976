-- ===== src/Tests/Caches.antt =====
-- MoqxCache with intervals as lists of their ends. A track's name is a number.
use moq_testbed.Prelude.{
  ℕ, zero, suc, ◌+◌, ◌≡◌, ◌⊎◌, inr, refl, Bool, true, false, not, ◌&&◌, ◌||◌, none, some, List, [],
  ◌∷◌, leb, ◌==◌, if◌then◌else◌, lookup, ℕ_discrete, arith,
}
use moq_testbed.Prelude.Assoc.{assign}
use moq_testbed.Ranking.FastPath.{Each}
use moq_testbed.Cache.State.{
  Location, after, Locations, normal, CacheEntry, CacheGroup, CacheTrack, MoqxCache, new_track,
}
use moq_testbed.Cache.Objects.{NewObject, update_largest}
use moq_testbed.Cache.Eviction.{
  Run, returns, out_of_fuel, evict_group, evict_tracks, evict_down_to,
  evict_for_byte_limit_if_needed, clear, erase_entry, erase_group_node, erase_node,
}
use moq_testbed.Cache.Lookup.{get_cached_object_maybe}
use moq_testbed.Cache.Accounts.{IsAccounted, ReturnsAccounted}
use moq_testbed.Cache.Purges.{evict_tracks-IsAccounted}
use moq_testbed.Cache.Expiry.{get_cached_object_maybe-IsAccounted}
use moq_testbed.Cache.Limits.{IsLinked}
use moq_testbed.Cache.Watermark.{evict_for_byte_limit_if_needed-IsLinked}
use moq_testbed.Cache.Largest.{NotPast, update_all, update_all-NotPast}

abbrev between : Location → List (Location × Location) → Bool
between l [] = false
between l ((a, b) ∷ is) = not (after a l) && not (after l b) || between l is

abbrev outside : Location → Location → List (Location × Location) → List (Location × Location)
outside a b [] = []
outside a b ((c, d) ∷ is) =
    let rest = outside a b is in
    if (not (after a c) && not (after d b)) then rest else (c, d) ∷ rest

abbrev pub list_locations : Locations
list_locations = record {
  location_max = (99, 99);
  next_in_group = λ l. if leb 99 l.1 then none else some (l.0, l.1 + 1);
  next_group = λ l. if leb 99 l.0 then none else some (l.0 + 1, 0);
  Intervals = List (Location × Location);
  no_intervals = [];
  has_location = λ is l. between l is;
  insert_interval = λ a b is. (a, b) ∷ is;
  remove_interval = outside;
}

abbrev entry : CacheEntry
entry = record {
  subgroup = 0;
  status = normal;
  extensions = λ t. none;
  payload = some (1 ∷ 2 ∷ 3 ∷ []);
  payload_size = 3;
  is_complete = true;
  forwarding_preference_is_datagram = false;
  cached_at = 10;
}

-- A group with one object of three bytes, which can go.
abbrev group : CacheGroup
group = record {
  objects = (0, entry) ∷ [];
  max_cached_object = 0;
  group_ended = false;
  seen_prior_group_id_gap = none;
  total_bytes = 3;
  lru_iter = true;
  global_lru_iter = true;
}

abbrev track : CacheTrack list_locations
track = record (new_track list_locations) {
  groups = (4, group) ∷ (5, group) ∷ [];
  group_lru = 5 ∷ 4 ∷ [];
  track_lru_iter = true;
  max_cache_duration = some 100;
}

abbrev cache : MoqxCache list_locations ℕ
cache = record {
  tracks = (7, track) ∷ [];
  track_lru = 7 ∷ [];
  global_group_lru = (7, 5) ∷ (7, 4) ∷ [];
  max_cached_tracks = 10;
  max_cached_groups_per_track = 3;
  max_cached_bytes = 4;
  min_eviction_bytes = 1;
  total_cached_bytes = 6;
  default_max_cache_duration = none;
  max_allowed_cache_duration = none;
}

accounted : IsAccounted cache
accounted = (refl, ((refl, (refl, tt)), tt))

five≢four : ¬ (Path ℕ 5 4)
five≢four h = omega arith

linked : IsLinked ℕ_discrete cache
unfolding lookup ℕ_discrete
linked = (
  (track, (refl, (group, (refl, refl)))),
  ((inr five≢four, tt), ((track, (refl, (group, (refl, refl)))), (tt, tt))),
)

abbrev object : NewObject
object = record {
  group_id = 5;
  subgroup_id = 0;
  object_id = 1;
  object_status = normal;
  object_extensions = λ t. none;
  object_payload = some (9 ∷ []);
  object_complete = true;
  is_datagram = false;
  now = 20;
}

evict_tracks-IsAccounted_example :
    ReturnsAccounted {L = list_locations} {A = MoqxCache list_locations ℕ × ℕ}
      (λ r. r.0)
      (evict_tracks ℕ_discrete (7 ∷ 8 ∷ []) cache)
evict_tracks-IsAccounted_example = evict_tracks-IsAccounted ℕ_discrete (7 ∷ 8 ∷ []) cache accounted

get_cached_object_maybe-IsAccounted_example :
    IsAccounted (get_cached_object_maybe ℕ_discrete 7 (4, 0) 500 cache).0
get_cached_object_maybe-IsAccounted_example =
    get_cached_object_maybe-IsAccounted ℕ_discrete 7 (4, 0) 500 cache accounted

found : (get_cached_object_maybe ℕ_discrete 7 (4, 0) 50 cache).1 ≡ some entry
unfolding get_cached_object_maybe lookup ℕ_discrete
found = refl

evict_for_byte_limit_if_needed-IsLinked_example :
    (d : MoqxCache list_locations ℕ) × ((b : Bool) × ((evict_for_byte_limit_if_needed ℕ_discrete 2
            cache
          ≡ returns (d, b))
        × ((IsAccounted d × IsLinked ℕ_discrete d)
            × ((b
                  ≡ (cache.max_cached_bytes == 0)
                    || leb d.total_cached_bytes cache.max_cached_bytes)
                × ((b ≡ true) ⊎ (d.global_group_lru ≡ []))))))
evict_for_byte_limit_if_needed-IsLinked_example =
    evict_for_byte_limit_if_needed-IsLinked ℕ_discrete 2 cache accounted linked (omega arith)

-- The oldest group goes, the other stays.
abbrev bytes_left : Run (MoqxCache list_locations ℕ × Bool) → ℕ
bytes_left (returns d) = d.0.total_cached_bytes
bytes_left r = 99

one_evicted : bytes_left (evict_for_byte_limit_if_needed ℕ_discrete 2 cache) ≡ 3
unfolding evict_for_byte_limit_if_needed evict_down_to evict_group erase_entry erase_node
    erase_group_node assign lookup ℕ_discrete
one_evicted = refl

abbrev objects_seen : List (Location × Bool)
objects_seen = ((4, 1), false) ∷ ((4, 0), false) ∷ ((5, 0), true) ∷ []

abbrev seen : CacheTrack list_locations
unfolding update_all
seen = (update_all objects_seen (new_track list_locations)).0

none_refused : (update_all objects_seen (new_track list_locations)).1 ≡ none
unfolding update_all update_largest
none_refused = refl

update_all-NotPast_example :
    Each
      (λ u.
        NotPast u.0 (update_all objects_seen (new_track list_locations)).0.largest_group_and_object)
      objects_seen
update_all-NotPast_example = update_all-NotPast objects_seen (new_track list_locations) none_refused

-- `clear` leaves the entries of the global list. When the track comes back with another group, the
-- entry at the back names a group that is not there, no turn of the loop takes it away, and the loop
-- never ends.
abbrev returned : CacheTrack list_locations
returned = record (new_track list_locations) { groups = (6, group) ∷ []; group_lru = 6 ∷ [] }

abbrev after_clear : MoqxCache list_locations ℕ
unfolding clear
after_clear = record (clear cache) {
  tracks = (7, returned) ∷ [];
  global_group_lru = (7, 6) ∷ (clear cache).global_group_lru;
  max_cached_bytes = 2;
  total_cached_bytes = 3;
}

turns_stuck : (fuel : ℕ) → evict_down_to ℕ_discrete fuel 1 after_clear ≡ out_of_fuel
unfolding evict_down_to evict_group lookup ℕ_discrete clear after_clear
turns_stuck zero = refl
turns_stuck (suc n) = turns_stuck n

clear_hangs : (fuel : ℕ) → evict_for_byte_limit_if_needed ℕ_discrete fuel after_clear ≡ out_of_fuel
unfolding evict_for_byte_limit_if_needed clear after_clear
clear_hangs fuel = rw (turns_stuck fuel) refl
