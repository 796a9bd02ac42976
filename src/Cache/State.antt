-- ===== src/Cache/State.antt =====
-- MoqxCache's data: objects, groups, tracks and the cache.
use moq_testbed.Prelude.{
  ℕ, ◌+◌, ◌-◌, Bool, true, false, ◌&&◌, ◌||◌, Option, none, some, List, [], ◌∷◌, length, ltb, ◌==◌,
  lookup, ℕ_discrete, if◌then◌else◌,
}
use moq_testbed.Prelude.Assoc.{assign, value_or}
use moq_testbed.Services.Rules.{Str}

-- A group and an object in it.
abbrev pub Location : Type 0
Location = ℕ × ℕ

-- `operator>`.
abbrev pub after : Location → Location → Bool
after a b = ltb b.0 a.0 || (a.0 == b.0) && ltb b.1 a.1

abbrev pub same_location : Location → Location → Bool
same_location a b = (a.0 == b.0) && (a.1 == b.1)

-- What the cache uses of moxygen's locations and of its LocationIntervalSet. The greatest object
-- number is that of `kLocationMax`.
pub record Locations : Type 1 where
  pub location_max : Location
  pub next_in_group : Location → Option Location
  pub next_group : Location → Option Location
  pub Intervals : Type 0
  pub no_intervals : Intervals
  pub has_location : Intervals → Location → Bool
  pub insert_interval : Location → Location → Intervals → Intervals
  pub remove_interval : Location → Location → Intervals → Intervals

-- The values of an object's integer extensions, by type.
abbrev pub Extensions : Type 0
Extensions = ℕ → Option ℕ

-- The statuses that the cache tells apart.
pub data ObjectStatus : Type 0 where
  normal end_of_group end_of_track : ObjectStatus
  other_status : ℕ → ObjectStatus

abbrev pub same_status : ObjectStatus → ObjectStatus → Bool
same_status normal normal = true
same_status end_of_group end_of_group = true
same_status end_of_track end_of_track = true
same_status (other_status m) (other_status n) = m == n
same_status s t = false

abbrev pub Payload : Type 0
Payload = Option Str

-- `payload ? payload->computeChainDataLength() : 0`.
abbrev pub payload_length : Payload → ℕ
payload_length none = 0
payload_length (some bytes) = length bytes

pub record CacheEntry : Type 0 where
  pub subgroup : ℕ
  pub status : ObjectStatus
  pub extensions : Extensions
  pub payload : Payload
  pub payload_size : ℕ
  pub is_complete : Bool
  pub forwarding_preference_is_datagram : Bool
  pub cached_at : ℕ

-- The iterators are flags.
pub record CacheGroup : Type 0 where
  pub objects : List (ℕ × CacheEntry)
  pub max_cached_object : ℕ
  pub group_ended : Bool
  pub seen_prior_group_id_gap : Option ℕ
  pub total_bytes : ℕ
  pub lru_iter : Bool
  pub global_lru_iter : Bool

-- A fetch from upstream, with its writeback's identity.
pub record FetchInProgressEntry : Type 0 where
  pub end : Location
  pub progress : Location
  pub writeback : ℕ

pub record CacheTrack (L : Locations) : Type 0 where
  pub groups : List (ℕ × CacheGroup)
  pub gaps : L.Intervals
  pub cached_content : L.Intervals
  pub live_writeback_count : ℕ
  pub track_ended : Bool
  pub largest_group_and_object : Option Location
  pub fetches_in_progress : List (Location × FetchInProgressEntry)
  pub track_lru_iter : Bool
  pub group_lru : List ℕ
  pub max_cache_duration : Option ℕ
  pub track_extensions : Extensions
  pub evicted : Bool
  pub last_write : Option ℕ

-- A duration is in milliseconds. A limit of zero is none.
pub record MoqxCache (L : Locations) (Ftn : Type 0) : Type 0 where
  pub tracks : List (Ftn × CacheTrack L)
  pub track_lru : List Ftn
  pub global_group_lru : List (Ftn × ℕ)
  pub max_cached_tracks : ℕ
  pub max_cached_groups_per_track : ℕ
  pub max_cached_bytes : ℕ
  pub min_eviction_bytes : ℕ
  pub total_cached_bytes : ℕ
  pub default_max_cache_duration : Option ℕ
  pub max_allowed_cache_duration : Option ℕ

abbrev pub new_group : CacheGroup
new_group = record {
  objects = [];
  max_cached_object = 0;
  group_ended = false;
  seen_prior_group_id_gap = none;
  total_bytes = 0;
  lru_iter = false;
  global_lru_iter = false;
}

abbrev pub new_track : (L : Locations) → CacheTrack L
new_track L = record {
  groups = [];
  gaps = L.no_intervals;
  cached_content = L.no_intervals;
  live_writeback_count = 0;
  track_ended = false;
  largest_group_and_object = none;
  fetches_in_progress = [];
  track_lru_iter = false;
  group_lru = [];
  max_cache_duration = none;
  track_extensions = λ t. none;
  evicted = false;
  last_write = none;
}

-- `a -= b` on a `size_t`.
abbrev pub subtract : ℕ → ℕ → ℕ
subtract a b = if ltb a b then a + 18446744073709551616 - b else a - b

abbrev pub no_fetches : List (Location × FetchInProgressEntry) → Bool
no_fetches [] = true
no_fetches (f ∷ fs) = false

abbrev pub is_zero : Option ℕ → Bool
is_zero none = false
is_zero (some d) = d == 0

module _ {L : Locations} where
  -- `insertGap`.
  abbrev pub insert_gap : Location → Location → CacheTrack L → CacheTrack L
  insert_gap start end t = record t {
    gaps = L.insert_interval start end t.gaps;
    cached_content = L.insert_interval start end t.cached_content;
  }

  -- The group that `getOrCreateGroup` returns.
  abbrev pub group_of : ℕ → CacheTrack L → CacheGroup
  group_of g t = value_or (lookup ℕ_discrete g t.groups) new_group

  abbrev pub put_group : ℕ → CacheGroup → CacheTrack L → CacheTrack L
  put_group g group t = record t { groups = assign ℕ_discrete g group t.groups }

  -- `canEvict`.
  abbrev pub can_evict : CacheTrack L → Bool
  can_evict t = (t.live_writeback_count == 0) && no_fetches t.fetches_in_progress

  -- `shouldSkipCaching`.
  abbrev pub should_skip_caching : CacheTrack L → Bool
  should_skip_caching t = t.evicted || is_zero t.max_cache_duration
