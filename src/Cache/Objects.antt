-- ===== src/Cache/Objects.antt =====
-- MoqxCache::CacheGroup::cacheObject and the CacheTrack operations that it stands on. An operation
-- returns the track, which it has changed also where it fails, and the error.
use moq_testbed.Prelude.{
  ℕ, zero, suc, ◌+◌, ◌-◌, min, Bool, true, false, not, ◌&&◌, ◌||◌, Option, none, some, List, [],
  ◌∷◌, ltb, leb, ◌==◌, lookup, ℕ_discrete, if◌then◌else◌,
}
use moq_testbed.Prelude.Assoc.{assign, emplace, is_some}
use moq_testbed.Cache.State.{
  Location, after, same_location, Locations, Extensions, ObjectStatus, normal, end_of_group,
  end_of_track, same_status, Payload, payload_length, CacheEntry, CacheGroup, CacheTrack, new_group,
  subtract, insert_gap, group_of, put_group,
}

-- The reasons of a `MALFORMED_TRACK`.
pub data MalformedTrack : Type 0 where
  object_in_known_gap group_gap_too_large group_gap_inconsistent group_gap_covers_object
        object_gap_too_large object_gap_covers_object status_change payload_mismatch
        forwarding_preference_mismatch object_past_end end_not_largest :
      MalformedTrack

abbrev pub prior_group_id_gap : ℕ
prior_group_id_gap = 60

abbrev pub prior_object_id_gap : ℕ
prior_object_id_gap = 62

-- `kMaxGapValidation`.
abbrev pub max_gap_validation : ℕ
max_gap_validation = 100

-- A group with an object among `count` groups from `g` on.
unfoldable pub covers_group : ℕ → ℕ → List (ℕ × CacheGroup) → Bool
covers_group zero g groups = false
covers_group (suc count) g groups =
    let later = covers_group count (g + 1) groups in
    elim (lookup ℕ_discrete g groups) [
      | none ↦ later
      | some group ↦ elim group.objects [ [] ↦ later | o ∷ os ↦ true ]
    ]

-- An object among `count` objects from `o` on.
unfoldable pub covers_object : ℕ → ℕ → List (ℕ × CacheEntry) → Bool
covers_object zero o objects = false
covers_object (suc count) o objects =
    let later = covers_object count (o + 1) objects in
    elim (lookup ℕ_discrete o objects) [ none ↦ later | some e ↦ true ]

module _ {L : Locations} where
  -- `updateLargest`.
  unfoldable pub update_largest :
      Location → Bool → CacheTrack L → CacheTrack L × Option MalformedTrack
  update_largest current eot t = elim t.largest_group_and_object [
    | none ↦
        if t.track_ended
        then (t, some object_past_end)
        else (record t { track_ended = eot; largest_group_and_object = some current }, none)
    | some largest ↦
        if after current largest
        then if t.track_ended
          then (t, some object_past_end)
          else (record t { track_ended = eot; largest_group_and_object = some current }, none)
        else if eot && not (same_location current largest)
        then (t, some end_not_largest)
        else (t, none)
  ]

  -- `getOrCreateGroup`.
  unfoldable pub get_or_create_group : ℕ → CacheTrack L → CacheTrack L
  get_or_create_group g t = record t { groups = emplace ℕ_discrete g new_group t.groups }

  abbrev see_gap : ℕ → ℕ → CacheTrack L → CacheTrack L
  see_gap g gap t = put_group g (record (group_of g t) { seen_prior_group_id_gap = some gap }) t

  -- The first time that a group tells of a gap of groups before it.
  abbrev pub first_group_gap : ℕ → ℕ → CacheTrack L → CacheTrack L × Option MalformedTrack
  first_group_gap g gap t =
      if gap == 0
      then (t, none)
      else let count = min gap max_gap_validation in
        if covers_group count (g - count) t.groups
        then (t, some group_gap_covers_object)
        else (insert_gap (g - gap, 0) (g - 1, L.location_max.1) t, none)

  abbrev pub process_group_gap : ℕ → Option ℕ → CacheTrack L → CacheTrack L × Option MalformedTrack
  process_group_gap g none t = (t, none)
  process_group_gap g (some gap) t =
      if ltb g gap
      then (t, some group_gap_too_large)
      else let made = get_or_create_group g t in
        elim (group_of g made).seen_prior_group_id_gap [
          | some seen ↦ if seen == gap then (made, none) else (made, some group_gap_inconsistent)
          | none ↦ first_group_gap g gap (see_gap g gap made)
        ]

  abbrev pub process_object_gap :
      ℕ → ℕ → Option ℕ → CacheTrack L → CacheTrack L × Option MalformedTrack
  process_object_gap g o none t = (t, none)
  process_object_gap g o (some gap) t =
      if ltb o gap
      then (t, some object_gap_too_large)
      else if gap == 0
      then (t, none)
      else let made = get_or_create_group g t in
        let count = min gap max_gap_validation in
        if covers_object count (o - count) (group_of g made).objects
        then (made, some object_gap_covers_object)
        else (insert_gap (g, o - gap) (g, o - 1) made, none)

  -- `processGapExtensions`.
  unfoldable pub process_gap_extensions :
      ℕ → ℕ → Extensions → CacheTrack L → CacheTrack L × Option MalformedTrack
  process_gap_extensions g o extensions t =
      let groups = process_group_gap g (extensions prior_group_id_gap) t in
      elim groups.1 [
        | some e ↦ groups
        | none ↦ process_object_gap g o (extensions prior_object_id_gap) groups.0
      ]

  abbrev pub insert_rest : Option Location → Location → CacheTrack L → CacheTrack L
  insert_rest none end t = t
  insert_rest (some start) end t = insert_gap start end t

  abbrev end_group : ℕ → CacheTrack L → CacheTrack L
  end_group g t = put_group g (record (group_of g t) { group_ended = true }) t

  -- The gaps after an END_OF_GROUP or END_OF_TRACK.
  abbrev pub close : ObjectStatus → ℕ → ℕ → CacheTrack L → CacheTrack L
  close end_of_group g o t =
      end_group g (insert_rest (L.next_in_group (g, o)) (g, L.location_max.1) t)
  close end_of_track g o t = end_group g (
      insert_rest (L.next_group (g, 0)) L.location_max
        (insert_rest (L.next_in_group (g, o)) (g, L.location_max.1) t))
  close status g o t = t

abbrev pub is_normal : ObjectStatus → Bool
is_normal normal = true
is_normal status = false

abbrev pub payload_differs : Payload → CacheEntry → Bool
payload_differs p e =
    not (is_some p) && is_some e.payload
    || is_some p && not (is_some e.payload)
    || is_some p && is_some e.payload && not (payload_length p == e.payload_size)

-- Why an object that is cached cannot be written again.
abbrev pub mismatch : ObjectStatus → Payload → Bool → CacheEntry → Option MalformedTrack
mismatch status p datagram e =
    if not (same_status status e.status)
    then some status_change
    else if is_normal status && e.is_complete && payload_differs p e
    then some payload_mismatch
    else if (if datagram
        then e.forwarding_preference_is_datagram
        else not e.forwarding_preference_is_datagram)
    then none
    else some forwarding_preference_mismatch

-- What `cacheObject` is given.
pub record NewObject : Type 0 where
  pub group_id : ℕ
  pub subgroup_id : ℕ
  pub object_id : ℕ
  pub object_status : ObjectStatus
  pub object_extensions : Extensions
  pub object_payload : Payload
  pub object_complete : Bool
  pub is_datagram : Bool
  pub now : ℕ

abbrev pub rewritten : NewObject → CacheEntry → CacheEntry
rewritten n e = record e {
  status = n.object_status;
  extensions = n.object_extensions;
  payload = n.object_payload;
  payload_size = payload_length n.object_payload;
  is_complete = n.object_complete;
  cached_at = n.now;
}

abbrev pub entry_for : NewObject → CacheEntry
entry_for n = record {
  subgroup = n.subgroup_id;
  status = n.object_status;
  extensions = n.object_extensions;
  payload = n.object_payload;
  payload_size = payload_length n.object_payload;
  is_complete = n.object_complete;
  forwarding_preference_is_datagram = n.is_datagram;
  cached_at = n.now;
}

-- The group with the object in it, in place of one that is there.
abbrev pub with_object : NewObject → Option CacheEntry → CacheGroup → CacheGroup
with_object n none group = record group {
  total_bytes = group.total_bytes + payload_length n.object_payload;
  objects = assign ℕ_discrete n.object_id (entry_for n) group.objects;
}
with_object n (some e) group = record group {
  total_bytes = subtract group.total_bytes e.payload_size + payload_length n.object_payload;
  objects = assign ℕ_discrete n.object_id (rewritten n e) group.objects;
}

abbrev pub with_max : NewObject → CacheGroup → CacheGroup
with_max n group =
    if leb group.max_cached_object n.object_id
    then record group { max_cached_object = n.object_id }
    else group

module _ {L : Locations} where
  abbrev pub note_complete : NewObject → CacheTrack L → CacheTrack L
  note_complete n t =
      if n.object_complete
      then record t {
        cached_content =
            L.insert_interval (n.group_id, n.object_id) (n.group_id, n.object_id) t.cached_content;
      }
      else t

  abbrev pub store : NewObject → Option CacheEntry → CacheTrack L → CacheTrack L
  store n old t =
      note_complete n
        (put_group n.group_id (with_max n (with_object n old (group_of n.group_id t))) t)

  -- The part of `cacheObject` after the gaps.
  abbrev pub write_object : NewObject → CacheTrack L → CacheTrack L × Option MalformedTrack
  write_object n t = elim (lookup ℕ_discrete n.object_id (group_of n.group_id t).objects) [
    | none ↦ (store n none t, none)
    | some e ↦ elim (mismatch n.object_status n.object_payload n.is_datagram e) [
      | some error ↦ (t, some error)
      | none ↦ (store n (some e) t, none)
    ]
  ]

  -- `cacheObject`.
  unfoldable pub cache_object : NewObject → CacheTrack L → CacheTrack L × Option MalformedTrack
  cache_object n t =
      if L.has_location t.gaps (n.group_id, n.object_id)
      then (t, some object_in_known_gap)
      else let gapped = process_gap_extensions n.group_id n.object_id n.object_extensions t in
        elim gapped.1 [
          | some e ↦ gapped
          | none ↦ write_object n (close n.object_status n.group_id n.object_id gapped.0)
        ]
