-- ===== src/Cache/Bytes.antt =====
-- MoqxCache: the bytes that a track's groups hold, through `cacheObject`.
use moq_testbed.Prelude.{
  ℕ, ◌+◌, ◌-◌, ◌≤◌, ◌≡◌, refl, ◌∙◌, ap, true, Option, none, some, ltb, leb, ◌==◌, min, lookup,
  ℕ_discrete, if_pos, Bool-cases, Option-cases, inl, inr, arith,
}
use moq_testbed.Prelude.Assoc.{value_or, lookup-assign}
use moq_testbed.Cache.State.{
  Location, Locations, CacheEntry, CacheGroup, CacheTrack, ObjectStatus, normal, end_of_group,
  end_of_track, other_status, new_group, group_of, put_group, subtract,
}
use moq_testbed.Cache.Objects.{
  NewObject, MalformedTrack, cache_object, get_or_create_group, process_gap_extensions,
  process_group_gap, process_object_gap, first_group_gap, covers_group, covers_object, close,
  with_object, with_max, insert_rest, note_complete, store, write_object, mismatch, entry_for,
  rewritten, max_gap_validation,
}
use moq_testbed.Cache.Sums.{
  sum_by, AllValues, weight_at, sum_by-assign, sum_by-emplace, weight_at-sum_by, lookup-emplace,
  assign-AllValues, emplace-AllValues, lookup-AllValues,
}

abbrev pub object_bytes : CacheEntry → ℕ
object_bytes e = e.payload_size

-- A group's total is that of its objects.
abbrev pub IsSummed : CacheGroup → Type 0
IsSummed group = group.total_bytes ≡ sum_by object_bytes group.objects

abbrev pub group_bytes : CacheGroup → ℕ
group_bytes group = group.total_bytes

new_group-IsSummed : IsSummed new_group
new_group-IsSummed = refl

pub weight_at-group :
    (o : Option CacheGroup) → weight_at group_bytes o ≡ (value_or o new_group).total_bytes
weight_at-group none = refl
weight_at-group (some group) = refl

module _ {L : Locations} where
  abbrev pub track_bytes : CacheTrack L → ℕ
  track_bytes t = sum_by group_bytes t.groups

  abbrev pub IsTrackSummed : CacheTrack L → Type 0
  IsTrackSummed t = AllValues IsSummed t.groups

  pub group_of-IsSummed : (g : ℕ) (t : CacheTrack L) → IsTrackSummed t → IsSummed (group_of g t)
  group_of-IsSummed g t h = elim (Option-cases (lookup ℕ_discrete g t.groups)) [
    | inl e ↦ rw e refl
    | inr (group, e) ↦ rw e (lookup-AllValues ℕ_discrete IsSummed g group t.groups h e)
  ]

  -- The groups stay summed, and only the one group's bytes change those of the track.
  abbrev pub Moves : ℕ → CacheTrack L → CacheTrack L → Type 0
  Moves g t u =
      IsTrackSummed u
      × (track_bytes u + (group_of g t).total_bytes ≡ track_bytes t + (group_of g u).total_bytes)

  -- The groups stay summed, and no bytes change.
  abbrev pub Keeps : ℕ → CacheTrack L → CacheTrack L → Type 0
  Keeps g t u =
      IsTrackSummed u
      × ((track_bytes u ≡ track_bytes t)
          × ((group_of g u).total_bytes ≡ (group_of g t).total_bytes))

  Keeps-trans : (g : ℕ) (t u v : CacheTrack L) → Keeps g t u → Keeps g u v → Keeps g t v
  Keeps-trans g t u v (a, (b, c)) (d, (e, f)) = (d, (e ∙ b, f ∙ c))

  Keeps-Moves : (g : ℕ) (t u v : CacheTrack L) → Keeps g t u → Moves g u v → Moves g t v
  Keeps-Moves g t u v (a, (b, c)) (d, e) = (d, omega arith)

  pub group_of-put_group :
      (g : ℕ) (group : CacheGroup) (t : CacheTrack L) → group_of g (put_group g group t) ≡ group
  group_of-put_group g group t =
      rw (lookup-assign ℕ_discrete g g group t.groups, if_pos _ refl) refl

  pub put_group-Moves :
      (g : ℕ) (group : CacheGroup) (t : CacheTrack L)
      → IsSummed group
      → IsTrackSummed t
      → Moves g t (put_group g group t)
  put_group-Moves g group t s h = (
    assign-AllValues ℕ_discrete IsSummed g group t.groups s h,
    omega (
      arith,
      sum_by-assign ℕ_discrete g group_bytes group t.groups,
      weight_at-group (lookup ℕ_discrete g t.groups),
      ap group_bytes (group_of-put_group g group t),
    ),
  )

  put_group-Keeps :
      (g : ℕ) (group : CacheGroup) (t : CacheTrack L)
      → IsSummed group
      → group.total_bytes ≡ (group_of g t).total_bytes
      → IsTrackSummed t
      → Keeps g t (put_group g group t)
  put_group-Keeps g group t s same h =
      let moved = put_group-Moves g group t s h in
      let here = ap group_bytes (group_of-put_group g group t) in
      (moved.0, (omega (arith, moved.1, here), here ∙ same))

  get_or_create_group-Keeps :
      (g : ℕ) (t : CacheTrack L) → IsTrackSummed t → Keeps g t (get_or_create_group g t)
  unfolding get_or_create_group
  get_or_create_group-Keeps g t h = (
    emplace-AllValues ℕ_discrete IsSummed g new_group t.groups refl h,
    (
      sum_by-emplace ℕ_discrete g group_bytes new_group t.groups refl,
      ap group_bytes (lookup-emplace ℕ_discrete g new_group t.groups),
    ),
  )

  first_group_gap-Keeps :
      (g gap : ℕ) (t : CacheTrack L) → IsTrackSummed t → Keeps g t (first_group_gap g gap t).0
  first_group_gap-Keeps g gap t h = elim (Bool-cases (gap == 0)) [
    | inl e ↦ rw e (h, (refl, refl))
    | inr e ↦
        let count = min gap max_gap_validation in
        elim (Bool-cases (covers_group count (g - count) t.groups)) [
          | inl y ↦ rw (e, y) (h, (refl, refl))
          | inr y ↦ rw (e, y) (h, (refl, refl))
        ]
  ]

  see_gap-Keeps :
      (g gap : ℕ) (t : CacheTrack L)
      → IsTrackSummed t
      → Keeps g t (put_group g (record (group_of g t) { seen_prior_group_id_gap = some gap }) t)
  see_gap-Keeps g gap t h =
      put_group-Keeps g (record (group_of g t) { seen_prior_group_id_gap = some gap }) t
        (group_of-IsSummed g t h) refl h

  process_group_gap-Keeps :
      (g : ℕ) (gap : Option ℕ) (t : CacheTrack L)
      → IsTrackSummed t
      → Keeps g t (process_group_gap g gap t).0
  process_group_gap-Keeps g none t h = (h, (refl, refl))
  process_group_gap-Keeps g (some gap) t h =
      let made = get_or_create_group g t in
      let first = get_or_create_group-Keeps g t h in
      elim (Bool-cases (ltb g gap)) [
        | inl e ↦ rw e (h, (refl, refl))
        | inr e ↦ elim (Option-cases (group_of g made).seen_prior_group_id_gap) [
          | inl new ↦
              let seen : CacheTrack L =
                put_group g (record (group_of g made) { seen_prior_group_id_gap = some gap })
                  made in
              let kept = see_gap-Keeps g gap made first.0 in
              rw (e, new)
                (Keeps-trans g t made (first_group_gap g gap seen).0 first (
                  Keeps-trans g made seen (first_group_gap g gap seen).0 kept
                    (first_group_gap-Keeps g gap seen kept.0)))
          | inr (seen, old) ↦ elim (Bool-cases (seen == gap)) [
            | inl y ↦ rw (e, old, y) first
            | inr y ↦ rw (e, old, y) first
          ]
        ]
      ]

  process_object_gap-Keeps :
      (g o : ℕ) (gap : Option ℕ) (t : CacheTrack L)
      → IsTrackSummed t
      → Keeps g t (process_object_gap g o gap t).0
  process_object_gap-Keeps g o none t h = (h, (refl, refl))
  process_object_gap-Keeps g o (some gap) t h =
      let made = get_or_create_group g t in
      let first = get_or_create_group-Keeps g t h in
      elim (Bool-cases (ltb o gap)) [
        | inl e ↦ rw e (h, (refl, refl))
        | inr e ↦ elim (Bool-cases (gap == 0)) [
          | inl z ↦ rw (e, z) (h, (refl, refl))
          | inr z ↦
              let count = min gap max_gap_validation in
              elim (Bool-cases (covers_object count (o - count) (group_of g made).objects)) [
                | inl y ↦ rw (e, z, y) first
                | inr y ↦ rw (e, z, y) first
              ]
        ]
      ]

  process_gap_extensions-Keeps :
      (g o : ℕ) (extensions : ℕ → Option ℕ) (t : CacheTrack L)
      → IsTrackSummed t
      → Keeps g t (process_gap_extensions g o extensions t).0
  unfolding process_gap_extensions
  process_gap_extensions-Keeps g o extensions t h =
      let r = process_group_gap g (extensions 60) t in
      let one = process_group_gap-Keeps g (extensions 60) t h in
      elim (Option-cases r.1) [
        | inl e ↦
            rw (e, process_gap_extensions)
              (Keeps-trans g t r.0 (process_object_gap g o (extensions 62) r.0).0 one
                (process_object_gap-Keeps g o (extensions 62) r.0 one.0))
        | inr (error, e) ↦ rw (e, process_gap_extensions) one
      ]

  end_group-Keeps :
      (g : ℕ) (t : CacheTrack L)
      → IsTrackSummed t
      → Keeps g t (put_group g (record (group_of g t) { group_ended = true }) t)
  end_group-Keeps g t h =
      put_group-Keeps g (record (group_of g t) { group_ended = true }) t (group_of-IsSummed g t h)
        refl h

  insert_rest-Keeps :
      (g : ℕ) (start : Option Location) (end : Location) (t : CacheTrack L)
      → IsTrackSummed t
      → Keeps g t (insert_rest start end t)
  insert_rest-Keeps g none end t h = (h, (refl, refl))
  insert_rest-Keeps g (some start) end t h = (h, (refl, refl))

  pub close-Keeps :
      (status : ObjectStatus) (g o : ℕ) (t : CacheTrack L)
      → IsTrackSummed t
      → Keeps g t (close status g o t)
  close-Keeps normal g o t h = (h, (refl, refl))
  close-Keeps end_of_group g o t h =
      let u : CacheTrack L = insert_rest (L.next_in_group (g, o)) (g, L.location_max.1) t in
      let one = insert_rest-Keeps g (L.next_in_group (g, o)) (g, L.location_max.1) t h in
      Keeps-trans g t u (close end_of_group g o t) one (end_group-Keeps g u one.0)
  close-Keeps end_of_track g o t h =
      let u : CacheTrack L = insert_rest (L.next_in_group (g, o)) (g, L.location_max.1) t in
      let v : CacheTrack L = insert_rest (L.next_group (g, 0)) L.location_max u in
      let one = insert_rest-Keeps g (L.next_in_group (g, o)) (g, L.location_max.1) t h in
      let two = insert_rest-Keeps g (L.next_group (g, 0)) L.location_max u one.0 in
      Keeps-trans g t v (close end_of_track g o t) (Keeps-trans g t u v one two)
        (end_group-Keeps g v two.0)
  close-Keeps (other_status n) g o t h = (h, (refl, refl))

pub subtract-le : (a b : ℕ) → b ≤ a → subtract a b ≡ a - b
subtract-le a b h = ground arith

with_object-IsSummed :
    (n : NewObject) (old : Option CacheEntry) (group : CacheGroup)
    → lookup ℕ_discrete n.object_id group.objects ≡ old
    → IsSummed group
    → IsSummed (with_object n old group)
with_object-IsSummed n none group e h =
    let sums = sum_by-assign ℕ_discrete n.object_id object_bytes (entry_for n) group.objects in
    let zero_there = ap (weight_at object_bytes) e in omega (arith, sums, zero_there, h)
with_object-IsSummed n (some old) group e h =
    let sums = sum_by-assign ℕ_discrete n.object_id object_bytes (rewritten n old) group.objects in
    let there = ap (weight_at object_bytes) e in
    let less = weight_at-sum_by ℕ_discrete n.object_id object_bytes group.objects in
    let enough : old.payload_size ≤ group.total_bytes = omega (arith, there, less, h) in
    omega (arith, sums, there, subtract-le group.total_bytes old.payload_size enough, h, enough)

with_max-IsSummed :
    (n : NewObject) (group : CacheGroup) → IsSummed group → IsSummed (with_max n group)
with_max-IsSummed n group h = elim (Bool-cases (leb group.max_cached_object n.object_id)) [
  | inl e ↦ rw e h
  | inr e ↦ rw e h
]

module _ {L : Locations} where
  note_complete-Moves :
      (n : NewObject) (t u : CacheTrack L)
      → Moves n.group_id t u
      → Moves n.group_id t (note_complete n u)
  note_complete-Moves n t u h = elim (Bool-cases n.object_complete) [
    | inl e ↦ rw e h
    | inr e ↦ rw e h
  ]

  stored-Moves :
      (n : NewObject) (t : CacheTrack L) (old : Option CacheEntry)
      → IsTrackSummed t
      → lookup ℕ_discrete n.object_id (group_of n.group_id t).objects ≡ old
      → Moves n.group_id t (store n old t)
  stored-Moves n t old h e =
      let group = group_of n.group_id t in
      let made = with_max n (with_object n old group) in
      let summed = with_object-IsSummed n old group e (group_of-IsSummed n.group_id t h) in
      note_complete-Moves n t (put_group n.group_id made t)
        (put_group-Moves n.group_id made t (with_max-IsSummed n (with_object n old group) summed) h)

  -- A write that succeeds changes the one group's bytes, one that fails none.
  abbrev pub Wrote : ℕ → CacheTrack L → CacheTrack L → Option MalformedTrack → Type 0
  Wrote g t u none = Moves g t u
  Wrote g t u (some error) = Keeps g t u

  write_object-Wrote :
      (n : NewObject) (t : CacheTrack L)
      → IsTrackSummed t
      → Wrote n.group_id t (write_object n t).0 (write_object n t).1
  write_object-Wrote n t h =
      let group = group_of n.group_id t in
      elim (Option-cases (lookup ℕ_discrete n.object_id group.objects)) [
        | inl e ↦ rw (e, write_object) (stored-Moves n t none h e)
        | inr (old, e) ↦
            elim (Option-cases (mismatch n.object_status n.object_payload n.is_datagram old)) [
              | inr (error, y) ↦ rw (e, write_object) rw y (h, (refl, refl))
              | inl y ↦ rw (e, write_object) rw y (stored-Moves n t (some old) h e)
            ]
      ]

  Keeps-Wrote :
      (g : ℕ) (t u v : CacheTrack L) (o : Option MalformedTrack)
      → Keeps g t u
      → Wrote g u v o
      → Wrote g t v o
  Keeps-Wrote g t u v none h w = Keeps-Moves g t u v h w
  Keeps-Wrote g t u v (some error) h w = Keeps-trans g t u v h w

  -- A write keeps each group's total the sum of its objects' bytes. It changes the bytes of the track
  -- by those of the one group where it succeeds, and by none where it fails.
  pub cache_object-Wrote :
      (n : NewObject) (t : CacheTrack L)
      → IsTrackSummed t
      → Wrote n.group_id t (cache_object n t).0 (cache_object n t).1
  unfolding cache_object
  cache_object-Wrote n t h =
      let g = n.group_id in
      let gapped = process_gap_extensions g n.object_id n.object_extensions t in
      let kept = process_gap_extensions-Keeps g n.object_id n.object_extensions t h in
      elim (Bool-cases (L.has_location t.gaps (g, n.object_id))) [
        | inl e ↦ rw (e, cache_object) (h, (refl, refl))
        | inr e ↦ elim (Option-cases gapped.1) [
          | inr (error, y) ↦ rw (e, cache_object) rw y rw y kept
          | inl y ↦
              let closed = close n.object_status g n.object_id gapped.0 in
              let two =
                Keeps-trans g t gapped.0 closed kept
                  (close-Keeps n.object_status g n.object_id gapped.0 kept.0) in
              rw (e, cache_object) rw y
                (Keeps-Wrote g t closed (write_object n closed).0 (write_object n closed).1 two
                  (write_object-Wrote n closed two.0))
        ]
      ]
