-- ===== src/Cache/Iterators.antt =====
-- MoqxCache: a write leaves the groups their iterators into the global list.
use moq_testbed.Prelude.{
  ℕ, ◌-◌, ◌≡◌, refl, sym, ◌∙◌, ap, Bool, true, false, Option, none, some, List, [], ◌∷◌, ltb, leb,
  ◌==◌, min, lookup, ℕ_discrete, if_pos, if_neg, Bool-cases, Option-cases, inl, inr, arith,
  true≢false,
}
use moq_testbed.Prelude.Assoc.{value_or, emplace, lookup-assign}
use moq_testbed.Cache.State.{
  Location, Locations, CacheEntry, CacheGroup, CacheTrack, ObjectStatus, normal, end_of_group,
  end_of_track, other_status, new_group, group_of, put_group,
}
use moq_testbed.Cache.Objects.{
  NewObject, cache_object, get_or_create_group, process_gap_extensions, process_group_gap,
  process_object_gap, first_group_gap, covers_group, covers_object, close, with_object, with_max,
  insert_rest, note_complete, store, write_object, mismatch, max_gap_validation,
}

abbrev pub has_iter : Option CacheGroup → Bool
has_iter none = false
has_iter (some group) = group.global_lru_iter

has_iter-value_or :
    (o : Option CacheGroup) → has_iter o ≡ true → (value_or o new_group).global_lru_iter ≡ true
has_iter-value_or none h = absurd (true≢false (sym h))
has_iter-value_or (some group) h = h

has_iter-emplace :
    (g i : ℕ) (group : CacheGroup) (groups : List (ℕ × CacheGroup))
    → has_iter (lookup ℕ_discrete i groups) ≡ true
    → has_iter (lookup ℕ_discrete i (emplace ℕ_discrete g group groups)) ≡ true
unfolding emplace lookup
has_iter-emplace g i group [] h = absurd (true≢false (sym h))
has_iter-emplace g i group ((j, x) ∷ groups) h =
    ground (arith, h, has_iter-emplace g i group groups)

with_object-iter :
    (n : NewObject) (old : Option CacheEntry) (group : CacheGroup)
    → (with_object n old group).global_lru_iter ≡ group.global_lru_iter
with_object-iter n none group = refl
with_object-iter n (some e) group = refl

with_max-iter :
    (n : NewObject) (group : CacheGroup)
    → (with_max n group).global_lru_iter ≡ group.global_lru_iter
with_max-iter n group = elim (Bool-cases (leb group.max_cached_object n.object_id)) [
  | inl e ↦ rw e refl
  | inr e ↦ rw e refl
]

module _ {L : Locations} where
  -- Each group that has an iterator is still there, and has it.
  abbrev pub KeepsIters : CacheTrack L → CacheTrack L → Type 0
  KeepsIters t u =
      (i : ℕ)
      → has_iter (lookup ℕ_discrete i t.groups) ≡ true
      → has_iter (lookup ℕ_discrete i u.groups) ≡ true

  same_iters : (t : CacheTrack L) → KeepsIters t t
  same_iters t i h = h

  put_group-KeepsIters :
      (g : ℕ) (group : CacheGroup) (t : CacheTrack L)
      → group.global_lru_iter ≡ (group_of g t).global_lru_iter
      → KeepsIters t (put_group g group t)
  put_group-KeepsIters g group t same i h = elim (ℕ_discrete g i) [
    | yes e ↦
        ap has_iter (
          lookup-assign ℕ_discrete g i group t.groups
          ∙ if_pos (ℕ_discrete g i) e (some group) (lookup ℕ_discrete i t.groups))
        ∙ same
        ∙ ap (λ j. (group_of j t).global_lru_iter) e
        ∙ has_iter-value_or (lookup ℕ_discrete i t.groups) h
    | no ne ↦
        ap has_iter (
          lookup-assign ℕ_discrete g i group t.groups
          ∙ if_neg (ℕ_discrete g i) ne (some group) (lookup ℕ_discrete i t.groups))
        ∙ h
  ]

  get_or_create_group-KeepsIters :
      (g : ℕ) (t : CacheTrack L) → KeepsIters t (get_or_create_group g t)
  unfolding get_or_create_group
  get_or_create_group-KeepsIters g t i h = has_iter-emplace g i new_group t.groups h

  first_group_gap-KeepsIters :
      (g gap : ℕ) (t : CacheTrack L) → KeepsIters t (first_group_gap g gap t).0
  first_group_gap-KeepsIters g gap t i h = elim (Bool-cases (gap == 0)) [
    | inl e ↦ rw e h
    | inr e ↦
        let count = min gap max_gap_validation in
        elim (Bool-cases (covers_group count (g - count) t.groups)) [
          | inl y ↦ rw (e, y) h
          | inr y ↦ rw (e, y) h
        ]
  ]

  process_group_gap-KeepsIters :
      (g : ℕ) (gap : Option ℕ) (t : CacheTrack L) → KeepsIters t (process_group_gap g gap t).0
  process_group_gap-KeepsIters g none t i h = h
  process_group_gap-KeepsIters g (some gap) t i h =
      let made = get_or_create_group g t in
      let first = get_or_create_group-KeepsIters g t i h in
      elim (Bool-cases (ltb g gap)) [
        | inl e ↦ rw e h
        | inr e ↦ elim (Option-cases (group_of g made).seen_prior_group_id_gap) [
          | inl new ↦
              let mark = record (group_of g made) { seen_prior_group_id_gap = some gap } in
              let seen : CacheTrack L = put_group g mark made in
              rw (e, new)
                (first_group_gap-KeepsIters g gap seen i
                  (put_group-KeepsIters g mark made refl i first))
          | inr (seen, old) ↦ elim (Bool-cases (seen == gap)) [
            | inl y ↦ rw (e, old, y) first
            | inr y ↦ rw (e, old, y) first
          ]
        ]
      ]

  process_object_gap-KeepsIters :
      (g o : ℕ) (gap : Option ℕ) (t : CacheTrack L) → KeepsIters t (process_object_gap g o gap t).0
  process_object_gap-KeepsIters g o none t i h = h
  process_object_gap-KeepsIters g o (some gap) t i h =
      let made = get_or_create_group g t in
      let first = get_or_create_group-KeepsIters g t i h in
      elim (Bool-cases (ltb o gap)) [
        | inl e ↦ rw e h
        | inr e ↦ elim (Bool-cases (gap == 0)) [
          | inl z ↦ rw (e, z) h
          | inr z ↦
              let count = min gap max_gap_validation in
              elim (Bool-cases (covers_object count (o - count) (group_of g made).objects)) [
                | inl y ↦ rw (e, z, y) first
                | inr y ↦ rw (e, z, y) first
              ]
        ]
      ]

  process_gap_extensions-KeepsIters :
      (g o : ℕ) (extensions : ℕ → Option ℕ) (t : CacheTrack L)
      → KeepsIters t (process_gap_extensions g o extensions t).0
  unfolding process_gap_extensions
  process_gap_extensions-KeepsIters g o extensions t i h =
      let r = process_group_gap g (extensions 60) t in
      let one = process_group_gap-KeepsIters g (extensions 60) t i h in
      elim (Option-cases r.1) [
        | inl e ↦
            rw (e, process_gap_extensions)
              (process_object_gap-KeepsIters g o (extensions 62) r.0 i one)
        | inr (error, e) ↦ rw (e, process_gap_extensions) one
      ]

  insert_rest-KeepsIters :
      (start : Option Location) (end : Location) (t : CacheTrack L)
      → KeepsIters t (insert_rest start end t)
  insert_rest-KeepsIters none end t i h = h
  insert_rest-KeepsIters (some start) end t i h = h

  end_group-KeepsIters :
      (g : ℕ) (t : CacheTrack L)
      → KeepsIters t (put_group g (record (group_of g t) { group_ended = true }) t)
  end_group-KeepsIters g t =
      put_group-KeepsIters g (record (group_of g t) { group_ended = true }) t refl

  close-KeepsIters :
      (status : ObjectStatus) (g o : ℕ) (t : CacheTrack L) → KeepsIters t (close status g o t)
  close-KeepsIters normal g o t i h = h
  close-KeepsIters end_of_group g o t i h =
      let start = L.next_in_group (g, o) in
      let u : CacheTrack L = insert_rest start (g, L.location_max.1) t in
      end_group-KeepsIters g u i (insert_rest-KeepsIters start (g, L.location_max.1) t i h)
  close-KeepsIters end_of_track g o t i h =
      let start = L.next_in_group (g, o) in
      let u : CacheTrack L = insert_rest start (g, L.location_max.1) t in
      let v : CacheTrack L = insert_rest (L.next_group (g, 0)) L.location_max u in
      end_group-KeepsIters g v i (
        insert_rest-KeepsIters (L.next_group (g, 0)) L.location_max u i
          (insert_rest-KeepsIters start (g, L.location_max.1) t i h))
  close-KeepsIters (other_status n) g o t i h = h

  note_complete-KeepsIters : (n : NewObject) (t : CacheTrack L) → KeepsIters t (note_complete n t)
  note_complete-KeepsIters n t i h = elim (Bool-cases n.object_complete) [
    | inl e ↦ rw e h
    | inr e ↦ rw e h
  ]

  store-KeepsIters :
      (n : NewObject) (old : Option CacheEntry) (t : CacheTrack L) → KeepsIters t (store n old t)
  store-KeepsIters n old t i h =
      let group = with_max n (with_object n old (group_of n.group_id t)) in
      let same =
        with_max-iter n (with_object n old (group_of n.group_id t))
        ∙ with_object-iter n old (group_of n.group_id t) in
      note_complete-KeepsIters n (put_group n.group_id group t) i
        (put_group-KeepsIters n.group_id group t same i h)

  write_object-KeepsIters : (n : NewObject) (t : CacheTrack L) → KeepsIters t (write_object n t).0
  write_object-KeepsIters n t i h =
      let group = group_of n.group_id t in
      elim (Option-cases (lookup ℕ_discrete n.object_id group.objects)) [
        | inl e ↦ rw (e, write_object) (store-KeepsIters n none t i h)
        | inr (old, e) ↦
            elim (Option-cases (mismatch n.object_status n.object_payload n.is_datagram old)) [
              | inr (error, y) ↦ rw (e, write_object) rw y h
              | inl y ↦ rw (e, write_object) rw y (store-KeepsIters n (some old) t i h)
            ]
      ]

  pub cache_object-KeepsIters :
      (n : NewObject) (t : CacheTrack L) → KeepsIters t (cache_object n t).0
  unfolding cache_object
  cache_object-KeepsIters n t i h =
      let g = n.group_id in
      let gapped = process_gap_extensions g n.object_id n.object_extensions t in
      let kept = process_gap_extensions-KeepsIters g n.object_id n.object_extensions t i h in
      elim (Bool-cases (L.has_location t.gaps (g, n.object_id))) [
        | inl e ↦ rw (e, cache_object) h
        | inr e ↦ elim (Option-cases gapped.1) [
          | inr (error, y) ↦ rw (e, cache_object) rw y kept
          | inl y ↦
              let closed = close n.object_status g n.object_id gapped.0 in
              rw (e, cache_object) rw y
                (write_object-KeepsIters n closed i
                  (close-KeepsIters n.object_status g n.object_id gapped.0 i kept))
        ]
      ]
