-- ===== src/Cache/Purges.antt =====
-- MoqxCache: the accounts through evictions, purges and expiry.
use moq_testbed.Prelude.{
  ℕ, ◌+◌, ◌-◌, ◌≤◌, ◌≡◌, refl, ap, true, false, if◌then◌else◌, some, List, [], ◌∷◌, ltb, lookup,
  ℕ_discrete, Option-cases, inl, inr, arith, if_pos,
}
use moq_testbed.Prelude.Assoc.{lookup-assign}
use moq_testbed.Cache.State.{Locations, CacheGroup, CacheTrack, MoqxCache}
use moq_testbed.Cache.Eviction.{
  returns, put_track, erase_entry, erase_node, erase_group_node, evict_group, evict_groups,
  evict_track, evict_tracks, drop_group, stamp, forget,
}
use moq_testbed.Cache.Sums.{
  lookup_here, weight_at, sum_by-erase_entry, erase_entry-AllValues, lookup-AllValues,
}
use moq_testbed.Cache.Bytes.{group_bytes, IsSummed, track_bytes, IsTrackSummed}
use moq_testbed.Cache.Accounts.{
  IsAccounted, ReturnsAccounted, put_track-IsAccounted, track_bytes-bytes_of,
}

module _ (g : ℕ) (group : CacheGroup) (gs : List (ℕ × CacheGroup)) where
  head_entry : lookup ℕ_discrete g ((g, group) ∷ gs) ≡ some group
  head_entry = lookup_here ℕ_discrete g g group gs refl

  head_erased : erase_entry ℕ_discrete g ((g, group) ∷ gs) ≡ gs
  unfolding erase_entry
  head_erased = rw (if_pos _ refl) refl

module _ {L : Locations} {Ftn : Type 0} (dec : Discrete Ftn) where
  -- The track without the group, and the cache without its node.
  abbrev pub lighter : ℕ → CacheTrack L → CacheGroup → CacheTrack L
  lighter g t group = record t {
    group_lru = if group.lru_iter then erase_node ℕ_discrete g t.group_lru else t.group_lru;
    cached_content = L.remove_interval (g, 0) (g, L.location_max.1) t.cached_content;
    groups = erase_entry ℕ_discrete g t.groups;
  }

  abbrev pub unlisted : Ftn → ℕ → CacheGroup → MoqxCache L Ftn → MoqxCache L Ftn
  unlisted ftn g group c = record c {
    global_group_lru =
        if group.global_lru_iter
        then erase_group_node dec ftn g c.global_group_lru
        else c.global_group_lru;
  }

  pub drop_group-IsAccounted :
      (ftn : Ftn) (g : ℕ) (t : CacheTrack L) (group : CacheGroup) (c : MoqxCache L Ftn)
      → IsAccounted c
      → lookup dec ftn c.tracks ≡ some t
      → lookup ℕ_discrete g t.groups ≡ some group
      → (ltb c.total_cached_bytes group.total_bytes ≡ false)
        × IsAccounted (drop_group dec ftn g t group c)
  drop_group-IsAccounted ftn g t group c h e f =
      let held = track_bytes-bytes_of dec ftn t c e in
      let all = lookup-AllValues dec IsTrackSummed ftn t c.tracks h.1 e in
      let left = sum_by-erase_entry ℕ_discrete g group_bytes t.groups in
      let there = ap (weight_at group_bytes) f in
      let within : group.total_bytes ≤ c.total_cached_bytes =
        omega (arith, held, left, there, h.0) in
      (
        ground (arith, within),
        put_track-IsAccounted dec ftn t (lighter g t group) (unlisted ftn g group c)
            (c.total_cached_bytes - group.total_bytes) h e
            (erase_entry-AllValues ℕ_discrete IsSummed g t.groups all)
            (omega (arith, left, there, within)),
      )

  pub evict_group_present :
      (ftn : Ftn) (g : ℕ) (t : CacheTrack L) (group : CacheGroup) (c : MoqxCache L Ftn)
      → IsAccounted c
      → lookup dec ftn c.tracks ≡ some t
      → lookup ℕ_discrete g t.groups ≡ some group
      → evict_group dec ftn g c ≡ returns (drop_group dec ftn g t group c)
  unfolding evict_group
  evict_group_present ftn g t group c h e f =
      rw (e, evict_group) rw (f, (drop_group-IsAccounted ftn g t group c h e f).0) refl

  pub evict_group-IsAccounted :
      (ftn : Ftn) (g : ℕ) (c : MoqxCache L Ftn)
      → IsAccounted c
      → ReturnsAccounted (λ d. d) (evict_group dec ftn g c)
  unfolding evict_group
  evict_group-IsAccounted ftn g c h = elim (Option-cases (lookup dec ftn c.tracks)) [
    | inl e ↦ (c, (rw (e, evict_group) refl, h))
    | inr (t, e) ↦ elim (Option-cases (lookup ℕ_discrete g t.groups)) [
      | inl f ↦ (c, (rw (e, evict_group) rw f refl, h))
      | inr (group, f) ↦ (
        drop_group dec ftn g t group c,
        (
          evict_group_present ftn g t group c h e f,
          (drop_group-IsAccounted ftn g t group c h e f).1,
        ),
      )
    ]
  ]

  pub lookup_own :
      (ftn : Ftn) (u : CacheTrack L) (c : MoqxCache L Ftn)
      → lookup dec ftn (put_track dec ftn u c).tracks ≡ some u
  lookup_own ftn u c = rw (lookup-assign dec ftn ftn u c.tracks, if_pos _ refl) refl

  -- Each group goes, and the track is left with none.
  evict_groups_all :
      (ftn : Ftn) (gs : List (ℕ × CacheGroup)) (t : CacheTrack L) (c : MoqxCache L Ftn)
      → IsAccounted c
      → lookup dec ftn c.tracks ≡ some t
      → t.groups ≡ gs
      → (d : MoqxCache L Ftn) × ((u : CacheTrack L) × ((evict_groups dec ftn gs c ≡ returns d)
            × (IsAccounted d × ((lookup dec ftn d.tracks ≡ some u) × (u.groups ≡ [])))))
  unfolding evict_groups
  evict_groups_all ftn [] t c h e same = (c, (t, (refl, (h, (e, same)))))
  evict_groups_all ftn ((g, group) ∷ gs) t c h e same =
      let here : lookup ℕ_discrete g t.groups ≡ some group = rw same (head_entry g group gs) in
      let rest : (lighter g t group).groups ≡ gs = rw same (head_erased g group gs) in
      let d = drop_group dec ftn g t group c in
      let more =
        evict_groups_all ftn gs (lighter g t group) d
          (drop_group-IsAccounted ftn g t group c h e here).1
          (lookup_own ftn (lighter g t group) (record (unlisted ftn g group c) {
            total_cached_bytes = c.total_cached_bytes - group.total_bytes;
          }))
          rest in
      (
        more.0,
        (more.1.0, (rw (evict_group_present ftn g t group c h e here) more.1.1.0, more.1.1.1)),
      )

  forget-IsAccounted :
      (ftn : Ftn) (u : CacheTrack L) (c : MoqxCache L Ftn)
      → IsAccounted c
      → lookup dec ftn c.tracks ≡ some u
      → u.groups ≡ []
      → IsAccounted (forget dec ftn c)
  forget-IsAccounted ftn u c h e bare =
      let nothing : track_bytes u ≡ 0 = rw bare refl in
      (
        omega (
          arith,
          sum_by-erase_entry dec ftn track_bytes c.tracks,
          ap (weight_at track_bytes) e,
          nothing,
          h.0,
        ),
        erase_entry-AllValues dec IsTrackSummed ftn c.tracks h.1,
      )

  pub evict_track-IsAccounted :
      (ftn : Ftn) (c : MoqxCache L Ftn)
      → IsAccounted c
      → ReturnsAccounted (λ r. r.0) (evict_track dec ftn c)
  unfolding evict_track
  evict_track-IsAccounted ftn c h = elim (Option-cases (lookup dec ftn c.tracks)) [
    | inl e ↦ ((c, 0), (rw (e, evict_track) refl, h))
    | inr (t, e) ↦
        let marked : CacheTrack L = record t { evicted = true } in
        let s = stamp dec ftn t c in
        let bare : MoqxCache L Ftn = record c {
          track_lru = if t.track_lru_iter then erase_node dec ftn c.track_lru else c.track_lru;
        } in
        let ok : IsAccounted s =
          put_track-IsAccounted dec ftn t marked bare c.total_cached_bytes h e
            (lookup-AllValues dec IsTrackSummed ftn t c.tracks h.1 e) refl in
        let all = evict_groups_all ftn t.groups marked s ok (lookup_own ftn marked bare) refl in
        (
          (forget dec ftn all.0, 1),
          (
            rw (e, evict_track) rw all.1.1.0 refl,
            forget-IsAccounted ftn all.1.0 all.0 all.1.1.1.0 all.1.1.1.1.0 all.1.1.1.1.1,
          ),
        )
  ]

  -- Evictions of tracks, as a purge makes them, return: no check of the total fails on the way, and the
  -- accounts hold after them.
  pub evict_tracks-IsAccounted :
      (ftns : List Ftn) (c : MoqxCache L Ftn)
      → IsAccounted c
      → ReturnsAccounted (λ r. r.0) (evict_tracks dec ftns c)
  unfolding evict_tracks
  evict_tracks-IsAccounted [] c h = ((c, 0), (refl, h))
  evict_tracks-IsAccounted (ftn ∷ ftns) c h =
      let one = evict_track-IsAccounted ftn c h in
      let more = evict_tracks-IsAccounted ftns one.0.0 one.1.1 in
      ((more.0.0, one.0.1 + more.0.1), (rw (one.1.0, evict_tracks) rw more.1.0 refl, more.1.1))
