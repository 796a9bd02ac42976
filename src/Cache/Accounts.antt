-- ===== src/Cache/Accounts.antt =====
-- MoqxCache: `totalCachedBytes_` against what the tracks hold, through a write.
use moq_testbed.Prelude.{
  ℕ, ◌+◌, ◌-◌, ◌≤◌, ◌≡◌, refl, ap, none, some, ltb, leb, lookup, ℕ_discrete, Bool-cases,
  Option-cases, inl, inr, arith, false,
}
use moq_testbed.Cache.State.{Locations, CacheTrack, MoqxCache, group_of}
use moq_testbed.Cache.Objects.{NewObject, cache_object}
use moq_testbed.Cache.Eviction.{Run, returns, put_track}
use moq_testbed.Cache.Lookup.{account, written, cache_object_and_count}
use moq_testbed.Cache.Sums.{
  sum_by, AllValues, weight_at, sum_by-assign, weight_at-sum_by, assign-AllValues, lookup-AllValues,
}
use moq_testbed.Cache.Bytes.{
  group_bytes, track_bytes, IsTrackSummed, Moves, Keeps, cache_object-Wrote, weight_at-group,
}

abbrev pub bytes_of : {L : Locations} {Ftn : Type 0} → MoqxCache L Ftn → ℕ
bytes_of c = sum_by track_bytes c.tracks

-- The total is what the groups of all tracks hold, and each group's total is that of its objects.
abbrev pub IsAccounted : {L : Locations} {Ftn : Type 0} → MoqxCache L Ftn → Type 0
IsAccounted c = (c.total_cached_bytes ≡ bytes_of c) × AllValues IsTrackSummed c.tracks

-- The run returns, and what it returns is accounted.
abbrev pub ReturnsAccounted :
    {L : Locations} {Ftn A : Type 0} → (A → MoqxCache L Ftn) → Run A → Type 0
ReturnsAccounted {A = A} cache_of r = (a : A) × ((r ≡ returns a) × IsAccounted (cache_of a))

module _ {L : Locations} {Ftn : Type 0} (dec : Discrete Ftn) where
  pub track_bytes-bytes_of :
      (ftn : Ftn) (t : CacheTrack L) (c : MoqxCache L Ftn)
      → lookup dec ftn c.tracks ≡ some t
      → track_bytes t ≤ bytes_of c
  track_bytes-bytes_of ftn t c e =
      omega (arith, weight_at-sum_by dec ftn track_bytes c.tracks, ap (weight_at track_bytes) e)

  pub group_bytes-track_bytes :
      (g : ℕ) (t : CacheTrack L) → (group_of g t).total_bytes ≤ track_bytes t
  group_bytes-track_bytes g t = omega (
    arith,
    weight_at-sum_by ℕ_discrete g group_bytes t.groups,
    weight_at-group (lookup ℕ_discrete g t.groups),
  )

  -- A track in place of another, with the total moved by the difference.
  pub put_track-IsAccounted :
      (ftn : Ftn) (t u : CacheTrack L) (c : MoqxCache L Ftn) (total : ℕ)
      → IsAccounted c
      → lookup dec ftn c.tracks ≡ some t
      → IsTrackSummed u
      → total + track_bytes t ≡ c.total_cached_bytes + track_bytes u
      → IsAccounted (put_track dec ftn u (record c { total_cached_bytes = total }))
  put_track-IsAccounted ftn t u c total (sums, all) e summed moved = (
    omega (
      arith,
      sum_by-assign dec ftn track_bytes u c.tracks,
      ap (weight_at track_bytes) e,
      sums,
      moved,
    ),
    assign-AllValues dec IsTrackSummed ftn u c.tracks summed all,
  )

  written-ReturnsAccounted :
      (ftn : Ftn) (n : NewObject) (t : CacheTrack L) (c : MoqxCache L Ftn)
      → IsAccounted c
      → lookup dec ftn c.tracks ≡ some t
      → (u : CacheTrack L) → Moves n.group_id t u
      → ReturnsAccounted
          (λ d. d)
          (account dec
            (group_of n.group_id t).total_bytes
            (group_of n.group_id u).total_bytes
            (written dec ftn u n c))
  written-ReturnsAccounted ftn n t c h e u (summed, moved) =
      let old = (group_of n.group_id t).total_bytes in
      let new = (group_of n.group_id u).total_bytes in
      let held = track_bytes-bytes_of ftn t c e in
      let within = group_bytes-track_bytes n.group_id t in
      let v : CacheTrack L = record u { last_write = some n.now } in
      elim (Bool-cases (leb old new)) [
        | inl y ↦
            let total = c.total_cached_bytes + (new - old) in
            (
              put_track dec ftn v (record c { total_cached_bytes = total }),
              (
                rw y refl,
                put_track-IsAccounted ftn t v c total h e summed (ground (arith, moved, y)),
              ),
            )
        | inr y ↦
            let total = c.total_cached_bytes - (old - new) in
            let enough : ltb c.total_cached_bytes (old - new) ≡ false =
              ground (arith, h.0, held, within) in
            (
              put_track dec ftn v (record c { total_cached_bytes = total }),
              (
                rw (y, enough) refl,
                put_track-IsAccounted ftn t v c total h e summed
                    (ground (arith, moved, y, h.0, held, within)),
              ),
            )
      ]

  -- The accounts hold after the part of a write that comes before its eviction.
  pub cache_object_and_count-IsAccounted :
      (ftn : Ftn) (n : NewObject) (c : MoqxCache L Ftn)
      → IsAccounted c
      → ReturnsAccounted (λ r. r.0) (cache_object_and_count dec ftn n c)
  unfolding cache_object_and_count
  cache_object_and_count-IsAccounted ftn n c h = elim (Option-cases (lookup dec ftn c.tracks)) [
    | inl e ↦ ((c, none), (rw (e, cache_object_and_count) refl, h))
    | inr (t, e) ↦
        let u = cache_object n t in
        let wrote =
          cache_object-Wrote n t (lookup-AllValues dec IsTrackSummed ftn t c.tracks h.1 e) in
        elim (Option-cases u.1) [
          | inl y ↦
              let moves : Moves n.group_id t u.0 = rw y at wrote in
              let one = written-ReturnsAccounted ftn n t c h e u.0 moves in
              ((one.0, none), (rw (e, cache_object_and_count) rw y rw (one.1.0) refl, one.1.1))
          | inr (error, y) ↦
              let keeps : Keeps n.group_id t u.0 = rw y at wrote in
              (
                (put_track dec ftn u.0 c, some error),
                (
                  rw (e, cache_object_and_count) rw y refl,
                  put_track-IsAccounted ftn t u.0 c c.total_cached_bytes h e keeps.0
                      (omega (arith, keeps.1.0)),
                ),
              )
        ]
  ]
