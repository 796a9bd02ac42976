-- ===== src/Cache/Largest.antt =====
-- MoqxCache: `updateLargest` over a run of objects.
use moq_testbed.Prelude.{
  none≢some, ◌≡◌, refl, sym, subst, Bool, true, false, not, ◌&&◌, Option, none, some, List, [], ◌∷◌,
  Bool-cases, Option-cases, inl, inr, arith,
}
use moq_testbed.Ranking.FastPath.{Each}
use moq_testbed.Cache.State.{Location, after, same_location, Locations, CacheTrack}
use moq_testbed.Cache.Objects.{MalformedTrack, update_largest}

abbrev pub NotPast : Location → Option Location → Type 0
NotPast l none = ⊥
NotPast l (some m) = after l m ≡ false

after_trans : (k l m : Location) → after k l ≡ false → after m l ≡ true → after k m ≡ false
after_trans (a, b) (c, d) (e, f) h g = ground (arith, h, g)

after_irrefl : (l : Location) → after l l ≡ false
after_irrefl (a, b) = ground arith

module _ {L : Locations} where
  -- A run of objects, each with whether it ends the track, up to the first that is refused.
  unfoldable pub update_all :
      List (Location × Bool) → CacheTrack L → CacheTrack L × Option MalformedTrack
  update_all [] t = (t, none)
  update_all ((l, eot) ∷ us) t =
      let one = update_largest l eot t in
      let rest = update_all us one.0 in elim one.1 [ some e ↦ one | none ↦ rest ]

  update_largest-NotPast :
      (l : Location) (eot : Bool) (t : CacheTrack L)
      → (update_largest l eot t).1 ≡ none
      → NotPast l (update_largest l eot t).0.largest_group_and_object
        × ((k : Location)
            → NotPast k t.largest_group_and_object
            → NotPast k (update_largest l eot t).0.largest_group_and_object)
  unfolding update_largest
  update_largest-NotPast l eot t h = elim (Option-cases t.largest_group_and_object) [
    | inl e ↦ elim (Bool-cases t.track_ended) [
      | inl ended ↦ absurd (none≢some (sym (rw ended at rw (e, update_largest) at h)))
      | inr open_end ↦
          rw (e, update_largest) rw open_end (after_irrefl l, λ k none_yet. absurd none_yet)
    ]
    | inr (m, e) ↦ elim (Bool-cases (after l m)) [
      | inl past ↦ elim (Bool-cases t.track_ended) [
        | inl ended ↦ absurd (none≢some (sym (rw (past, ended) at rw (e, update_largest) at h)))
        | inr open_end ↦
            rw (e, update_largest) rw (past, open_end)
              (after_irrefl l, λ k kept. after_trans k m l kept past)
      ]
      | inr stays ↦ elim (Bool-cases (eot && not (same_location l m))) [
        | inl late ↦ absurd (none≢some (sym (rw (stays, late) at rw (e, update_largest) at h)))
        | inr fits ↦ rw (e, update_largest) rw (stays, fits, e) (stays, λ k kept. kept)
      ]
    ]
  ]

  update_all-grows :
      (us : List (Location × Bool)) (t : CacheTrack L) (k : Location)
      → (update_all us t).1 ≡ none
      → NotPast k t.largest_group_and_object
      → NotPast k (update_all us t).0.largest_group_and_object
  unfolding update_all
  update_all-grows [] t k h kept = kept
  update_all-grows ((l, eot) ∷ us) t k h kept = elim (Option-cases (update_largest l eot t).1) [
    | inl e ↦
        rw (e, update_all)
          (update_all-grows us (update_largest l eot t).0 k (rw (e, update_all) at h)
            ((update_largest-NotPast l eot t e).1 k kept))
    | inr (error, e) ↦ absurd (none≢some (sym (rw e at rw (e, update_all) at h)))
  ]

  -- After a run of objects of which none is refused, the largest location is not before that of any of
  -- them, whichever order they came in.
  pub update_all-NotPast :
      (us : List (Location × Bool)) (t : CacheTrack L)
      → (update_all us t).1 ≡ none
      → Each (λ u. NotPast u.0 (update_all us t).0.largest_group_and_object) us
  unfolding update_all
  update_all-NotPast [] t h = tt
  update_all-NotPast ((l, eot) ∷ us) t h = elim (Option-cases (update_largest l eot t).1) [
    | inl e ↦
        let next = (update_largest l eot t).0 in
        let rest = rw (e, update_all) at h in
        let step : update_all ((l, eot) ∷ us) t ≡ update_all us next = rw (e, update_all) refl in
        subst
          (λ (r : CacheTrack L × Option MalformedTrack).
            Each (λ u. NotPast u.0 r.0.largest_group_and_object) ((l, eot) ∷ us))
          (sym step)
          (
            update_all-grows us next l rest (update_largest-NotPast l eot t e).0,
            update_all-NotPast us next rest,
          )
    | inr (error, e) ↦ absurd (none≢some (sym (rw e at rw (e, update_all) at h)))
  ]
