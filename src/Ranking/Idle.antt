-- ===== src/Ranking/Idle.antt =====
-- PropertyRanking: a sweep that finds two idle tracks.
use moq_testbed.Prelude.{
  ℕ, ◌≡◌, ◌≢◌, refl, ap, sym, ◌∙◌, true, none, some, [], ◌∷◌, arith, Bool-cases, Option-cases, inl,
  inr, ite, if_pos, if_neg,
}
use moq_testbed.Prelude.Assoc.{assign, lookup-assign, lookup-erase_key}
use moq_testbed.Ranking.Key.{RankKey}
use moq_testbed.Ranking.State.{
  RankedEntry, Ranked, selected, deselected, TopNGroup, PropertyRanking,
}
use moq_testbed.Ranking.Groups.{
  is_selected, state_of, demote_track, trim_deselected_queue, trim_from, promote, next_available,
  promote_next_available_track, notify_track_selected, remove_from_deselected_queue, without,
}
use moq_testbed.Ranking.Sweep.{is_idle, sweep_group}

module _ {Ftn : Type 0} (dec : Discrete Ftn) (pr : PropertyRanking Ftn) where
  -- With no room in the queue a demoted track is forgotten; the others keep their states.
  demote_track_forgets :
      (g : TopNGroup Ftn) (f a : Ftn)
      → pr.max_deselected ≡ 0
      → g.deselected_queue ≡ []
      → ((demote_track dec pr g f).0.deselected_queue ≡ [])
        × (state_of dec (demote_track dec pr g f).0 a ≡ ite (dec f a) none (state_of dec g a))
  unfolding demote_track trim_deselected_queue trim_from
  demote_track_forgets g f a full empty =
      rw (full, empty)
        (
          refl,
          rw
              (
                lookup-erase_key dec f a (assign dec f deselected g.track_states),
                lookup-assign dec f a deselected g.track_states,
              )
              (ground arith),
        )

  -- A promotion marks one track, and leaves the queue empty.
  promote_marks :
      (g : TopNGroup Ftn) (f a : Ftn)
      → g.deselected_queue ≡ []
      → ((promote dec pr g f).0.deselected_queue ≡ [])
        × (state_of dec (promote dec pr g f).0 a ≡ ite (dec f a) (some selected) (state_of dec g a))
  unfolding promote notify_track_selected remove_from_deselected_queue without
  promote_marks g f a empty = (rw empty, lookup-assign dec f a selected g.track_states)

  next_available_ne :
      (m : Ranked Ftn) (g : TopNGroup Ftn) (x c : Ftn) → next_available dec m g x ≡ some c → c ≢ x
  unfolding next_available
  next_available_ne [] g x c h = cc
  next_available_ne ((k, e) ∷ m) g x c h = elim (dec e.ftn x) [
    | yes same ↦ next_available_ne m g x c (rw (if_pos _ same) at h)
    | no other ↦
        let h' = rw (if_neg _ other) at h in
        elim (Bool-cases (is_selected (state_of dec g e.ftn))) [
          | inl taken ↦ next_available_ne m g x c (rw taken at h')
          | inr free ↦ let one : e.ftn ≡ c = (let h'' = rw free at h' in cc) in λ p. other (one ∙ p)
        ]
  ]

  -- A promotion that leaves a track out does not touch it.
  promote_next_skips :
      (g : TopNGroup Ftn) (a : Ftn)
      → g.deselected_queue ≡ []
      → ((promote_next_available_track dec pr g a).0.deselected_queue ≡ [])
        × (state_of dec (promote_next_available_track dec pr g a).0 a ≡ state_of dec g a)
  unfolding promote_next_available_track
  promote_next_skips g a empty = elim (Option-cases (next_available dec pr.ranked_tracks g a)) [
    | inl nothing ↦ rw (nothing, promote_next_available_track) (empty, refl)
    | inr (c, there) ↦
        let apart = next_available_ne pr.ranked_tracks g a c there in
        let (queue, state) = promote_marks g c a empty in
        rw (there, promote_next_available_track) (queue, state ∙ rw (if_neg (dec c a) apart))
  ]

  next_available_top :
      (g : TopNGroup Ftn) (b : Ftn) (k : RankKey) (e : RankedEntry Ftn) (rest : Ranked Ftn)
      → e.ftn ≢ b
      → state_of dec g e.ftn ≡ none
      → next_available dec ((k, e) ∷ rest) g b ≡ some e.ftn
  unfolding next_available
  next_available_top g b k e rest apart free = rw (if_neg (dec e.ftn b) apart, free)

  promote_next_takes :
      (g : TopNGroup Ftn) (b : Ftn) (k : RankKey) (e : RankedEntry Ftn) (rest : Ranked Ftn)
      → pr.ranked_tracks ≡ (k, e) ∷ rest
      → g.deselected_queue ≡ []
      → e.ftn ≢ b
      → state_of dec g e.ftn ≡ none
      → state_of dec (promote_next_available_track dec pr g b).0 e.ftn ≡ some selected
  unfolding promote_next_available_track
  promote_next_takes g b k e rest top empty apart free =
      let there : next_available dec pr.ranked_tracks g b ≡ some e.ftn =
        ap (λ m. next_available dec m g b) top ∙ next_available_top g b k e rest apart free in
      rw (there, promote_next_available_track)
        ((promote_marks g e.ftn e.ftn empty).1 ∙ rw (if_pos (dec e.ftn e.ftn) refl))

  -- With no room for deselected tracks, a sweep that finds the highest ranked track idle and then
  -- one other track ends with that highest ranked idle track selected again.
  pub sweep_group-reselects :
      (now : ℕ) (last_activity : Ftn → ℕ) (g : TopNGroup Ftn) (b : Ftn) (k : RankKey)
      (e : RankedEntry Ftn) (rest : Ranked Ftn)
      → pr.max_deselected ≡ 0
      → pr.ranked_tracks ≡ (k, e) ∷ rest
      → g.deselected_queue ≡ []
      → e.ftn ≢ b
      → is_idle pr now (last_activity e.ftn) ≡ true
      → is_idle pr now (last_activity b) ≡ true
      → state_of dec (sweep_group dec now last_activity pr (e.ftn ∷ b ∷ []) g).0 e.ftn
        ≡ some selected
  unfolding sweep_group
  sweep_group-reselects now last_activity g b k e rest full top empty apart idle idle' =
      let a = e.ftn in
      let (q1, s1) = demote_track_forgets g a a full empty in
      let g1 = (demote_track dec pr g a).0 in
      let (q2, s2) = promote_next_skips g1 a q1 in
      let g2 = (promote_next_available_track dec pr g1 a).0 in
      let (q3, s3) = demote_track_forgets g2 b a full q2 in
      let g3 = (demote_track dec pr g2 b).0 in
      let free : state_of dec g3 a ≡ none =
        s3 ∙ rw (if_neg (dec b a) (λ p. apart (sym p))) (s2 ∙ s1 ∙ rw (if_pos (dec a a) refl)) in
      rw (idle, idle') (promote_next_takes g3 b k e rest top q3 apart free)
