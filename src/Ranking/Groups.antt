-- ===== src/Ranking/Groups.antt =====
-- relay/PropertyRanking.cpp: what is done to one group. Each function returns the new group and the
-- callbacks made.
use moq_testbed.Prelude.{
  ℕ, Bool, true, false, Option, none, some, List, [], ◌∷◌, ◌++◌, lookup, ltb, if◌then◌else◌, ite,
  length, get_elem?,
}
use moq_testbed.Prelude.Assoc.{assign, erase_key}
use moq_testbed.Ranking.State.{
  Ranked, SessionInfo, TrackState, selected, deselected, TopNGroup, PropertyRanking, Event,
  on_batch_selected, on_evicted, W, return,
}
use moq_testbed.Ranking.Selection.{is_publisher, reconcile_publisher_selection}

abbrev pub is_selected : Option TrackState → Bool
is_selected (some selected) = true
is_selected _ = false

module _ {Ftn : Type 0} where
  -- The innermost loop of `trimDeselectedQueue`.
  unfoldable pub evict_from_all : Ftn → List (ℕ × SessionInfo Ftn) → List (Event Ftn)
  evict_from_all f [] = []
  evict_from_all f ((s, info) ∷ rest) = on_evicted f s ∷ evict_from_all f rest

module _ {Ftn : Type 0} (dec : Discrete Ftn) where
  -- The loop of `trimDeselectedQueue`, on the queue, oldest first.
  unfoldable pub trim_from : ℕ → List Ftn → TopNGroup Ftn → W Ftn (TopNGroup Ftn)
  unfolding evict_from_all erase_key
  trim_from max_deselected [] g = return (record g { deselected_queue = [] })
  trim_from max_deselected (f ∷ queue) g =
      let dropped =
        trim_from max_deselected queue
          (record g { track_states = erase_key dec f g.track_states }) in
      if ltb max_deselected (length (f ∷ queue))
      then (dropped.0, evict_from_all f g.sessions ++ dropped.1)
      else return (record g { deselected_queue = f ∷ queue })

  unfoldable pub trim_deselected_queue : PropertyRanking Ftn → TopNGroup Ftn → W Ftn (TopNGroup Ftn)
  unfolding trim_from
  trim_deselected_queue pr g = trim_from pr.max_deselected g.deselected_queue g

  -- `std::remove` and `erase` of a name in the queue.
  unfoldable pub without : Ftn → List Ftn → List Ftn
  without f [] = []
  without f (x ∷ xs) = ite (dec x f) (without f xs) (x ∷ without f xs)

  unfoldable pub remove_from_deselected_queue : TopNGroup Ftn → Ftn → TopNGroup Ftn
  unfolding without
  remove_from_deselected_queue g ftn = record g {
    deselected_queue = without ftn g.deselected_queue;
  }

  -- `trackStates[ftn] = state`.
  abbrev pub set_state : TopNGroup Ftn → Ftn → TrackState → TopNGroup Ftn
  set_state g ftn state = record g { track_states = assign dec ftn state g.track_states }

  abbrev pub state_of : TopNGroup Ftn → Ftn → Option TrackState
  state_of g ftn = lookup dec ftn g.track_states

  unfoldable pub demote_track : PropertyRanking Ftn → TopNGroup Ftn → Ftn → W Ftn (TopNGroup Ftn)
  unfolding trim_deselected_queue assign
  demote_track pr g ftn =
      let g' = set_state g ftn deselected in
      trim_deselected_queue pr (record g' { deselected_queue = g.deselected_queue ++ ftn ∷ [] })

  -- The track at rank n, if any, when it is marked Selected.
  unfoldable pub demote_track_at_rank :
      PropertyRanking Ftn → ℕ → TopNGroup Ftn → W Ftn (TopNGroup Ftn)
  unfolding demote_track lookup
  demote_track_at_rank pr n g = elim (get_elem? pr.ranked_tracks n) [
    | none ↦ return g
    | some (key, entry) ↦
        if is_selected (state_of g entry.ftn) then demote_track pr g entry.ftn else return g
  ]

  -- The session loop of `notifyTrackSelected`: the sessions, and the batch of viewers.
  unfoldable pub notify_sessions :
      PropertyRanking Ftn
      → ℕ
      → List (ℕ × SessionInfo Ftn)
      → W Ftn (List (ℕ × SessionInfo Ftn) × List (ℕ × Bool))
  unfolding is_publisher reconcile_publisher_selection
  notify_sessions pr n [] = return ([], [])
  notify_sessions pr n ((s, info) ∷ rest) =
      let others = notify_sessions pr n rest in
      let info' = reconcile_publisher_selection dec pr info n s in
      if is_publisher pr s
      then (((s, info'.0) ∷ others.0.0, others.0.1), info'.1 ++ others.1)
      else (((s, info) ∷ others.0.0, (s, info.forward) ∷ others.0.1), others.1)

  -- No batch callback for an empty batch.
  abbrev pub batch : Ftn → List (ℕ × Bool) → List (Event Ftn)
  batch ftn [] = []
  batch ftn (v ∷ viewers) = on_batch_selected ftn (v ∷ viewers) ∷ []

  unfoldable pub notify_track_selected :
      PropertyRanking Ftn → Ftn → TopNGroup Ftn → W Ftn (TopNGroup Ftn)
  unfolding notify_sessions
  notify_track_selected pr ftn g =
      let done = notify_sessions pr g.max_selected g.sessions in
      (record g { sessions = done.0.0 }, done.1 ++ batch ftn done.0.1)

  -- What `promoteNextAvailableTrack`, and the promotion in `recomputeTopNGroups`, do to a track.
  unfoldable pub promote : PropertyRanking Ftn → TopNGroup Ftn → Ftn → W Ftn (TopNGroup Ftn)
  unfolding remove_from_deselected_queue notify_track_selected assign
  promote pr g ftn =
      notify_track_selected pr ftn (remove_from_deselected_queue (set_state g ftn selected) ftn)

  -- The scan of `promoteNextAvailableTrack`.
  unfoldable pub next_available : Ranked Ftn → TopNGroup Ftn → Ftn → Option Ftn
  unfolding lookup
  next_available [] g exclude = none
  next_available ((key, entry) ∷ rest) g exclude =
      let later = next_available rest g exclude in
      ite (dec entry.ftn exclude) later
        (if is_selected (state_of g entry.ftn) then later else some entry.ftn)

  unfoldable pub promote_next_available_track :
      PropertyRanking Ftn → TopNGroup Ftn → Ftn → W Ftn (TopNGroup Ftn)
  unfolding next_available promote
  promote_next_available_track pr g exclude = elim (next_available pr.ranked_tracks g exclude) [
    | none ↦ return g
    | some ftn ↦ promote pr g ftn
  ]
