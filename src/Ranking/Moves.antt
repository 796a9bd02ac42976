-- ===== src/Ranking/Moves.antt =====
-- relay/PropertyRanking.cpp: the value of a track changes, and a track is removed.
use moq_testbed.Prelude.{
  ℕ, ◌-◌, Bool, false, not, ◌&&◌, Option, none, some, List, [], ◌∷◌, ◌++◌, lookup, ◌==◌, ltb,
  if◌then◌else◌, get_elem?, ℕ_discrete,
}
use moq_testbed.Prelude.Assoc.{assign, erase_key}
use moq_testbed.Ranking.Key.{RankKey}
use moq_testbed.Ranking.State.{
  RankIndex, SessionInfo, selected, deselected, TopNGroup, PropertyRanking, W, ◌>>=◌, return,
  for_each, emplace_ranked, erase_ranked, find_ranked, rebuild_rank_cache_if_needed,
  get_cached_rank,
}
use moq_testbed.Ranking.Selection.{is_publisher, reconcile_publisher_selection}
use moq_testbed.Ranking.Groups.{
  is_selected, remove_from_deselected_queue, set_state, state_of, demote_track,
  demote_track_at_rank, batch, notify_track_selected, promote, promote_next_available_track,
}
use moq_testbed.Ranking.Thresholds.{differ, update_publisher_extended_threshold, crosses_threshold}
use moq_testbed.Ranking.Tracks.{over_groups}
use moq_testbed.Ranking.Sweep.{sweep_idle}

abbrev same_session : ℕ → Option ℕ → Bool
same_session s none = false
same_session s (some p) = s == p

module _ {Ftn : Type 0} (dec : Discrete Ftn) where
  -- The session loop of `recomputeTopNGroups`: publishers other than the track's own are
  -- reconciled, viewers are gathered when the track entered the shared top N.
  unfoldable pub recompute_sessions :
      PropertyRanking Ftn
      → ℕ
      → Option ℕ
      → Bool
      → List (ℕ × SessionInfo Ftn)
      → W Ftn (List (ℕ × SessionInfo Ftn) × List (ℕ × Bool))
  unfolding is_publisher reconcile_publisher_selection
  recompute_sessions pr n owner entered [] = return ([], [])
  recompute_sessions pr n owner entered ((s, info) ∷ rest) =
      let others = recompute_sessions pr n owner entered rest in
      let info' = reconcile_publisher_selection dec pr info n s in
      let kept = (s, info) ∷ others.0.0 in
      if is_publisher pr s
      then if same_session s owner
        then ((kept, others.0.1), others.1)
        else (((s, info'.0) ∷ others.0.0, others.0.1), info'.1 ++ others.1)
      else if entered
      then ((kept, (s, info.forward) ∷ others.0.1), others.1)
      else ((kept, others.0.1), others.1)

  -- `ftnPublisher`: none when the name is not in the index.
  unfoldable pub publisher_of : PropertyRanking Ftn → Ftn → Option ℕ
  unfolding lookup find_ranked
  publisher_of pr ftn = elim (lookup dec ftn pr.track_index_by_name) [
    | none ↦ none
    | some i ↦ elim (find_ranked i.rank_iter pr.ranked_tracks) [
      | none ↦ none
      | some e ↦ some e.publisher
    ]
  ]

  -- The three parts of the loop body of `recomputeTopNGroups`.
  unfoldable pub move_state :
      PropertyRanking Ftn → Ftn → Bool → Bool → TopNGroup Ftn → W Ftn (TopNGroup Ftn)
  unfolding remove_from_deselected_queue demote_track assign
  move_state pr ftn was_in now_in g =
      if differ was_in now_in
      then if now_in
        then return (remove_from_deselected_queue dec (set_state dec g ftn selected) ftn)
        else demote_track dec pr g ftn
      else return g

  unfoldable pub recompute_notify :
      PropertyRanking Ftn → Ftn → ℕ → Bool → TopNGroup Ftn → W Ftn (TopNGroup Ftn)
  unfolding recompute_sessions publisher_of
  recompute_notify pr ftn n entered g =
      let done = recompute_sessions pr n (publisher_of pr ftn) entered g.sessions in
      (record g { sessions = done.0.0 }, done.1 ++ batch dec ftn done.0.1)

  -- The track now at rank N - 1, once another fell out of the top N (so N is not 0).
  unfoldable pub promote_at_boundary :
      PropertyRanking Ftn → ℕ → TopNGroup Ftn → W Ftn (TopNGroup Ftn)
  unfolding lookup promote
  promote_at_boundary pr n g = elim (get_elem? pr.ranked_tracks (n - 1)) [
    | none ↦ return g
    | some (key, entry) ↦
        if is_selected (state_of dec g entry.ftn) then return g else promote dec pr g entry.ftn
  ]

  unfoldable pub recompute_group :
      PropertyRanking Ftn → Ftn → ℕ → ℕ → ℕ → TopNGroup Ftn → W Ftn (TopNGroup Ftn)
  unfolding move_state recompute_notify demote_track_at_rank promote_at_boundary
  recompute_group pr ftn old_rank new_rank n g = do
    let was_in = ltb old_rank n
    let now_in = ltb new_rank n
    g1 ← move_state pr ftn was_in now_in g
    g2 ← recompute_notify pr ftn n (not was_in && now_in) g1
    g3 ← if not was_in && now_in then demote_track_at_rank dec pr n g2 else return g2
    if was_in && not now_in then promote_at_boundary pr n g3 else return g3

  unfoldable pub recompute_top_n_groups :
      PropertyRanking Ftn → Ftn → ℕ → ℕ → W Ftn (PropertyRanking Ftn)
  unfolding for_each recompute_group
  recompute_top_n_groups pr ftn old_rank new_rank =
      over_groups dec (recompute_group pr ftn old_rank new_rank) pr

  -- The container after `updateSortValue` moved the node of a track to a new key.
  unfoldable pub move_track : PropertyRanking Ftn → Ftn → RankIndex → ℕ → PropertyRanking Ftn
  unfolding find_ranked erase_ranked emplace_ranked assign
  move_track pr ftn i value =
      let key : RankKey = record { value = value; arrival_seq = i.rank_iter.arrival_seq } in
      elim (find_ranked i.rank_iter pr.ranked_tracks) [
        | none ↦ pr
        | some e ↦ record pr {
          ranked_tracks = emplace_ranked key e (erase_ranked i.rank_iter pr.ranked_tracks);
          track_index_by_name =
              assign dec ftn (record i { rank_iter = key }) pr.track_index_by_name;
          rank_cache_valid = false;
        }
      ]

  unfoldable pub update_sort_value :
      ℕ → (Ftn → ℕ) → PropertyRanking Ftn → Ftn → ℕ → W Ftn (PropertyRanking Ftn)
  unfolding lookup rebuild_rank_cache_if_needed get_cached_rank move_track crosses_threshold
      recompute_top_n_groups sweep_idle
  update_sort_value now last_activity pr ftn value =
      let pr1 = rebuild_rank_cache_if_needed dec pr in
      elim (lookup dec ftn pr1.track_index_by_name) [
        | none ↦ return pr
        | some i ↦
            let pr2 = rebuild_rank_cache_if_needed dec (move_track pr1 ftn i value) in
            let old_rank = get_cached_rank dec pr1 ftn in
            let new_rank = get_cached_rank dec pr2 ftn in
            let moved = (do
              pr3 ← recompute_top_n_groups pr2 ftn old_rank new_rank
              sweep_idle dec now last_activity pr3) in
            if i.rank_iter.value == value
            then return pr
            else if crosses_threshold pr2 old_rank new_rank
            then moved
            else return pr2
      ]

  -- The loop body of `removeTrack`.
  unfoldable pub remove_in_group : PropertyRanking Ftn → Ftn → TopNGroup Ftn → W Ftn (TopNGroup Ftn)
  unfolding lookup erase_key remove_from_deselected_queue assign promote_next_available_track
  remove_in_group pr ftn g =
      let g' =
        remove_from_deselected_queue dec
          (record g { track_states = erase_key dec ftn g.track_states }) ftn in
      elim (state_of dec g ftn) [
        | none ↦ return g
        | some deselected ↦ return g'
        | some selected ↦ elim g'.deselected_queue [
          | [] ↦ promote_next_available_track dec pr g' ftn
          | f ∷ queue ↦
              notify_track_selected dec pr f
                (set_state dec (record g' { deselected_queue = queue }) f selected)
        ]
      ]

  -- The count of the publisher's tracks goes down, and away at 0.
  unfoldable pub uncount : PropertyRanking Ftn → ℕ → PropertyRanking Ftn
  unfolding lookup ℕ_discrete assign erase_key update_publisher_extended_threshold
  uncount pr publisher = elim (lookup ℕ_discrete publisher pr.publisher_track_count) [
    | none ↦ pr
    | some c ↦ update_publisher_extended_threshold (record pr {
      publisher_track_count =
          if c == 1
          then erase_key ℕ_discrete publisher pr.publisher_track_count
          else assign ℕ_discrete publisher (c - 1) pr.publisher_track_count;
    })
  ]

  -- The track out of the container and the index.
  unfoldable pub erase_track : PropertyRanking Ftn → Ftn → RankIndex → PropertyRanking Ftn
  unfolding erase_ranked erase_key
  erase_track pr ftn i = record pr {
    ranked_tracks = erase_ranked i.rank_iter pr.ranked_tracks;
    track_index_by_name = erase_key dec ftn pr.track_index_by_name;
    rank_cache_valid = false;
  }

  -- A publisher that is in the container is not null. The rank that `removeTrack` reads is only
  -- logged; the cache that this rebuilds is invalidated below.
  unfoldable pub remove_track : PropertyRanking Ftn → Ftn → W Ftn (PropertyRanking Ftn)
  unfolding lookup rebuild_rank_cache_if_needed publisher_of uncount erase_track for_each
      remove_in_group
  remove_track pr ftn =
      let pr1 = rebuild_rank_cache_if_needed dec pr in
      elim (lookup dec ftn pr1.track_index_by_name) [
        | none ↦ return pr
        | some i ↦
            let pr2 : PropertyRanking Ftn = elim (publisher_of pr1 ftn) [
              | none ↦ pr1
              | some p ↦ uncount pr1 p
            ] in
            let pr3 = erase_track pr2 ftn i in
            over_groups dec (λ n g. remove_in_group pr3 ftn g) pr3
      ]
