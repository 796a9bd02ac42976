-- ===== src/Ranking/Tracks.antt =====
-- relay/PropertyRanking.cpp: a track is registered.
use moq_testbed.Prelude.{
  ℕ, ◌+◌, Bool, true, false, not, ◌||◌, Option, none, some, lookup, ltb, if◌then◌else◌, ℕ_discrete,
  u64, uint64_max,
}
use moq_testbed.Prelude.Assoc.{assign, value_or}
use moq_testbed.Ranking.Key.{RankKey}
use moq_testbed.Ranking.State.{
  SessionInfo, selected, TopNGroup, PropertyRanking, W, ◌>>=◌, return, for_each, emplace_ranked,
  rebuild_rank_cache_if_needed, get_cached_rank,
}
use moq_testbed.Ranking.Selection.{reconcile_publisher_selection, seed}
use moq_testbed.Ranking.Groups.{
  set_state, demote_track_at_rank, notify_sessions, notify_track_selected,
}
use moq_testbed.Ranking.Thresholds.{is_empty, update_publisher_extended_threshold}

module _ {Ftn : Type 0} (dec : Discrete Ftn) where
  abbrev was_publisher : SessionInfo Ftn → Bool
  was_publisher info = not (is_empty info.selected_tracks) || has_key info.waterline_key
    where
      has_key : Option RankKey → Bool
      has_key none = false
      has_key (some w) = true

  -- The loop body of `reconcilePublisherInAllGroups`.
  unfoldable pub reconcile_in_group :
      PropertyRanking Ftn → ℕ → ℕ → TopNGroup Ftn → W Ftn (TopNGroup Ftn)
  unfolding lookup ℕ_discrete seed reconcile_publisher_selection assign
  reconcile_in_group pr session n g = elim (lookup ℕ_discrete session g.sessions) [
    | none ↦ return g
    | some info ↦
        let info' =
          if was_publisher info
          then info
          else record info { selected_tracks = seed dec n pr.ranked_tracks info.selected_tracks } in
        let done = reconcile_publisher_selection dec pr info' n session in
        (record g { sessions = assign ℕ_discrete session done.0 g.sessions }, done.1)
  ]

  -- A loop over all groups.
  abbrev pub over_groups :
      (ℕ → TopNGroup Ftn → W Ftn (TopNGroup Ftn))
      → PropertyRanking Ftn
      → W Ftn (PropertyRanking Ftn)
  over_groups f pr =
      let done = for_each f pr.top_n_groups in (record pr { top_n_groups = done.0 }, done.1)

  -- The loop body of `registerTrack`.
  unfoldable pub register_in_group :
      PropertyRanking Ftn → Ftn → ℕ → ℕ → TopNGroup Ftn → W Ftn (TopNGroup Ftn)
  unfolding assign notify_track_selected demote_track_at_rank notify_sessions
  register_in_group pr ftn rank n g =
      let others = notify_sessions dec pr n g.sessions in
      if ltb rank n
      then (do
        g' ← notify_track_selected dec pr ftn (set_state dec g ftn selected)
        demote_track_at_rank dec pr n g')
      else (record g { sessions = others.0.0 }, others.1)

  -- `registerTrack` up to the reconciliation: the new track in the container and the index.
  unfoldable pub insert_track : PropertyRanking Ftn → Ftn → ℕ → ℕ → PropertyRanking Ftn
  unfolding lookup ℕ_discrete assign emplace_ranked update_publisher_extended_threshold
  insert_track pr ftn value publisher =
      let key : RankKey = record { value = value; arrival_seq = pr.next_seq } in
      let counted = update_publisher_extended_threshold (record pr {
        next_seq = u64 (pr.next_seq + 1);
        publisher_track_count =
            assign ℕ_discrete publisher
              (u64 (value_or (lookup ℕ_discrete publisher pr.publisher_track_count) 0 + 1))
              pr.publisher_track_count;
      }) in
      record counted {
        ranked_tracks =
            emplace_ranked key (record { ftn = ftn; publisher = publisher }) pr.ranked_tracks;
        track_index_by_name =
            assign dec ftn (record { rank_iter = key; cached_rank = uint64_max })
              pr.track_index_by_name;
        rank_cache_valid = false;
      }

  unfoldable pub register_track :
      PropertyRanking Ftn → Ftn → Option ℕ → ℕ → W Ftn (PropertyRanking Ftn)
  unfolding lookup insert_track rebuild_rank_cache_if_needed get_cached_rank for_each
      reconcile_in_group register_in_group
  register_track pr ftn initial publisher = elim (lookup dec ftn pr.track_index_by_name) [
    | some i ↦ return pr
    | none ↦ do
      let value = value_or initial 0
      let pr' = rebuild_rank_cache_if_needed dec (insert_track pr ftn value publisher)
      pr'' ← over_groups (reconcile_in_group pr' publisher) pr'
      over_groups (register_in_group pr'' ftn (get_cached_rank dec pr'' ftn)) pr''
  ]
