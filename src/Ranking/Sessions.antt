-- ===== src/Ranking/Sessions.antt =====
-- relay/PropertyRanking.cpp: sessions join and leave groups.
use moq_testbed.Prelude.{
  ℕ, zero, suc, Bool, none, some, List, [], ◌∷◌, lookup, if◌then◌else◌, ℕ_discrete,
}
use moq_testbed.Prelude.Assoc.{assign, erase_key}
use moq_testbed.Ranking.State.{
  Ranked, SessionInfo, TrackState, selected, TopNGroup, PropertyRanking, Event, on_selected, W,
}
use moq_testbed.Ranking.Selection.{is_publisher, reconcile_publisher_selection}
use moq_testbed.Ranking.Thresholds.{
  is_empty, update_selection_threshold, update_publisher_extended_threshold,
}

module _ {Ftn : Type 0} (dec : Discrete Ftn) where
  -- The seeding loop of `getOrCreateTopNGroup`.
  unfoldable pub select_first : ℕ → Ranked Ftn → List (Ftn × TrackState) → List (Ftn × TrackState)
  unfolding assign
  select_first n [] states = states
  select_first zero ((key, entry) ∷ rest) states = states
  select_first (suc n) ((key, entry) ∷ rest) states =
      select_first n rest (assign dec entry.ftn selected states)

  -- The state with the group, and the group.
  unfoldable pub get_or_create_top_n_group :
      PropertyRanking Ftn → ℕ → PropertyRanking Ftn × TopNGroup Ftn
  unfolding lookup ℕ_discrete assign update_selection_threshold select_first
  get_or_create_top_n_group pr max_selected =
      elim (lookup ℕ_discrete max_selected pr.top_n_groups) [
        | some g ↦ (pr, g)
        | none ↦
            let g : TopNGroup Ftn = record {
              max_selected = max_selected;
              sessions = [];
              track_states = select_first max_selected pr.ranked_tracks [];
              deselected_queue = [];
            } in
            (
              update_selection_threshold
                  (record pr { top_n_groups = assign ℕ_discrete max_selected g pr.top_n_groups }),
              g,
            )
      ]

  -- What a viewer is told when it joins.
  unfoldable pub first_selected : ℕ → ℕ → Bool → Ranked Ftn → List (Event Ftn)
  first_selected n session forward [] = []
  first_selected zero session forward ((key, entry) ∷ rest) = []
  first_selected (suc n) session forward ((key, entry) ∷ rest) =
      on_selected entry.ftn session forward ∷ first_selected n session forward rest

  unfoldable pub add_session_to_top_n_group :
      PropertyRanking Ftn → ℕ → ℕ → Bool → W Ftn (PropertyRanking Ftn)
  unfolding get_or_create_top_n_group assign is_publisher update_publisher_extended_threshold
      reconcile_publisher_selection first_selected ℕ_discrete
  add_session_to_top_n_group pr max_selected session forward =
      let (pr1, g) = get_or_create_top_n_group pr max_selected in
      let info : SessionInfo Ftn = record {
        forward = forward;
        waterline_key = none;
        selected_tracks = [];
      } in
      let put = λ (p : PropertyRanking Ftn) (i : SessionInfo Ftn). record p {
        top_n_groups =
            assign ℕ_discrete max_selected
              (record g { sessions = assign ℕ_discrete session i g.sessions }) p.top_n_groups;
      } in
      let pr2 = update_publisher_extended_threshold (put pr1 info) in
      let done = reconcile_publisher_selection dec pr2 info max_selected session in
      if is_publisher pr1 session
      then (put pr2 done.0, done.1)
      else (put pr1 info, first_selected max_selected session forward pr1.ranked_tracks)

  unfoldable pub remove_top_n_group : PropertyRanking Ftn → ℕ → PropertyRanking Ftn
  unfolding erase_key ℕ_discrete update_selection_threshold
  remove_top_n_group pr max_selected =
      update_selection_threshold
        (record pr { top_n_groups = erase_key ℕ_discrete max_selected pr.top_n_groups })

  unfoldable pub remove_session_from_top_n_group : PropertyRanking Ftn → ℕ → ℕ → PropertyRanking Ftn
  unfolding lookup ℕ_discrete erase_key assign is_publisher remove_top_n_group
      update_publisher_extended_threshold
  remove_session_from_top_n_group pr max_selected session =
      elim (lookup ℕ_discrete max_selected pr.top_n_groups) [
        | none ↦ pr
        | some g ↦
            let left = erase_key ℕ_discrete session g.sessions in
            let pr1 = record pr {
              top_n_groups =
                  assign ℕ_discrete max_selected (record g { sessions = left }) pr.top_n_groups;
            } in
            let pr2 = if is_empty left then remove_top_n_group pr1 max_selected else pr1 in
            if is_publisher pr session then update_publisher_extended_threshold pr2 else pr2
      ]

  unfoldable pub update_session_forward : PropertyRanking Ftn → ℕ → ℕ → Bool → PropertyRanking Ftn
  unfolding lookup ℕ_discrete assign
  update_session_forward pr max_selected session forward =
      elim (lookup ℕ_discrete max_selected pr.top_n_groups) [
        | none ↦ pr
        | some g ↦ elim (lookup ℕ_discrete session g.sessions) [
          | none ↦ pr
          | some info ↦ record pr {
            top_n_groups =
                assign ℕ_discrete max_selected
                  (record g {
                    sessions =
                        assign ℕ_discrete session (record info { forward = forward }) g.sessions;
                  })
                  pr.top_n_groups;
          }
        ]
      ]
