-- ===== src/Ranking/Selection.antt =====
-- relay/PropertyRanking.cpp: the personal selection of a session that also publishes. Its own
-- tracks are left out of it.
use moq_testbed.Prelude.{
  ℕ, zero, suc, ◌+◌, Bool, true, not, ◌&&◌, Option, none, some, List, [], ◌∷◌, ◌++◌, lookup, ◌==◌,
  if◌then◌else◌, ℕ_discrete,
}
use moq_testbed.Prelude.Assoc.{is_some, contains, set_insert}
use moq_testbed.Ranking.Key.{RankKey, key_ge}
use moq_testbed.Ranking.State.{
  Ranked, SessionInfo, PropertyRanking, Event, on_selected, on_evicted, W,
}

abbrev pub above_waterline : RankKey → Option RankKey → Bool
above_waterline key none = true
above_waterline key (some w) = key_ge key w

module _ {Ftn : Type 0} where
  unfoldable pub is_publisher : PropertyRanking Ftn → ℕ → Bool
  unfolding lookup ℕ_discrete
  is_publisher pr session = is_some (lookup ℕ_discrete session pr.publisher_track_count)

  -- The loop of `computeWaterlineKey`, with `nonSelfCount` so far.
  unfoldable pub waterline_from : ℕ → ℕ → ℕ → Ranked Ftn → Option RankKey
  waterline_from session max_selected count [] = none
  waterline_from session max_selected count ((key, entry) ∷ rest) =
      let skip = waterline_from session max_selected count rest in
      let next = waterline_from session max_selected (count + 1) rest in
      if entry.publisher == session
      then skip
      else if count + 1 == max_selected
      then some key
      else next

  unfoldable pub compute_waterline_key : PropertyRanking Ftn → ℕ → ℕ → Option RankKey
  unfolding waterline_from
  compute_waterline_key pr session max_selected =
      waterline_from session max_selected 0 pr.ranked_tracks

module _ {Ftn : Type 0} (dec : Discrete Ftn) where
  -- `nowSelected` of `reconcilePublisherSelection`.
  unfoldable pub now_selected : ℕ → Option RankKey → Ranked Ftn → List Ftn
  unfolding set_insert key_ge
  now_selected session w [] = []
  now_selected session w ((key, entry) ∷ rest) =
      let others = now_selected session w rest in
      if not (entry.publisher == session) && above_waterline key w
      then set_insert dec entry.ftn others
      else others

  -- The two loops of `reconcilePublisherSelection` that make the callbacks.
  unfoldable pub evictions : ℕ → List Ftn → List Ftn → List (Event Ftn)
  unfolding contains
  evictions session now [] = []
  evictions session now (f ∷ old) =
      let rest = evictions session now old in
      if contains dec f now then rest else on_evicted f session ∷ rest

  unfoldable pub selections : ℕ → Bool → List Ftn → List Ftn → List (Event Ftn)
  unfolding contains
  selections session forward old [] = []
  selections session forward old (f ∷ now) =
      let rest = selections session forward old now in
      if contains dec f old then rest else on_selected f session forward ∷ rest

  unfoldable pub reconcile_publisher_selection :
      PropertyRanking Ftn → SessionInfo Ftn → ℕ → ℕ → W Ftn (SessionInfo Ftn)
  unfolding compute_waterline_key now_selected evictions selections
  reconcile_publisher_selection pr info max_selected session =
      let w = compute_waterline_key pr session max_selected in
      let now = now_selected session w pr.ranked_tracks in
      (
        record info { waterline_key = w; selected_tracks = now },
        evictions session now info.selected_tracks
            ++ selections session info.forward info.selected_tracks now,
      )

  -- The first loop of `reconcilePublisherInAllGroups`: the first `n` tracks, in a set.
  unfoldable pub seed : ℕ → Ranked Ftn → List Ftn → List Ftn
  unfolding set_insert
  seed n [] acc = acc
  seed n ((key, entry) ∷ rest) acc = elim n [
    | zero ↦ acc
    | suc m ↦ seed m rest (set_insert dec entry.ftn acc)
  ]
