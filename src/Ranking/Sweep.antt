-- ===== src/Ranking/Sweep.antt =====
-- relay/PropertyRanking.cpp, sweepIdle. The clock and the relay's `getLastActivity` are arguments;
-- an activity of 0 is the default `time_point`.
use moq_testbed.Prelude.{
  ℕ, ◌-◌, Bool, false, ◌&&◌, ◌||◌, Option, none, some, List, [], ◌∷◌, ltb, ◌==◌, if◌then◌else◌,
}
use moq_testbed.Ranking.State.{
  TrackState, selected, deselected, TopNGroup, PropertyRanking, W, ◌>>=◌, return, for_each,
}
use moq_testbed.Ranking.Groups.{demote_track, promote_next_available_track}

module _ {Ftn : Type 0} where
  -- The snapshot of the Selected tracks.
  unfoldable pub selected_of : List (Ftn × TrackState) → List Ftn
  selected_of [] = []
  selected_of ((f, selected) ∷ m) = f ∷ selected_of m
  selected_of ((f, deselected) ∷ m) = selected_of m

  -- Never published, or silent for longer than the timeout. A time later than `now` is not idle.
  unfoldable pub is_idle : PropertyRanking Ftn → ℕ → ℕ → Bool
  is_idle pr now last_activity = last_activity == 0 || ltb pr.idle_timeout (now - last_activity)

  abbrev pub throttled : PropertyRanking Ftn → ℕ → Option ℕ → Bool
  throttled pr now none = false
  throttled pr now (some last) = ltb 0 pr.sweep_throttle && ltb (now - last) pr.sweep_throttle

module _ {Ftn : Type 0} (dec : Discrete Ftn) (now : ℕ) (last_activity : Ftn → ℕ) where
  -- The inner loop of `sweepIdle`, over the snapshot.
  unfoldable pub sweep_group :
      PropertyRanking Ftn → List Ftn → TopNGroup Ftn → W Ftn (TopNGroup Ftn)
  unfolding is_idle demote_track promote_next_available_track
  sweep_group pr [] g = return g
  sweep_group pr (ftn ∷ rest) g =
      let skip = sweep_group pr rest g in
      let evict = (do
        g' ← demote_track dec pr g ftn
        g'' ← promote_next_available_track dec pr g' ftn
        sweep_group pr rest g'') in
      if is_idle pr now (last_activity ftn) then evict else skip

  unfoldable pub sweep_idle : PropertyRanking Ftn → W Ftn (PropertyRanking Ftn)
  unfolding sweep_group selected_of for_each
  sweep_idle pr =
      let swept = for_each (λ n g. sweep_group pr (selected_of g.track_states) g) pr.top_n_groups in
      if pr.idle_timeout == 0 || throttled pr now pr.last_sweep_time
      then return pr
      else (record pr { last_sweep_time = some now; top_n_groups = swept.0 }, swept.1)
