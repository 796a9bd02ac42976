-- ===== src/Tests/Rankings.antt =====
-- relay/PropertyRanking on a ranking of three tracks by three publishers.
use moq_testbed.Prelude.{
  ℕ, ◌≤◌, ◌<◌, ◌≡◌, ◌⊎◌, refl, true, false, none, some, List, [], ◌∷◌, if◌then◌else◌, lookup,
  length, take, ℕ_discrete, arith, ◌==◌,
}
use moq_testbed.Prelude.Assoc.{contains}
use moq_testbed.Ranking.Key.{RankKey, key_gt}
use moq_testbed.Ranking.State.{
  RankedEntry, Ranked, RankIndex, selected, deselected, SessionInfo, TopNGroup, PropertyRanking,
  on_selected, on_evicted, find_ranked, get_cached_rank, rebuild_rank_cache_if_needed,
}
use moq_testbed.Ranking.Selection.{
  now_selected, compute_waterline_key, reconcile_publisher_selection,
}
use moq_testbed.Ranking.Groups.{state_of, trim_deselected_queue}
use moq_testbed.Ranking.Thresholds.{differ}
use moq_testbed.Ranking.Tracks.{register_track, insert_track}
use moq_testbed.Ranking.Moves.{update_sort_value, remove_track}
use moq_testbed.Ranking.Sweep.{is_idle, sweep_group}
use moq_testbed.Ranking.Order.{IsRanked}
use moq_testbed.Ranking.Waterline.{others, now_selected_lem}
use moq_testbed.Ranking.Delta.{deliver, mentions, deliver-reconcile, mentions-reconcile}
use moq_testbed.Ranking.Ranks.{count_above, IsIndexed, get_cached_rank-position}
use moq_testbed.Ranking.Valid.{
  IsValid, register_track-IsValid, update_sort_value-IsValid, remove_track-IsValid,
}
use moq_testbed.Ranking.Deselected.{evict_each, erase_each, trim_deselected_queue_lem}
use moq_testbed.Ranking.Idle.{sweep_group-reselects}

abbrev key : ℕ → ℕ → RankKey
key v q = record { value = v; arrival_seq = q }

abbrev by : ℕ → ℕ → RankedEntry ℕ
by f p = record { ftn = f; publisher = p }

abbrev at : ℕ → ℕ → ℕ → RankIndex
at v q r = record { rank_iter = key v q; cached_rank = r }

abbrev three : Ranked ℕ
three = (key 9 2, by 30 103) ∷ (key 5 0, by 10 101) ∷ (key 5 1, by 20 102) ∷ []

abbrev index : List (ℕ × RankIndex)
index = (10, at 5 0 0) ∷ (20, at 5 1 1) ∷ (30, at 9 2 2) ∷ []

abbrev viewer : SessionInfo ℕ
viewer = record { forward = true; waterline_key = none; selected_tracks = [] }

abbrev publisher : SessionInfo ℕ
publisher = record { forward = true; waterline_key = none; selected_tracks = 20 ∷ [] }

abbrev group : TopNGroup ℕ
group = record {
  max_selected = 1;
  sessions = (101, publisher) ∷ (500, viewer) ∷ [];
  track_states = (30, selected) ∷ (10, deselected) ∷ (20, deselected) ∷ [];
  deselected_queue = 10 ∷ 20 ∷ [];
}

abbrev ranking : PropertyRanking ℕ
ranking = record {
  property_type = 4;
  max_deselected = 1;
  idle_timeout = 1000;
  sweep_throttle = 0;
  last_sweep_time = none;
  ranked_tracks = three;
  track_index_by_name = index;
  top_n_groups = (1, group) ∷ [];
  publisher_track_count = (101, 1) ∷ (102, 1) ∷ (103, 1) ∷ [];
  next_seq = 3;
  selection_threshold = 1;
  publisher_extended_threshold = 2;
  sorted_thresholds = 1 ∷ [];
  rank_cache_valid = false;
}

three-IsRanked : IsRanked three
unfolding key_gt
three-IsRanked = record {
  sorted = ((refl, (refl, tt)), ((refl, tt), (tt, tt)));
  named = ((λ e. omega arith, (λ e. omega arith, tt)), ((λ e. omega arith, tt), (tt, tt)));
}

now_selected_lem_example :
    now_selected ℕ_discrete 101 (compute_waterline_key ranking 101 1) three
    ≡ (if 1 == 0 then others 101 three else take 1 (others 101 three))
now_selected_lem_example = now_selected_lem ℕ_discrete ranking 101 1 three-IsRanked

deliver-reconcile_example :
    let done = reconcile_publisher_selection ℕ_discrete ranking publisher 1 101 in
    contains ℕ_discrete 30 (deliver ℕ_discrete done.1 (20 ∷ []))
    ≡ contains ℕ_discrete 30
        (now_selected ℕ_discrete 101 (compute_waterline_key ranking 101 1) three)
deliver-reconcile_example = deliver-reconcile ℕ_discrete ranking publisher 1 101 30

mentions-reconcile_example :
    let done = reconcile_publisher_selection ℕ_discrete ranking publisher 1 101 in
    let again = reconcile_publisher_selection ℕ_discrete ranking done.0 1 101 in
    (mentions ℕ_discrete 20 done.1
      ≡ differ (contains ℕ_discrete 20 (20 ∷ [])) (contains ℕ_discrete 20 done.0.selected_tracks))
    × (mentions ℕ_discrete 20 again.1 ≡ false)
mentions-reconcile_example = mentions-reconcile ℕ_discrete ranking publisher 1 101 20

reconcile_calls :
    (reconcile_publisher_selection ℕ_discrete ranking publisher 1 101).1
    ≡ on_evicted 20 101 ∷ on_selected 30 101 true ∷ []
unfolding reconcile_publisher_selection compute_waterline_key now_selected ℕ_discrete
reconcile_calls = refl

indexed : IsIndexed ℕ_discrete index three
unfolding lookup ℕ_discrete
indexed = ((at 9 2 2, refl, refl), ((at 5 0 0, refl, refl), ((at 5 1 1, refl, refl), tt)))

get_cached_rank-position_example :
    (get_cached_rank ℕ_discrete (rebuild_rank_cache_if_needed ℕ_discrete ranking) 10 ≡ 1)
    × (count_above (key 5 0) three ≡ 1)
get_cached_rank-position_example =
    get_cached_rank-position ℕ_discrete ranking 1 (key 5 0) (by 10 101) three-IsRanked indexed refl
      refl

-- A ranking built by the operations.
abbrev empty : PropertyRanking ℕ
empty = record ranking {
  ranked_tracks = [];
  track_index_by_name = [];
  publisher_track_count = [];
  next_seq = 0;
}

empty-IsValid : IsValid ℕ_discrete empty
unfolding find_ranked lookup
empty-IsValid = record {
  ranked = record { sorted = tt; named = tt };
  sequenced = tt;
  agree = record { listed = λ k e h. cc; known = λ f i h. cc };
}

abbrev one : PropertyRanking ℕ
one = (register_track ℕ_discrete empty 10 (some 5) 101).0

one-IsValid : IsValid ℕ_discrete one
one-IsValid =
    (register_track-IsValid ℕ_discrete empty 10 (some 5) 101 (omega arith) empty-IsValid).0

one-next_seq : one.next_seq ≡ 1
unfolding register_track insert_track lookup ℕ_discrete
one-next_seq = refl

register_track-IsValid_example :
    IsValid ℕ_discrete (register_track ℕ_discrete one 20 none 102).0
    × ((lookup ℕ_discrete 20 one.track_index_by_name ≡ none)
        ⊎ (register_track ℕ_discrete one 20 none 102 ≡ (one, [])))
register_track-IsValid_example =
    register_track-IsValid ℕ_discrete one 20 none 102 (omega (arith, one-next_seq)) one-IsValid

update_sort_value-IsValid_example :
    IsValid ℕ_discrete (update_sort_value ℕ_discrete 2000 (λ f. 1500) one 10 3).0
update_sort_value-IsValid_example =
    update_sort_value-IsValid ℕ_discrete 2000 (λ f. 1500) one 10 3 one-IsValid

remove_track-IsValid_example : IsValid ℕ_discrete (remove_track ℕ_discrete one 10).0
remove_track-IsValid_example = remove_track-IsValid ℕ_discrete one 10 one-IsValid

trim_deselected_queue_lem_example :
    let done = trim_deselected_queue ℕ_discrete ranking group in
    (length done.0.deselected_queue ≤ 1)
    × (10 ∷ done.0.deselected_queue ≡ 10 ∷ 20 ∷ [])
    × (done.0.track_states ≡ erase_each ℕ_discrete (10 ∷ []) group.track_states)
    × (done.0.sessions ≡ group.sessions)
    × (done.1 ≡ evict_each (10 ∷ []) group.sessions)
trim_deselected_queue_lem_example = trim_deselected_queue_lem ℕ_discrete ranking group

abbrev strict : PropertyRanking ℕ
strict = record ranking { max_deselected = 0 }

abbrev busy : TopNGroup ℕ
busy = record {
  max_selected = 2;
  sessions = (500, viewer) ∷ [];
  track_states = (30, selected) ∷ (10, selected) ∷ [];
  deselected_queue = [];
}

silent : (t : ℕ) → t < 1000 → is_idle strict 5000 t ≡ true
unfolding is_idle
silent t h = ground arith

sweep_group-reselects_example :
    state_of ℕ_discrete (sweep_group ℕ_discrete 5000 (λ f. f) strict (30 ∷ 10 ∷ []) busy).0 30
    ≡ some selected
sweep_group-reselects_example =
    sweep_group-reselects ℕ_discrete strict 5000 (λ f. f) busy 10 (key 9 2) (by 30 103)
      ((key 5 0, by 10 101) ∷ (key 5 1, by 20 102) ∷ []) refl refl refl (λ e. omega arith)
      (silent 30 (omega arith)) (silent 10 (omega arith))
