-- ===== src/Ranking/State.antt =====
-- relay/PropertyRanking.h: the state, and the sorted container. A track name comes from outside the
-- sources, and only its equality is used: it is a parameter with a decision. A session pointer is
-- its address, a `time_point` or a duration a number of milliseconds, the epoch being 0. A callback
-- is an event in the output, in the order of the calls. Callbacks do not call back into the
-- ranking; the flag `iteratingSessions_`, which guards against that, is left out.
use moq_testbed.Prelude.{
  ℕ, suc, Bool, true, Option, none, some, List, [], ◌∷◌, ◌++◌, lookup, if◌then◌else◌, uint64_max,
}
use moq_testbed.Prelude.Assoc.{assign}
use moq_testbed.Ranking.Key.{RankKey, key_gt, key_eq}

pub record RankedEntry (Ftn : Type 0) : Type 0 where
  pub ftn : Ftn
  pub publisher : ℕ

abbrev pub Ranked : Type 0 → Type 0
Ranked Ftn = List (RankKey × RankedEntry Ftn)

-- The iterator into the map is the key of the node that it stands at.
pub record RankIndex : Type 0 where
  pub rank_iter : RankKey
  pub cached_rank : ℕ

pub data TrackState : Type 0 where
  selected deselected : TrackState

pub record SessionInfo (Ftn : Type 0) : Type 0 where
  pub forward : Bool
  pub waterline_key : Option RankKey
  pub selected_tracks : List Ftn

pub record TopNGroup (Ftn : Type 0) : Type 0 where
  pub max_selected : ℕ
  pub sessions : List (ℕ × SessionInfo Ftn)
  pub track_states : List (Ftn × TrackState)
  pub deselected_queue : List Ftn

pub record PropertyRanking (Ftn : Type 0) : Type 0 where
  pub property_type : ℕ
  pub max_deselected : ℕ
  pub idle_timeout : ℕ
  pub sweep_throttle : ℕ
  pub last_sweep_time : Option ℕ
  pub ranked_tracks : Ranked Ftn
  pub track_index_by_name : List (Ftn × RankIndex)
  pub top_n_groups : List (ℕ × TopNGroup Ftn)
  pub publisher_track_count : List (ℕ × ℕ)
  pub next_seq : ℕ
  pub selection_threshold : ℕ
  pub publisher_extended_threshold : ℕ
  pub sorted_thresholds : List ℕ
  pub rank_cache_valid : Bool

-- The calls of `onBatchSelected_`, `onSelected_` and `onEvicted_`.
pub data Event (Ftn : Type 0) : Type 0 where
  on_batch_selected : Ftn → List (ℕ × Bool) → Event Ftn
  on_selected : Ftn → ℕ → Bool → Event Ftn
  on_evicted : Ftn → ℕ → Event Ftn

-- A result with the callbacks made on the way.
abbrev pub W : Type 0 → Type 0 → Type 0
W Ftn A = A × List (Event Ftn)

infixl 5 ◌>>=◌
abbrev pub ◌>>=◌ : {Ftn A B : Type 0} → W Ftn A → (A → W Ftn B) → W Ftn B
m >>= f = let r = f m.0 in (r.0, m.1 ++ r.1)

abbrev pub return : {Ftn A : Type 0} → A → W Ftn A
return a = (a, [])

-- The loop over a map's entries, each changed in place.
unfoldable pub for_each : {Ftn A : Type 0} → (ℕ → A → W Ftn A) → List (ℕ × A) → W Ftn (List (ℕ × A))
for_each f [] = return []
for_each f ((n, a) ∷ m) =
    let a' = f n a in let rest = for_each f m in ((n, a'.0) ∷ rest.0, a'.1 ++ rest.1)

module _ {Ftn : Type 0} where
  -- `rankedTracks_.emplace`: the map is sorted by `operator>`, and a key that is there stays.
  unfoldable pub emplace_ranked : RankKey → RankedEntry Ftn → Ranked Ftn → Ranked Ftn
  emplace_ranked key entry [] = (key, entry) ∷ []
  emplace_ranked key entry ((k, x) ∷ m) =
      if key_gt key k
      then (key, entry) ∷ (k, x) ∷ m
      else if key_gt k key
      then (k, x) ∷ emplace_ranked key entry m
      else (k, x) ∷ m

  -- `rankedTracks_.erase`.
  unfoldable pub erase_ranked : RankKey → Ranked Ftn → Ranked Ftn
  erase_ranked key [] = []
  erase_ranked key ((k, x) ∷ m) = if key_eq k key then m else (k, x) ∷ erase_ranked key m

  -- What an iterator points at.
  unfoldable pub find_ranked : RankKey → Ranked Ftn → Option (RankedEntry Ftn)
  find_ranked key [] = none
  find_ranked key ((k, x) ∷ m) = if key_eq k key then some x else find_ranked key m

module _ {Ftn : Type 0} (dec : Discrete Ftn) where
  -- The loop of `rebuildRankCacheIfNeeded`.
  unfoldable pub rebuild_from : ℕ → Ranked Ftn → List (Ftn × RankIndex) → List (Ftn × RankIndex)
  rebuild_from rank [] index = index
  rebuild_from rank ((key, entry) ∷ rest) index =
      rebuild_from (suc rank) rest (elim (lookup dec entry.ftn index) [
        | none ↦ index
        | some i ↦ assign dec entry.ftn (record i { cached_rank = rank }) index
      ])

  unfoldable pub rebuild_rank_cache_if_needed : PropertyRanking Ftn → PropertyRanking Ftn
  unfolding rebuild_from
  rebuild_rank_cache_if_needed pr = if pr.rank_cache_valid then pr else record pr {
    track_index_by_name = rebuild_from 0 pr.ranked_tracks pr.track_index_by_name;
    rank_cache_valid = true;
  }

  -- `getCachedRank`, on the state with the cache rebuilt.
  unfoldable pub get_cached_rank : PropertyRanking Ftn → Ftn → ℕ
  unfolding lookup
  get_cached_rank pr ftn = elim (lookup dec ftn pr.track_index_by_name) [
    | none ↦ uint64_max
    | some i ↦ i.cached_rank
  ]

  -- `getRank`, on the state with the cache rebuilt; a name that the index lacks has no rank (the
  -- source dereferences the end iterator there).
  unfoldable pub get_rank : PropertyRanking Ftn → RankKey → Option ℕ
  unfolding find_ranked
  get_rank pr key = elim (find_ranked key pr.ranked_tracks) [
    | none ↦ some uint64_max
    | some e ↦ elim (lookup dec e.ftn pr.track_index_by_name) [
      | none ↦ none
      | some i ↦ some i.cached_rank
    ]
  ]
