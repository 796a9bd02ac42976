-- ===== src/Ranking/Thresholds.antt =====
-- relay/PropertyRanking.cpp: the fast path. `crossesThreshold` says whether a move of a track from
-- one rank to another has to be looked at.
use moq_testbed.Prelude.{
  ℕ, ◌+◌, max, min, Bool, true, false, not, ◌&&◌, ◌||◌, Option, none, some, List, [], ◌∷◌, lookup,
  leb, ltb, if◌then◌else◌, u64, ℕ_discrete,
}
use moq_testbed.Prelude.Assoc.{keys}
use moq_testbed.Ranking.State.{SessionInfo, TopNGroup, PropertyRanking}

-- `std::sort` of the thresholds.
unfoldable pub insert_sorted : ℕ → List ℕ → List ℕ
insert_sorted n [] = n ∷ []
insert_sorted n (m ∷ ms) = if leb n m then n ∷ m ∷ ms else m ∷ insert_sorted n ms

unfoldable pub sort : List ℕ → List ℕ
unfolding insert_sorted
sort [] = []
sort (n ∷ ns) = insert_sorted n (sort ns)

-- `std::upper_bound` on the sorted thresholds.
unfoldable pub upper_bound : List ℕ → ℕ → Option ℕ
upper_bound [] r = none
upper_bound (t ∷ ts) r = if ltb r t then some t else upper_bound ts r

abbrev pub is_empty {ℓ} : {A : Type ℓ} → List A → Bool
is_empty [] = true
is_empty (x ∷ xs) = false

-- Is the threshold that `upper_bound` found at most `hi`?
abbrev pub reaches : ℕ → Option ℕ → Bool
reaches hi none = false
reaches hi (some t) = leb t hi

abbrev pub differ : Bool → Bool → Bool
differ true b = not b
differ false b = b

module _ {Ftn : Type 0} where
  unfoldable pub max_n : List (ℕ × TopNGroup Ftn) → ℕ
  max_n [] = 0
  max_n ((n, g) ∷ rest) = max n (max_n rest)

  unfoldable pub update_selection_threshold : PropertyRanking Ftn → PropertyRanking Ftn
  unfolding max_n sort
  update_selection_threshold pr = record pr {
    sorted_thresholds = sort (keys pr.top_n_groups);
    selection_threshold = u64 (max_n pr.top_n_groups + pr.max_deselected);
  }

  -- max(N + selfTrackCount) over the sessions of one group that publish.
  unfoldable pub extended_in_group : List (ℕ × ℕ) → ℕ → List (ℕ × SessionInfo Ftn) → ℕ
  unfolding lookup ℕ_discrete
  extended_in_group counts n [] = 0
  extended_in_group counts n ((s, info) ∷ rest) =
      max (elim (lookup ℕ_discrete s counts) [ none ↦ 0 | some count ↦ u64 (n + count) ])
        (extended_in_group counts n rest)

  unfoldable pub max_extended : List (ℕ × ℕ) → List (ℕ × TopNGroup Ftn) → ℕ
  unfolding extended_in_group
  max_extended counts [] = 0
  max_extended counts ((n, g) ∷ rest) =
      max (extended_in_group counts n g.sessions) (max_extended counts rest)

  unfoldable pub update_publisher_extended_threshold : PropertyRanking Ftn → PropertyRanking Ftn
  unfolding max_extended
  update_publisher_extended_threshold pr = record pr {
    publisher_extended_threshold =
        u64 (max_extended pr.publisher_track_count pr.top_n_groups + pr.max_deselected);
  }

  unfoldable pub crosses_threshold : PropertyRanking Ftn → ℕ → ℕ → Bool
  crosses_threshold pr old_rank new_rank =
      let effective = max pr.selection_threshold pr.publisher_extended_threshold in
      let lo = min old_rank new_rank in
      let hi = max old_rank new_rank in
      let extended =
        max (max_n pr.top_n_groups) (max_extended pr.publisher_track_count pr.top_n_groups) in
      if is_empty pr.top_n_groups
      then false
      else if leb effective old_rank && leb effective new_rank
      then false
      else if differ (ltb old_rank pr.selection_threshold) (ltb new_rank pr.selection_threshold)
      then true
      else if reaches hi (upper_bound pr.sorted_thresholds lo)
      then true
      else if is_empty pr.publisher_track_count
      then false
      else ltb lo extended || ltb hi extended
