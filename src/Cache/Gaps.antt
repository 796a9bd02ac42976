-- ===== src/Cache/Gaps.antt =====
-- MoqxCache: the ranges of places that a fetch has found not to exist.
use moq_testbed.Prelude.{
  Bool, false, not, ◌&&◌, ◌||◌, Option, none, some, List, [], ◌∷◌, ltb, leb, ◌==◌, if◌then◌else◌,
}
use moq_testbed.Cache.State.{Location, after}

-- What the ranges use of moxygen's locations. The greatest object number is that of `kLocationMax`.
pub record Places : Type 0 where
  pub location_max : Location
  pub prev_in_group : Location → Option Location
  pub prev : Location → Option Location
  pub next_group : Location → Option Location
  pub prev_group_end : Location → Option Location

-- A range has both its ends.
abbrev pub Range : Type 0
Range = Location × Location

abbrev pub in_ranges : Location → List Range → Bool
in_ranges l [] = false
in_ranges l (r ∷ rs) = (not (after r.0 l) && not (after l r.1)) || in_ranges l rs

abbrev pub to_end : Location → Option Location → Option (List Range)
to_end start none = none
to_end start (some end) = some ((start, end) ∷ [])

module _ (P : Places) where
  -- The three steps for newest first: the rest of the group, the groups between, the start of the last
  -- group. An optional without a value that is used all the same is `none`.
  abbrev pub rest_of_group : Location → Location → Option (List Range) → Option (List Range)
  rest_of_group start fetch_end none = none
  rest_of_group start fetch_end (some rs) =
      if start.0 == fetch_end.0
      then elim (P.prev_in_group fetch_end) [ none ↦ none | some last ↦ some ((start, last) ∷ rs) ]
      else some ((start, (start.0, P.location_max.1)) ∷ rs)

  abbrev pub groups_between :
      Option Location → Option Location → Option (List Range) → Option (List Range)
  groups_between (some next) (some last) (some rs) =
      some (if leb next.0 last.0 then (next, last) ∷ rs else rs)
  groups_between next last rs = none

  abbrev pub start_of_group : Location → Location → Option (List Range)
  start_of_group end fetch_start =
      let first = if end.0 == fetch_start.0 then fetch_start else (end.0, 0) in
      if after end first then to_end first (P.prev_in_group end) else some []

  abbrev pub is_empty_range : Bool → Location → Location → Bool
  is_empty_range newest_first_order start end =
      if newest_first_order
      then ltb start.0 end.0 || (start.0 == end.0) && leb end.1 start.1
      else not (after end start)

  -- `none` where a check fails.
  unfoldable pub get_gap_ranges :
      Location → Location → Bool → Location → Location → Option (List Range)
  get_gap_ranges start end newest_first_order fetch_start fetch_end =
      if is_empty_range newest_first_order start end
      then some []
      else if start.0 == end.0
      then elim (P.prev_in_group end) [ none ↦ some [] | some last ↦ some ((start, last) ∷ []) ]
      else if not newest_first_order
      then to_end start (P.prev end)
      else rest_of_group start fetch_end (
          groups_between (P.next_group end) (P.prev_group_end start)
            (start_of_group end fetch_start))
