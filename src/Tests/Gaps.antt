-- ===== src/Tests/Gaps.antt =====
-- MoqxCache: the ranges that a fetch has found not to exist.
use moq_testbed.Prelude.{
  ℕ, ◌+◌, ◌-◌, ◌<◌, ◌≡◌, refl, Bool, true, false, Option, none, some, List, [], ◌∷◌, ltb,
  if◌then◌else◌, arith,
}
use moq_testbed.Cache.Gaps.{Places, Range, get_gap_ranges}
use moq_testbed.Cache.Passed.{HasPlaces, Covers, is_passed, get_gap_ranges-exact}

abbrev places : Places
places = record {
  location_max = (99, 99);
  prev_in_group = λ l. if ltb 0 l.1 then some (l.0, l.1 - 1) else none;
  prev = λ l.
      if ltb 0 l.1 then some (l.0, l.1 - 1) else if ltb 0 l.0 then some (l.0 - 1, 99) else none;
  next_group = λ l. if ltb l.0 99 then some (l.0 + 1, 0) else none;
  prev_group_end = λ l. if ltb 0 l.0 then some (l.0 - 1, 99) else none;
}

below : (m n : ℕ) → m < n → ltb m n ≡ true
below m n h = ground arith

none_below : (n : ℕ) → n ≡ 0 → ltb 0 n ≡ false
none_below n h = ground arith

places-HasPlaces : HasPlaces places
places-HasPlaces = record {
  prev_in_group_lem = λ l h. rw (below 0 l.1 h) refl;
  prev_lem = λ l h. rw (below 0 l.1 h) refl;
  prev_first = λ l h g. rw (none_below l.1 h, below 0 l.0 g) refl;
  next_group_lem = λ l h. rw (below l.0 99 h) refl;
  prev_group_end_lem = λ l h. rw (below 0 l.0 h) refl;
}

-- From place (6, 2) down to place (3, 4), in the fetch from (3, 1) up to (8, 0).
abbrev gaps : Bool → Option (List Range)
gaps newest_first = get_gap_ranges places (6, 2) (3, 4) newest_first (3, 1) (8, 0)

three_ranges : gaps true ≡ some (((6, 2), (6, 99)) ∷ ((4, 0), (5, 99)) ∷ ((3, 1), (3, 3)) ∷ [])
unfolding get_gap_ranges
three_ranges = refl

get_gap_ranges-exact_example :
    Covers (5, 9) (is_passed (6, 2) (3, 4) true (3, 1) (8, 0) (5, 9)) (gaps true)
get_gap_ranges-exact_example =
    get_gap_ranges-exact places places-HasPlaces (5, 9) (omega arith) (6, 2) (3, 4) true (3, 1)
      (8, 0) (omega arith) refl refl refl refl
