-- ===== src/Tests/Misses.antt =====
-- MoqxCache: the intervals that a fetch asks upstream for.
use moq_testbed.Prelude.{ℕ, ◌<◌, ◌≡◌, refl, Bool, true, false, List, [], ◌∷◌, leb, arith}
use moq_testbed.Cache.Misses.{
  Interval, minus, miss_intervals, hit_intervals, get_fetch_intervals, in_intervals, is_missing,
  get_fetch_intervals-exact,
}
use moq_testbed.Tests.Caches.{list_locations}

not_last : (g : ℕ) → g < 99 → leb 99 g ≡ false
not_last g h = ground arith

-- From place (6, 2) down to place (3, 4), in the fetch from (3, 1) up to (8, 0).
abbrev asked : Bool → List Interval
asked newest_first =
    get_fetch_intervals list_locations (3, 1) (8, 0) (6, 2) (3, 4) newest_first false

three_intervals : asked true ≡ ((6, 2), (7, 0)) ∷ ((4, 0), (6, 0)) ∷ ((3, 1), (3, 4)) ∷ []
unfolding get_fetch_intervals miss_intervals hit_intervals minus
three_intervals = refl

get_fetch_intervals-exact_example :
    (in_intervals (5, 9) (asked true) ≡ is_missing (3, 1) (8, 0) (6, 2) (3, 4) true (5, 9))
get_fetch_intervals-exact_example =
    get_fetch_intervals-exact list_locations (3, 1) (8, 0) (6, 2) (3, 4) (5, 9) true
      (λ l h. rw (not_last l.0 h) refl) (omega arith) (omega arith) refl refl refl refl refl
