-- ===== src/Histogram.antt =====
-- stats/BoundedHistogram.h: a histogram with fixed bucket boundaries. The counters are uint64 and
-- wrap; the boundaries are an argument, as in the source, where the object only refers to them.
pub mod Cumulative
use moq_testbed.Prelude.{
  ℕ, zero, suc, ◌+◌, List, [], ◌∷◌, replicate, length, leb, u64, if◌then◌else◌,
}

pub record BoundedHistogram : Type 0 where
  pub bounds : List ℕ
  pub buckets : List ℕ
  pub sum : ℕ
  pub count : ℕ

-- The constructor: N + 1 buckets at zero.
unfoldable pub init : List ℕ → BoundedHistogram
init b = record { bounds = b; buckets = replicate (suc (length b)) 0; sum = 0; count = 0 }

-- The loop of `addValue` over the boundaries and the buckets side by side, from an index on: it
-- stops at the first boundary that holds the value, and past the last one counts in bucket N.
unfoldable pub add_to_bucket : ℕ → List ℕ → List ℕ → List ℕ
add_to_bucket val [] [] = []
add_to_bucket val [] (c ∷ cs) = u64 (c + 1) ∷ cs
add_to_bucket val (b ∷ bs) [] = []
add_to_bucket val (b ∷ bs) (c ∷ cs) =
    if leb val b then u64 (c + 1) ∷ cs else c ∷ add_to_bucket val bs cs

unfoldable pub add_value : BoundedHistogram → ℕ → BoundedHistogram
unfolding add_to_bucket
add_value h val = record h {
  count = u64 (h.count + 1);
  sum = u64 (h.sum + val);
  buckets = add_to_bucket val h.bounds h.buckets;
}

-- The loop of `fillCumulative`; `total` is the count that goes into the last slot.
unfoldable pub fill_from : ℕ → ℕ → List ℕ → List ℕ → List ℕ
fill_from total running [] cs = total ∷ []
fill_from total running (b ∷ bs) [] = []
fill_from total running (b ∷ bs) (c ∷ cs) =
    u64 (running + c) ∷ fill_from total (u64 (running + c)) bs cs

unfoldable pub fill_cumulative : BoundedHistogram → List ℕ
unfolding fill_from
fill_cumulative h = fill_from h.count 0 h.bounds h.buckets

-- A run of observations.
unfoldable pub observe : BoundedHistogram → List ℕ → BoundedHistogram
observe h [] = h
observe h (v ∷ vs) = observe (add_value h v) vs
