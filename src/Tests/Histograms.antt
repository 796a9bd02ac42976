-- ===== src/Tests/Histograms.antt =====
-- stats/BoundedHistogram.h on a few latencies.
use moq_testbed.Prelude.{ℕ, ◌+◌, ◌≡◌, refl, List, [], ◌∷◌, ◌++◌, map, length, u64, arith}
use moq_testbed.Histogram.{init, observe, fill_cumulative, add_value}
use moq_testbed.Histogram.Cumulative.{count_le, fill_cumulative-observe, sum-observe, sum_of}

abbrev boundaries : List ℕ
boundaries = 10 ∷ 50 ∷ 100 ∷ []

abbrev latencies : List ℕ
latencies = 7 ∷ 10 ∷ 51 ∷ 700 ∷ []

latencies_cumulative : fill_cumulative (observe (init boundaries) latencies) ≡ 2 ∷ 2 ∷ 3 ∷ 4 ∷ []
unfolding fill_cumulative init observe add_value
latencies_cumulative = refl

fill_cumulative-observe_example :
    fill_cumulative (observe (init boundaries) latencies)
    ≡ map (λ b. count_le b latencies) boundaries ++ length latencies ∷ []
fill_cumulative-observe_example =
    fill_cumulative-observe boundaries latencies
      ((omega arith, (omega arith, tt)), ((omega arith, tt), (tt, tt))) (omega arith)

sum-observe_example :
    (observe (init boundaries) latencies).sum ≡ u64 ((init boundaries).sum + sum_of latencies)
unfolding init
sum-observe_example = sum-observe latencies (init boundaries) (omega arith)
