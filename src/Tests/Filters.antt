-- ===== src/Tests/Filters.antt =====
-- relay/TopNFilter on a few objects.
use moq_testbed.Prelude.{
  ℕ, ◌≡◌, refl, ◌==◌, if◌then◌else◌, true, none, some, List, [], ◌∷◌, ℕ_discrete, lookup,
}
use moq_testbed.Filter.{
  PropertyObserver, ObserverEntry, TopNFilter, new_filter, publish_done, track_ended, downstream,
  Extensions,
}
use moq_testbed.Filter.Check.{Object, changes, values_of, run, told}
use moq_testbed.Filter.Changes.{told-run}
use moq_testbed.Filter.Throttle.{Spaced, moments, moments-Spaced}

abbrev all_calls : PropertyObserver
all_calls = record { on_value_changed = true; on_track_ended = true; on_activity = true }

abbrev fresh : ObserverEntry
fresh = record { last_seen_value = none; observer = all_calls }

-- An observer of property 4, told of activity every 10 ms at most.
abbrev watched : TopNFilter
watched = record new_filter { observers = (4, fresh) ∷ []; activity_threshold = 10 }

abbrev only : ℕ → Extensions
only v p = if p == 4 then some v else none

abbrev object : ℕ → ℕ → Object ℕ
object t v = record { now = t; extensions = only v; message = t }

abbrev objects : List (Object ℕ)
objects = object 100 7 ∷ object 105 7 ∷ object 111 8 ∷ object 112 7 ∷ []

told_values : told 4 (run watched objects).1 ≡ 7 ∷ 8 ∷ 7 ∷ []
unfolding run
told_values = refl

told_moments : moments watched objects ≡ 100 ∷ 111 ∷ []
unfolding moments
told_moments = refl

ended : (publish_done {Message = ℕ} watched 0).1 ≡ track_ended 4 ∷ downstream 0 ∷ []
unfolding publish_done
ended = refl

found : lookup ℕ_discrete 4 watched.observers ≡ some fresh
unfolding lookup ℕ_discrete
found = refl

told-run_example : told 4 (run watched objects).1 ≡ changes none (values_of 4 objects)
told-run_example = told-run 4 objects watched fresh (tt, tt) found refl

moments-Spaced_example : Spaced 10 none (moments watched objects)
moments-Spaced_example = moments-Spaced objects watched
