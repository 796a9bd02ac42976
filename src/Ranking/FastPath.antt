-- ===== src/Ranking/FastPath.antt =====
-- PropertyRanking: the fast path of `updateSortValue` and the thresholds of the groups.
use moq_testbed.Prelude.{ℕ, ◌≤◌, ◌≡◌, List, [], ◌∷◌, ltb}
use moq_testbed.Prelude.Assoc.{keys}
use moq_testbed.Ranking.State.{PropertyRanking}
use moq_testbed.Ranking.Thresholds.{sort, max_n, max_extended}

abbrev pub Each {ℓ} : {A : Type ℓ} → (A → Type 0) → List A → Type 0
Each P [] = Unit {0}
Each P (x ∷ xs) = P x × Each P xs

abbrev Ascends : ℕ → List ℕ → Type 0
Ascends a [] = Unit {0}
Ascends a (t ∷ ts) = (a ≤ t) × Ascends t ts

-- The two ranks lie on one side of the threshold.
abbrev pub SameSide : ℕ → ℕ → ℕ → Type 0
SameSide old new n = ltb old n ≡ ltb new n

module _ {Ftn : Type 0} where
  -- The thresholds agree with the groups.
  pub record HasThresholds (pr : PropertyRanking Ftn) : Type 0 where
    pub sorted : pr.sorted_thresholds ≡ sort (keys pr.top_n_groups)
    pub selection : max_n pr.top_n_groups ≤ pr.selection_threshold
    pub extended :
        max_extended pr.publisher_track_count pr.top_n_groups ≤ pr.publisher_extended_threshold
