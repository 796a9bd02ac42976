-- ===== src/Histogram/Cumulative.antt =====
-- What a histogram reports after a run of observations.
use moq_testbed.Prelude.{
  ℕ, suc, ◌+◌, ◌^◌, ◌≤◌, ◌<◌, ◌≡◌, refl, ap, ◌∙◌, List, [], ◌∷◌, ◌++◌, map, length, replicate, leb,
  if◌then◌else◌, arith, Bool-cases, inl, inr, u64,
}
use moq_testbed.Histogram.{
  BoundedHistogram, init, add_to_bucket, add_value, fill_from, fill_cumulative, observe,
}

-- How many of the values are at most `b`.
abbrev pub count_le : ℕ → List ℕ → ℕ
count_le b [] = 0
count_le b (v ∷ vs) = (if leb v b then 1 else 0) + count_le b vs

abbrev pub sum_of : List ℕ → ℕ
sum_of [] = 0
sum_of (v ∷ vs) = v + sum_of vs

abbrev AllAbove : ℕ → List ℕ → Type 0
AllAbove a [] = Unit {0}
AllAbove a (b ∷ bs) = (a ≤ b) × AllAbove a bs

abbrev pub IsAscending : List ℕ → Type 0
IsAscending [] = Unit {0}
IsAscending (b ∷ bs) = AllAbove b bs × IsAscending bs

-- Running from `r`, the buckets add up to `f b` at each boundary `b`; one bucket stands past them.
abbrev Adds : ℕ → List ℕ → List ℕ → (ℕ → ℕ) → Type 0
Adds r [] [] f = ⊥
Adds r [] (c ∷ cs) f = Unit {0}
Adds r (b ∷ bs) [] f = ⊥
Adds r (b ∷ bs) (c ∷ cs) f = (r + c ≡ f b) × Adds (r + c) bs cs f

abbrev bumped : ℕ → (ℕ → ℕ) → ℕ → ℕ
bumped v f b = (if leb v b then 1 else 0) + f b

AllAbove-trans : (a b : ℕ) (bs : List ℕ) → a ≤ b → AllAbove b bs → AllAbove a bs
AllAbove-trans a b [] h all = tt
AllAbove-trans a b (c ∷ bs) h all = (omega arith, AllAbove-trans a b bs h all.1)

Adds-shift :
    (v r s : ℕ) (bs cs : List ℕ) (f : ℕ → ℕ)
    → s ≡ suc r
    → AllAbove v bs
    → Adds r bs cs f
    → Adds s bs cs (bumped v f)
Adds-shift v r s [] [] f e all h = h
Adds-shift v r s [] (c ∷ cs) f e all h = tt
Adds-shift v r s (b ∷ bs) [] f e all h = h
Adds-shift v r s (b ∷ bs) (c ∷ cs) f e all h =
    (ground arith, Adds-shift v (r + c) (s + c) bs cs f (omega arith) all.1 h.1)

Adds-add_to_bucket :
    (v r : ℕ) (bs cs : List ℕ) (f : ℕ → ℕ)
    → ((b : ℕ) → suc (f b) < 2 ^ 64)
    → IsAscending bs
    → Adds r bs cs f
    → Adds r bs (add_to_bucket v bs cs) (bumped v f)
unfolding add_to_bucket
Adds-add_to_bucket v r [] [] f small up h = h
Adds-add_to_bucket v r [] (c ∷ cs) f small up h = tt
Adds-add_to_bucket v r (b ∷ bs) [] f small up h = h
Adds-add_to_bucket v r (b ∷ bs) (c ∷ cs) f small up h = elim (Bool-cases (leb v b)) [
  | inl here ↦
      rw (here, here)
        (let wide = small b in
          (
            omega arith,
            Adds-shift v (r + c) (r + u64 (c + 1)) bs cs f (omega arith)
                (AllAbove-trans v b bs (ground arith) up.0) h.1,
          ))
  | inr later ↦ rw (later, later) (omega arith, Adds-add_to_bucket v (r + c) bs cs f small up.1 h.1)
]

Adds-init : (bs : List ℕ) → Adds 0 bs (replicate (suc (length bs)) 0) (λ b. 0)
Adds-init [] = tt
Adds-init (b ∷ bs) = (omega arith, Adds-init bs)

Adds-cong :
    (r : ℕ) (bs cs : List ℕ) (f g : ℕ → ℕ) → ((b : ℕ) → f b ≡ g b) → Adds r bs cs f → Adds r bs cs g
Adds-cong r [] [] f g e h = h
Adds-cong r [] (c ∷ cs) f g e h = tt
Adds-cong r (b ∷ bs) [] f g e h = h
Adds-cong r (b ∷ bs) (c ∷ cs) f g e h = (omega (arith, e b), Adds-cong (r + c) bs cs f g e h.1)

module _ (bounds : List ℕ) (up : IsAscending bounds) where
  observe-Adds :
      (vs : List ℕ) (h : BoundedHistogram) (f : ℕ → ℕ)
      → ((b : ℕ) → f b + length vs < 2 ^ 64)
      → h.bounds ≡ bounds
      → Adds 0 bounds h.buckets f
      → Adds 0 bounds (observe h vs).buckets (λ b. count_le b vs + f b)
  unfolding observe add_value
  observe-Adds [] h f small same adds = Adds-cong 0 bounds h.buckets f _ (λ b. omega arith) adds
  observe-Adds (v ∷ vs) h f small same adds =
      Adds-cong 0 bounds (observe (add_value h v) vs).buckets _ _ (λ b. omega arith)
        (observe-Adds vs (add_value h v) (bumped v f) (λ b. let room = small b in ground arith) same
          (rw same (
            Adds-add_to_bucket v 0 bounds h.buckets f (λ b. let room = small b in omega arith) up
              adds)))

observe-count :
    (vs : List ℕ) (h : BoundedHistogram)
    → h.count + length vs < 2 ^ 64
    → ((observe h vs).count ≡ h.count + length vs) × ((observe h vs).bounds ≡ h.bounds)
unfolding observe add_value
observe-count [] h small = (omega arith, refl)
observe-count (v ∷ vs) h small =
    let (total, same) = observe-count vs (add_value h v) (omega arith) in
    (rw total (omega arith), same)

fill_from-map :
    (total r : ℕ) (bs cs : List ℕ) (f : ℕ → ℕ)
    → ((b : ℕ) → f b < 2 ^ 64)
    → Adds r bs cs f
    → fill_from total r bs cs ≡ map f bs ++ total ∷ []
unfolding fill_from
fill_from-map total r [] [] f small h = absurd h
fill_from-map total r [] (c ∷ cs) f small h = refl
fill_from-map total r (b ∷ bs) [] f small h = absurd h
fill_from-map total r (b ∷ bs) (c ∷ cs) f small h =
    let e : u64 (r + c) ≡ r + c = omega (arith, small b) in
    rw (e, h.0) (ap (◌∷◌ (f b)) (fill_from-map total (f b) bs cs f small (rw h.0 at h.1)))

count_le-le : (b : ℕ) (vs : List ℕ) → count_le b vs ≤ length vs
count_le-le b [] = omega arith
count_le-le b (v ∷ vs) = ground (arith, count_le-le b vs)

-- After any run of fewer than 2 ^ 64 observations on a new histogram with ascending boundaries,
-- the cumulative view holds, for each boundary, how many of the observed values are at most that
-- boundary, and last the number of observations.
pub fill_cumulative-observe :
    (bounds vs : List ℕ)
    → IsAscending bounds
    → length vs < 2 ^ 64
    → fill_cumulative (observe (init bounds) vs) ≡ map (λ b. count_le b vs) bounds ++ length vs ∷ []
unfolding fill_cumulative init
fill_cumulative-observe bounds vs up small =
    let h = init bounds in
    let (total, same) = observe-count vs h (omega arith) in
    let all : (observe h vs).count ≡ length vs = omega (arith, total) in
    rw (all, same)
      (fill_from-map (length vs) 0 bounds (observe h vs).buckets (λ b. count_le b vs)
        (λ b. omega (arith, count_le-le b vs))
        (Adds-cong 0 bounds (observe h vs).buckets _ _ (λ b. omega arith)
          (observe-Adds bounds up vs h (λ b. 0) (λ b. omega arith) refl (Adds-init bounds))))

-- The sum field is the sum of all the observed values modulo 2 ^ 64, whatever the boundaries.
pub sum-observe :
    (vs : List ℕ) (h : BoundedHistogram)
    → h.sum < 2 ^ 64
    → (observe h vs).sum ≡ u64 (h.sum + sum_of vs)
unfolding observe add_value
sum-observe [] h small = omega arith
sum-observe (v ∷ vs) h small = sum-observe vs (add_value h v) (omega arith) ∙ omega arith
