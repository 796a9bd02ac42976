-- ===== src/Ranking/Waterline.antt =====
-- PropertyRanking: the waterline and the first N tracks of others.
use moq_testbed.Prelude.{
  ℕ, zero, suc, ◌+◌, ◌-◌, ◌<◌, ◌≡◌, refl, sym, subst, true, false, Option, none, some, List, [],
  ◌∷◌, ◌==◌, if◌then◌else◌, take, arith, Bool-cases, Option-cases, inl, inr, if_neg,
}
use moq_testbed.Prelude.Assoc.{contains, set_insert}
use moq_testbed.Ranking.Key.{RankKey, key_gt, key_ge}
use moq_testbed.Ranking.State.{Ranked, RankedEntry, PropertyRanking}
use moq_testbed.Ranking.Selection.{
  above_waterline, waterline_from, compute_waterline_key, now_selected,
}
use moq_testbed.Ranking.Order.{Below, IsSorted, Fresh, IsNamed, IsRanked}

-- The names of the tracks of others, in the order of their ranks.
abbrev pub others : {Ftn : Type 0} → ℕ → Ranked Ftn → List Ftn
others session [] = []
others session ((key, entry) ∷ rest) =
    let later = others session rest in
    if entry.publisher == session then later else entry.ftn ∷ later

key_ge_refl : (a : RankKey) → key_ge a a ≡ true
unfolding key_ge
key_ge_refl a = ground arith

key_gt→key_ge : (a b : RankKey) → key_gt a b ≡ true → key_ge a b ≡ true
unfolding key_ge
key_gt→key_ge a b h = rw h

key_gt→not-key_ge : (a b : RankKey) → key_gt a b ≡ true → key_ge b a ≡ false
unfolding key_ge
key_gt→not-key_ge a b h = ground arith

module _ {Ftn : Type 0} (dec : Discrete Ftn) (s n : ℕ) where
  now_selected-Below :
      (w : RankKey) (m : Ranked Ftn) → Below w m → now_selected dec s (some w) m ≡ []
  unfolding now_selected
  now_selected-Below w [] below = refl
  now_selected-Below w ((k, e) ∷ m) below =
      rw (key_gt→not-key_ge w k below.0) (ground (arith, now_selected-Below w m below.1))

  waterline-Below :
      (k w : RankKey) (c : ℕ) (m : Ranked Ftn)
      → Below k m
      → waterline_from s n c m ≡ some w
      → key_gt k w ≡ true
  unfolding waterline_from
  waterline-Below k w c [] below h = cc
  waterline-Below k w c ((j, e) ∷ m) below h = elim (Bool-cases (e.publisher == s)) [
    | inl self ↦ waterline-Below k w c m below.1 (rw self at h)
    | inr other ↦ elim (Bool-cases (c + 1 == n)) [
      | inl last ↦
          let e : some j ≡ some w = rw (other, last) at h in
          let same : j ≡ w = cc in subst (λ (x : RankKey). key_gt k x ≡ true) same below.0
      | inr more ↦ waterline-Below k w (c + 1) m below.1 (rw (other, more) at h)
    ]
  ]

  above_waterline_head :
      (k : RankKey) (c : ℕ) (m : Ranked Ftn)
      → Below k m
      → above_waterline k (waterline_from s n c m) ≡ true
  above_waterline_head k c m below = elim (Option-cases (waterline_from s n c m)) [
    | inl e ↦ rw e
    | inr (w, e) ↦ rw e (key_gt→key_ge k w (waterline-Below k w c m below e))
  ]

  contains-take-Fresh :
      (f : Ftn) (k : ℕ) (m : Ranked Ftn) → Fresh f m → contains dec f (take k (others s m)) ≡ false
  unfolding contains
  contains-take-Fresh f zero m h = refl
  contains-take-Fresh f (suc k) [] h = refl
  contains-take-Fresh f (suc k) ((j, e) ∷ m) h = elim (Bool-cases (e.publisher == s)) [
    | inl self ↦ rw self (contains-take-Fresh f (suc k) m h.1)
    | inr other ↦ rw (other, if_neg _ h.0) (contains-take-Fresh f k m h.1)
  ]

  take-nil : (k : ℕ) → take {A = Ftn} k [] ≡ []
  take-nil zero = refl
  take-nil (suc k) = refl

  module _ (k : RankKey) (e : RankedEntry Ftn) (c : ℕ) (m : Ranked Ftn) where
    waterline_self :
        (e.publisher == s) ≡ true → waterline_from s n c ((k, e) ∷ m) ≡ waterline_from s n c m
    unfolding waterline_from
    waterline_self self = rw self

    waterline_last :
        (e.publisher == s) ≡ false
        → (c + 1 == n) ≡ true
        → waterline_from s n c ((k, e) ∷ m) ≡ some k
    unfolding waterline_from
    waterline_last other last = rw (other, last)

    waterline_more :
        (e.publisher == s) ≡ false
        → (c + 1 == n) ≡ false
        → waterline_from s n c ((k, e) ∷ m) ≡ waterline_from s n (c + 1) m
    unfolding waterline_from
    waterline_more other more = rw (other, more)

    now_selected_self :
        (w : Option RankKey)
        → (e.publisher == s) ≡ true
        → now_selected dec s w ((k, e) ∷ m) ≡ now_selected dec s w m
    unfolding now_selected
    now_selected_self w self = rw self

    now_selected_in :
        (w : Option RankKey)
        → (e.publisher == s) ≡ false
        → above_waterline k w ≡ true
        → now_selected dec s w ((k, e) ∷ m) ≡ set_insert dec e.ftn (now_selected dec s w m)
    unfolding now_selected
    now_selected_in w other above = rw (other, above)

  set_insert-Fresh :
      (f : Ftn) (j : ℕ) (m : Ranked Ftn)
      → Fresh f m
      → set_insert dec f (take j (others s m)) ≡ f ∷ take j (others s m)
  unfolding set_insert
  set_insert-Fresh f j m fresh = rw (contains-take-Fresh f j m fresh)

  now_selected-take :
      (c : ℕ) (m : Ranked Ftn)
      → c < n
      → IsSorted m
      → IsNamed m
      → now_selected dec s (waterline_from s n c m) m ≡ take (n - c) (others s m)
  now_selected-take c [] lt sorted named = unfold now_selected in sym (take-nil (n - c))
  now_selected-take c ((k, e) ∷ m) lt sorted named = elim (Bool-cases (e.publisher == s)) [
    | inl self ↦
        rw (waterline_self k e c m self, now_selected_self k e c m _ self, self)
          (now_selected-take c m lt sorted.1 named.1)
    | inr other ↦ elim (Bool-cases (c + 1 == n)) [
      | inl last ↦
          let one : n - c ≡ 1 = ground arith in
          rw
            (
              waterline_last k e c m other last,
              now_selected_in k e c m (some k) other (key_ge_refl k),
              now_selected-Below k m sorted.0,
              other,
              one,
            )
            (set_insert-Fresh e.ftn 0 m named.0)
      | inr more ↦
          let rest : n - c ≡ suc (n - (c + 1)) = ground arith in
          rw
            (
              waterline_more k e c m other more,
              now_selected_in k e c m _ other (above_waterline_head k (c + 1) m sorted.0),
              now_selected-take (c + 1) m (ground arith) sorted.1 named.1,
              other,
              rest,
            )
            (set_insert-Fresh e.ftn (n - (c + 1)) m named.0)
    ]
  ]

module _ {Ftn : Type 0} (dec : Discrete Ftn) (s : ℕ) where
  waterline_zero : (c : ℕ) (m : Ranked Ftn) → waterline_from s 0 c m ≡ none
  unfolding waterline_from
  waterline_zero c [] = refl
  waterline_zero c ((k, e) ∷ m) = ground (arith, waterline_zero c m, waterline_zero (c + 1) m)

  contains-others-Fresh :
      (f : Ftn) (m : Ranked Ftn) → Fresh f m → contains dec f (others s m) ≡ false
  unfolding contains
  contains-others-Fresh f [] h = refl
  contains-others-Fresh f ((k, e) ∷ m) h = ground (arith, contains-others-Fresh f m h.1)

  now_selected-others : (m : Ranked Ftn) → IsNamed m → now_selected dec s none m ≡ others s m
  unfolding now_selected
  now_selected-others [] named = refl
  now_selected-others ((k, e) ∷ m) named =
      rw (now_selected-others m named.1) (ground (arith, contains-others-Fresh e.ftn m named.0))

-- The reconciled selection of a publishing session holds, in the order of their ranks, the N
-- highest ranked tracks of other sessions, or all of these if they are fewer. With N = 0 it holds
-- all the tracks of other sessions.
pub now_selected_lem :
    {Ftn : Type 0} (dec : Discrete Ftn) (pr : PropertyRanking Ftn) (session n : ℕ)
    → IsRanked pr.ranked_tracks
    → now_selected dec session (compute_waterline_key pr session n) pr.ranked_tracks ≡ (
        if n == 0
        then others session pr.ranked_tracks
        else take n (others session pr.ranked_tracks))
unfolding compute_waterline_key
now_selected_lem dec pr session zero r =
    rw (waterline_zero dec session 0 pr.ranked_tracks)
      (now_selected-others dec session pr.ranked_tracks r.named)
now_selected_lem dec pr session (suc n) r =
    let pos : (suc n == 0) ≡ false = ground arith in
    let all : suc n - 0 ≡ suc n = omega arith in
    rw pos (
      subst
        (λ j.
          now_selected dec session (waterline_from session (suc n) 0 pr.ranked_tracks)
            pr.ranked_tracks
          ≡ take j (others session pr.ranked_tracks))
        all
        (now_selected-take dec session (suc n) 0 pr.ranked_tracks (omega arith) r.sorted r.named))
