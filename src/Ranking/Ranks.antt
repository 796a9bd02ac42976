-- ===== src/Ranking/Ranks.antt =====
-- PropertyRanking: the rank cache and the places in the sorted container.
use moq_testbed.Prelude.{
  ℕ, zero, suc, ◌+◌, ◌≡◌, refl, ap, subst, ◌∙◌, true, false, none, some, List, [], ◌∷◌, lookup,
  arith, Option-cases, inl, inr, if_pos, if_neg, if◌then◌else◌, get_elem?, uint64_max,
}
use moq_testbed.Prelude.Assoc.{assign, lookup-assign}
use moq_testbed.Ranking.Key.{RankKey, key_gt, key_gt_irrefl}
use moq_testbed.Ranking.State.{
  RankedEntry, Ranked, RankIndex, PropertyRanking, rebuild_from, rebuild_rank_cache_if_needed,
  get_cached_rank,
}
use moq_testbed.Ranking.Order.{Below, IsSorted, Fresh, IsNamed, IsRanked}

-- How many keys of the container outrank `key`.
abbrev pub count_above : {Ftn : Type 0} → RankKey → Ranked Ftn → ℕ
count_above key [] = 0
count_above key ((k, e) ∷ m) = (if key_gt k key then 1 else 0) + count_above key m

module _ {Ftn : Type 0} where
  count_above-Below : (a : RankKey) (m : Ranked Ftn) → Below a m → count_above a m ≡ 0
  unfolding key_gt
  count_above-Below a [] below = refl
  count_above-Below a ((k, e) ∷ m) below =
      let rest = count_above-Below a m below.1 in
      let first : key_gt a k ≡ true = below.0 in ground arith

  Below-at :
      (a k : RankKey) (e : RankedEntry Ftn) (p : ℕ) (m : Ranked Ftn)
      → Below a m
      → get_elem? m p ≡ some (k, e)
      → key_gt a k ≡ true
  Below-at a k e p [] below at = cc
  Below-at a k e zero ((j, x) ∷ m) below at = let same : j ≡ k = cc in rw (← same) below.0
  Below-at a k e (suc p) ((j, x) ∷ m) below at = Below-at a k e p m below.1 at

  count_above-position :
      (k : RankKey) (e : RankedEntry Ftn) (p : ℕ) (m : Ranked Ftn)
      → IsSorted m
      → get_elem? m p ≡ some (k, e)
      → count_above k m ≡ p
  count_above-position k e p [] sorted at = cc
  count_above-position k e zero ((j, x) ∷ m) sorted at =
      let same : j ≡ k = cc in
      let low : Below k m = subst (λ (a : RankKey). Below a m) same sorted.0 in
      rw same (rw (key_gt_irrefl k) (omega (arith, count_above-Below k m low)))
  count_above-position k e (suc p) ((j, x) ∷ m) sorted at =
      rw (Below-at j k e p m sorted.0 at) (omega (arith, count_above-position k e p m sorted.1 at))

module _ {Ftn : Type 0} (dec : Discrete Ftn) where
  -- The index leads to the key.
  abbrev pub HasIter : List (Ftn × RankIndex) → Ftn → RankKey → Type 0
  HasIter index f k = (i : RankIndex) × (lookup dec f index ≡ some i) × (i.rank_iter ≡ k)

  -- Every track of the container is in the index, under its key.
  abbrev pub IsIndexed : List (Ftn × RankIndex) → Ranked Ftn → Type 0
  IsIndexed index [] = Unit {0}
  IsIndexed index ((k, e) ∷ m) = HasIter index e.ftn k × IsIndexed index m

  HasIter-assign :
      (index : List (Ftn × RankIndex)) (f g : Ftn) (k : RankKey) (i : RankIndex) (r : ℕ)
      → lookup dec f index ≡ some i
      → HasIter index g k
      → HasIter (assign dec f (record i { cached_rank = r }) index) g k
  HasIter-assign index f g k i r found (j, there, key) = elim (dec f g) [
    | yes same ↦
        let one : i ≡ j = cc in
        (
          record i { cached_rank = r },
          rw (lookup-assign, if_pos _ same) refl,
          ap (λ (x : RankIndex). x.rank_iter) one ∙ key,
        )
    | no other ↦ (j, rw (lookup-assign, if_neg _ other) there, key)
  ]

  IsIndexed-assign :
      (index : List (Ftn × RankIndex)) (f : Ftn) (i : RankIndex) (r : ℕ) (m : Ranked Ftn)
      → lookup dec f index ≡ some i
      → IsIndexed index m
      → IsIndexed (assign dec f (record i { cached_rank = r }) index) m
  IsIndexed-assign index f i r [] found all = tt
  IsIndexed-assign index f i r ((k, e) ∷ m) found all =
      (HasIter-assign index f e.ftn k i r found all.0, IsIndexed-assign index f i r m found all.1)

  abbrev rank_in : List (Ftn × RankIndex) → Ftn → ℕ
  rank_in index f = elim (lookup dec f index) [ none ↦ uint64_max | some i ↦ i.cached_rank ]

  rebuild_from_head :
      (r : ℕ) (k : RankKey) (e : RankedEntry Ftn) (m : Ranked Ftn) (index : List (Ftn × RankIndex))
      (i : RankIndex)
      → lookup dec e.ftn index ≡ some i
      → rebuild_from dec r ((k, e) ∷ m) index
        ≡ rebuild_from dec (suc r) m (assign dec e.ftn (record i { cached_rank = r }) index)
  unfolding rebuild_from
  rebuild_from_head r k e m index i found = rw found

  lookup-rebuild_from-Fresh :
      (f : Ftn) (r : ℕ) (m : Ranked Ftn) (index : List (Ftn × RankIndex))
      → Fresh f m
      → lookup dec f (rebuild_from dec r m index) ≡ lookup dec f index
  unfolding rebuild_from
  lookup-rebuild_from-Fresh f r [] index fresh = refl
  lookup-rebuild_from-Fresh f r ((k, e) ∷ m) index fresh =
      elim (Option-cases (lookup dec e.ftn index)) [
        | inl missing ↦ rw missing (lookup-rebuild_from-Fresh f (suc r) m index fresh.1)
        | inr (i, found) ↦
            rw found (
              lookup-rebuild_from-Fresh f (suc r) m _ fresh.1
              ∙ rw (lookup-assign, if_neg _ fresh.0))
      ]

  rebuild_from-position :
      (r p : ℕ) (k : RankKey) (e : RankedEntry Ftn) (m : Ranked Ftn)
      (index : List (Ftn × RankIndex))
      → IsNamed m
      → IsIndexed index m
      → get_elem? m p ≡ some (k, e)
      → rank_in (rebuild_from dec r m index) e.ftn ≡ r + p
  rebuild_from-position r p k e [] index named all at = cc
  rebuild_from-position r zero k e ((j, x) ∷ m) index named ((i, found, key), all) at =
      let same : x ≡ e = cc in
      let index' = assign dec x.ftn (record i { cached_rank = r }) index in
      let there : lookup dec x.ftn (rebuild_from dec (suc r) m index')
          ≡ some (record i { cached_rank = r }) =
        lookup-rebuild_from-Fresh x.ftn (suc r) m index' named.0
        ∙ rw (lookup-assign, if_pos _ refl) refl in
      rw (← same) (rw (rebuild_from_head r j x m index i found) (rw (there, rank_in) (omega arith)))
  rebuild_from-position r (suc p) k e ((j, x) ∷ m) index named ((i, found, key), all) at =
      rw (rebuild_from_head r j x m index i found) (
        rebuild_from-position (suc r) p k e m _ named.1
          (IsIndexed-assign index x.ftn i r m found all) at
        ∙ omega arith)

  -- After a rebuild of an invalid cache the rank of each track is its place in the container, and
  -- the number of tracks whose keys outrank its own.
  pub get_cached_rank-position :
      (pr : PropertyRanking Ftn) (p : ℕ) (k : RankKey) (e : RankedEntry Ftn)
      → IsRanked pr.ranked_tracks
      → IsIndexed pr.track_index_by_name pr.ranked_tracks
      → pr.rank_cache_valid ≡ false
      → get_elem? pr.ranked_tracks p ≡ some (k, e)
      → (get_cached_rank dec (rebuild_rank_cache_if_needed dec pr) e.ftn ≡ p)
        × (count_above k pr.ranked_tracks ≡ p)
  unfolding get_cached_rank rebuild_rank_cache_if_needed
  get_cached_rank-position pr p k e r indexed stale at = (
    rw stale (
        rebuild_from-position 0 p k e pr.ranked_tracks pr.track_index_by_name r.named indexed at
        ∙ omega arith),
    count_above-position k e p pr.ranked_tracks r.sorted at,
  )
