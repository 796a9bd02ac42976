-- ===== src/Ranking/Valid.antt =====
-- PropertyRanking: the invariant of the tracks, through the operations on tracks.
use moq_testbed.Prelude.{
  ℕ, suc, ◌+◌, ◌<◌, ◌^◌, ◌≡◌, ◌≢◌, ◌⊎◌, refl, sym, ap, subst, ◌∙◌, Option, none, some, List, [],
  ◌∷◌, lookup, arith, Bool-cases, Option-cases, inl, inr, ite, if_pos, if_neg, ◌==◌, ◌||◌,
  ℕ_discrete, u64, uint64_max,
}
use moq_testbed.Prelude.Assoc.{assign, erase_key, lookup-assign, lookup-erase_key, value_or}
use moq_testbed.Ranking.Key.{RankKey, key_eq, key_eq_refl}
use moq_testbed.Ranking.State.{
  RankedEntry, Ranked, RankIndex, PropertyRanking, emplace_ranked, erase_ranked, find_ranked,
  rebuild_from, get_cached_rank, rebuild_rank_cache_if_needed,
}
use moq_testbed.Ranking.Order.{
  Fresh, Unused, IsRanked, emplace_ranked-IsRanked, erase_ranked-IsRanked,
}
use moq_testbed.Ranking.Container.{
  IsSequenced, Unused-of_bound, IsSequenced-mono, emplace_ranked-IsSequenced,
  erase_ranked-IsSequenced, find_ranked-emplace_ranked, find_ranked-erase_ranked,
  find_ranked-Unused, erased-Unused, seq_below,
}
use moq_testbed.Ranking.Agree.{Agree, put-Agree, drop-Agree}
use moq_testbed.Ranking.Thresholds.{crosses_threshold}
use moq_testbed.Ranking.Tracks.{insert_track, register_track}
use moq_testbed.Ranking.Moves.{
  move_track, recompute_top_n_groups, update_sort_value, publisher_of, uncount, remove_track,
}
use moq_testbed.Ranking.Sweep.{throttled, sweep_idle}

module _ {Ftn : Type 0} (dec : Discrete Ftn) where
  -- The container is sorted, with every name once; sequence numbers are distinct and below the
  -- next; the container and the index name each other's tracks.
  pub record IsConsistent (m : Ranked Ftn) (index : List (Ftn × RankIndex)) (q : ℕ) : Type 0 where
    pub ranked : IsRanked m
    pub sequenced : IsSequenced q m
    pub agree : Agree dec (λ k. find_ranked k m) (λ f. lookup dec f index)

  abbrev pub IsValid : PropertyRanking Ftn → Type 0
  IsValid pr = IsConsistent pr.ranked_tracks pr.track_index_by_name pr.next_seq

  find_ranked_tail :
      (q : ℕ) (j k : RankKey) (e x : RankedEntry Ftn) (m : Ranked Ftn)
      → IsSequenced q ((k, e) ∷ m)
      → find_ranked j m ≡ some x
      → find_ranked j ((k, e) ∷ m) ≡ some x
  unfolding find_ranked key_eq
  find_ranked_tail q j k e x m s found = ground (arith, find_ranked-Unused j m)

  -- A name that the index lacks is fresh.
  Fresh-of_new :
      (q : ℕ) (f : Ftn) (m : Ranked Ftn)
      → IsSequenced q m
      → ((k : RankKey) (e : RankedEntry Ftn) → find_ranked k m ≡ some e → e.ftn ≢ f)
      → Fresh f m
  Fresh-of_new q f [] s h = tt
  Fresh-of_new q f ((k, e) ∷ m) s h = (
    h k e (unfold find_ranked in rw key_eq_refl),
    Fresh-of_new q f m s.2 (λ j x found. h j x (find_ranked_tail q j k e x m s found)),
  )

  relabel-Agree :
      (F : RankKey → Option (RankedEntry Ftn)) (L L' : Ftn → Option RankIndex) (f : Ftn)
      (i : RankIndex) (r : ℕ)
      → L f ≡ some i
      → ((g : Ftn) → L' g ≡ ite (dec f g) (some (record i { cached_rank = r })) (L g))
      → Agree dec F L
      → Agree dec F L'
  relabel-Agree F L L' f i r old ls a = record {
    listed = λ k e found.
        let (j, there, key) = a.listed k e found in
        elim (dec f e.ftn) [
          | yes same ↦
              let one : i ≡ j = cc in
              (
                record i { cached_rank = r },
                ls e.ftn ∙ rw (if_pos _ same),
                ap (λ (y : RankIndex). y.rank_iter) one ∙ key,
              )
          | no ne ↦ (j, ls e.ftn ∙ rw (if_neg _ ne) there, key)
        ];
    known = λ g j found. elim (dec f g) [
      | yes same ↦
          let i' : RankIndex = record i { cached_rank = r } in
          let at : L' g ≡ some i' = ls g ∙ rw (if_pos _ same) in
          let new : i' ≡ j = cc in
          let (e, held, name) = a.known f i old in
          (e, ap (λ (y : RankIndex). F y.rank_iter) (sym new) ∙ held, name ∙ same)
      | no ne ↦ a.known g j (sym (ls g ∙ rw (if_neg _ ne)) ∙ found)
    ];
  }

  rebuild_from-Agree :
      (F : RankKey → Option (RankedEntry Ftn)) (r : ℕ) (m : Ranked Ftn)
      (index : List (Ftn × RankIndex))
      → Agree dec F (λ f. lookup dec f index)
      → Agree dec F (λ f. lookup dec f (rebuild_from dec r m index))
  unfolding rebuild_from
  rebuild_from-Agree F r [] index a = a
  rebuild_from-Agree F r ((k, e) ∷ m) index a = elim (Option-cases (lookup dec e.ftn index)) [
    | inl missing ↦ rw missing (rebuild_from-Agree F (suc r) m index a)
    | inr (i, found) ↦ rw found (
        rebuild_from-Agree F (suc r) m _ (
          relabel-Agree F (λ f. lookup dec f index) _ e.ftn i r found
            (λ g. lookup-assign dec e.ftn g (record i { cached_rank = r }) index) a))
  ]

  rebuild_rank_cache-IsValid :
      (pr : PropertyRanking Ftn) → IsValid pr → IsValid (rebuild_rank_cache_if_needed dec pr)
  unfolding rebuild_rank_cache_if_needed
  rebuild_rank_cache-IsValid pr v = elim (Bool-cases pr.rank_cache_valid) [
    | inl fresh ↦ rw fresh v
    | inr stale ↦ rw stale (record {
      ranked = v.ranked;
      sequenced = v.sequenced;
      agree = rebuild_from-Agree _ 0 pr.ranked_tracks pr.track_index_by_name v.agree;
    })
  ]

  -- A new name under a key whose sequence number is not in use.
  IsConsistent-emplace :
      (m : Ranked Ftn) (index index' : List (Ftn × RankIndex)) (q : ℕ) (key : RankKey)
      (e : RankedEntry Ftn) (r : ℕ)
      → IsConsistent m index q
      → Unused key.arrival_seq m
      → key.arrival_seq < q
      → lookup dec e.ftn index ≡ none
      → ((g : Ftn)
          → lookup dec g index'
            ≡ ite
                (dec e.ftn g)
                (some (record { rank_iter = key; cached_rank = r }))
                (lookup dec g index))
      → IsConsistent (emplace_ranked key e m) index' q
  IsConsistent-emplace m index index' q key e r c unused below new ls = record {
    ranked = emplace_ranked-IsRanked key e m (Fresh-of_new q e.ftn m c.sequenced absent) c.ranked;
    sequenced = emplace_ranked-IsSequenced q key e m below unused c.sequenced;
    agree =
        put-Agree dec _ _ _ _ e (record { rank_iter = key; cached_rank = r })
          (find_ranked-Unused key m unused) new (λ j. find_ranked-emplace_ranked j key e m unused)
          ls c.agree;
  }
    where
      absent : (k : RankKey) (x : RankedEntry Ftn) → find_ranked k m ≡ some x → x.ftn ≢ e.ftn
      absent k x found p = let (i, there, _) = c.agree.listed k x found in cc

  -- A track goes.
  IsConsistent-erase :
      (m : Ranked Ftn) (index : List (Ftn × RankIndex)) (q : ℕ) (f : Ftn) (i : RankIndex)
      → IsConsistent m index q
      → lookup dec f index ≡ some i
      → IsConsistent (erase_ranked i.rank_iter m) (erase_key dec f index) q
  IsConsistent-erase m index q f i c found = record {
    ranked = erase_ranked-IsRanked i.rank_iter m c.ranked;
    sequenced = erase_ranked-IsSequenced q i.rank_iter m c.sequenced;
    agree =
        drop-Agree dec _ _ _ _ f i found
          (λ j. find_ranked-erase_ranked q j i.rank_iter m c.sequenced)
          (λ g. lookup-erase_key dec f g index) c.agree;
  }

  -- Taken out under its old key and put back under the new one.
  IsConsistent-move :
      (m : Ranked Ftn) (index : List (Ftn × RankIndex)) (q : ℕ) (f : Ftn) (i : RankIndex)
      (e : RankedEntry Ftn) (value : ℕ)
      → IsConsistent m index q
      → lookup dec f index ≡ some i
      → find_ranked i.rank_iter m ≡ some e
      → let key : RankKey = record { value = value; arrival_seq = i.rank_iter.arrival_seq } in
        IsConsistent
          (emplace_ranked key e (erase_ranked i.rank_iter m))
          (assign dec f (record i { rank_iter = key }) index)
          q
  IsConsistent-move m index q f i e value c found held =
      let key : RankKey = record { value = value; arrival_seq = i.rank_iter.arrival_seq } in
      let (x, there, name) = c.agree.known f i found in
      let one : x ≡ e = cc in
      let named : e.ftn ≡ f = subst (λ (y : RankedEntry Ftn). y.ftn ≡ f) one name in
      IsConsistent-emplace (erase_ranked i.rank_iter m) (erase_key dec f index) _ q key e
        i.cached_rank (IsConsistent-erase m index q f i c found)
        (erased-Unused q i.rank_iter e m c.sequenced held)
        (seq_below q i.rank_iter e m c.sequenced held)
        (rw named (lookup-erase_key dec f f index ∙ rw (if_pos (dec f f) refl)))
        (λ g. rw named (lookup-assign dec f g _ index ∙ again f g index _))
    where
      again :
          (f g : Ftn) (index : List (Ftn × RankIndex)) (v : Option RankIndex)
          → ite (dec f g) v (lookup dec g index)
            ≡ ite (dec f g) v (lookup dec g (erase_key dec f index))
      again f g index v = rw (lookup-erase_key dec f g index) (ground arith)

  insert_track-IsValid :
      (pr : PropertyRanking Ftn) (ftn : Ftn) (value publisher : ℕ)
      → pr.next_seq + 1 < 2 ^ 64
      → lookup dec ftn pr.track_index_by_name ≡ none
      → IsValid pr
      → IsValid (insert_track dec pr ftn value publisher)
  unfolding insert_track
  insert_track-IsValid pr ftn value publisher small new v =
      let q = pr.next_seq in
      let m = pr.ranked_tracks in
      let wide : IsConsistent m pr.track_index_by_name (suc q) = record {
        ranked = v.ranked;
        sequenced = IsSequenced-mono q (suc q) m (omega arith) v.sequenced;
        agree = v.agree;
      } in
      let next : u64 (q + 1) ≡ suc q = omega arith in
      rw next (
        IsConsistent-emplace m pr.track_index_by_name _ (suc q) _ _ uint64_max wide
          (Unused-of_bound q m v.sequenced) (omega arith) new
          (λ g. lookup-assign dec ftn g _ pr.track_index_by_name))

  -- Registering a track keeps the invariant, as long as the sequence numbers do not wrap. For a name
  -- that is registered already it changes nothing and tells nobody.
  pub register_track-IsValid :
      (pr : PropertyRanking Ftn) (ftn : Ftn) (initial : Option ℕ) (publisher : ℕ)
      → pr.next_seq + 1 < 2 ^ 64
      → IsValid pr
      → IsValid (register_track dec pr ftn initial publisher).0
        × ((lookup dec ftn pr.track_index_by_name ≡ none)
            ⊎ (register_track dec pr ftn initial publisher ≡ (pr, [])))
  unfolding register_track
  register_track-IsValid pr ftn initial publisher small v =
      elim (Option-cases (lookup dec ftn pr.track_index_by_name)) [
        | inl new ↦ (
          rw (new, register_track)
              (rebuild_rank_cache-IsValid (insert_track dec pr ftn (value_or initial 0) publisher)
                (insert_track-IsValid pr ftn (value_or initial 0) publisher small new v)),
          inl new,
        )
        | inr (i, old) ↦ (rw (old, register_track) v, inr (rw (old, register_track) refl))
      ]

  move_track-IsValid :
      (pr : PropertyRanking Ftn) (ftn : Ftn) (i : RankIndex) (value : ℕ)
      → lookup dec ftn pr.track_index_by_name ≡ some i
      → IsValid pr
      → IsValid (move_track dec pr ftn i value)
  unfolding move_track
  move_track-IsValid pr ftn i value found v =
      let (e, held, name) = v.agree.known ftn i found in
      rw (held, move_track)
        (IsConsistent-move pr.ranked_tracks pr.track_index_by_name pr.next_seq ftn i e value v found
          held)

  sweep_idle-IsValid :
      (now : ℕ) (last_activity : Ftn → ℕ) (pr : PropertyRanking Ftn)
      → IsValid pr
      → IsValid (sweep_idle dec now last_activity pr).0
  unfolding sweep_idle
  sweep_idle-IsValid now last_activity pr v =
      elim (Bool-cases (pr.idle_timeout == 0 || throttled pr now pr.last_sweep_time)) [
        | inl skip ↦ rw skip v
        | inr sweep ↦ rw sweep v
      ]

  -- A new value for a track keeps the invariant, on the fast path, on the slow path with its sweep,
  -- and for an unknown name.
  pub update_sort_value-IsValid :
      (now : ℕ) (last_activity : Ftn → ℕ) (pr : PropertyRanking Ftn) (ftn : Ftn) (value : ℕ)
      → IsValid pr
      → IsValid (update_sort_value dec now last_activity pr ftn value).0
  unfolding update_sort_value recompute_top_n_groups
  update_sort_value-IsValid now last_activity pr ftn value v =
      let pr1 = rebuild_rank_cache_if_needed dec pr in
      let v1 = rebuild_rank_cache-IsValid pr v in
      elim (Option-cases (lookup dec ftn pr1.track_index_by_name)) [
        | inl missing ↦ rw (missing, update_sort_value) v
        | inr (i, found) ↦
            let pr2 = rebuild_rank_cache_if_needed dec (move_track dec pr1 ftn i value) in
            let v2 =
              rebuild_rank_cache-IsValid (move_track dec pr1 ftn i value)
                (move_track-IsValid pr1 ftn i value found v1) in
            let old_rank = get_cached_rank dec pr1 ftn in
            let new_rank = get_cached_rank dec pr2 ftn in
            rw (found, update_sort_value)
              (elim (Bool-cases (i.rank_iter.value == value)) [
                | inl same ↦ rw same v
                | inr other ↦ elim (Bool-cases (crosses_threshold pr2 old_rank new_rank)) [
                  | inl slow ↦
                      rw (other, slow)
                        (sweep_idle-IsValid now last_activity
                          (recompute_top_n_groups dec pr2 ftn old_rank new_rank).0 v2)
                  | inr fast ↦ rw (other, fast) v2
                ]
              ])
      ]

  -- The part of `remove_track` that counts down, and what it leaves alone.
  counted_down : PropertyRanking Ftn → Ftn → PropertyRanking Ftn
  counted_down pr ftn = elim (publisher_of dec pr ftn) [ none ↦ pr | some p ↦ uncount dec pr p ]

  counted_down-same :
      (pr : PropertyRanking Ftn) (ftn : Ftn)
      → ((counted_down pr ftn).ranked_tracks ≡ pr.ranked_tracks)
        × ((counted_down pr ftn).track_index_by_name ≡ pr.track_index_by_name)
        × ((counted_down pr ftn).next_seq ≡ pr.next_seq)
  unfolding counted_down uncount
  counted_down-same pr ftn = elim (Option-cases (publisher_of dec pr ftn)) [
    | inl missing ↦ rw (missing, counted_down) (refl, refl, refl)
    | inr (p, there) ↦ elim (Option-cases (lookup ℕ_discrete p pr.publisher_track_count)) [
      | inl uncounted ↦ rw (there, counted_down) (rw (uncounted, uncount) (refl, refl, refl))
      | inr (c, counted) ↦ rw (there, counted_down) (rw (counted, uncount) (refl, refl, refl))
    ]
  ]

  -- Removing a track keeps the invariant, also for an unknown name.
  pub remove_track-IsValid :
      (pr : PropertyRanking Ftn) (ftn : Ftn) → IsValid pr → IsValid (remove_track dec pr ftn).0
  unfolding remove_track counted_down
  remove_track-IsValid pr ftn v =
      let pr1 = rebuild_rank_cache_if_needed dec pr in
      let v1 = rebuild_rank_cache-IsValid pr v in
      elim (Option-cases (lookup dec ftn pr1.track_index_by_name)) [
        | inl missing ↦ rw (missing, remove_track) v
        | inr (i, found) ↦
            let (m, index, q) = counted_down-same pr1 ftn in
            rw (found, remove_track)
              (rw (m, index, q)
                (IsConsistent-erase pr1.ranked_tracks pr1.track_index_by_name pr1.next_seq ftn i v1
                  found))
      ]
