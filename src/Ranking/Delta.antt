-- ===== src/Ranking/Delta.antt =====
-- What a publishing session is told when its selection is reconciled.
use moq_testbed.Prelude.{
  ℕ, ◌≡◌, refl, Bool, true, false, List, [], ◌∷◌, ◌++◌, arith, Bool-cases, inl, inr, ite, not, ◌&&◌,
  ◌||◌,
}
use moq_testbed.Prelude.Assoc.{contains}
use moq_testbed.Ranking.State.{
  PropertyRanking, SessionInfo, Event, on_batch_selected, on_selected, on_evicted,
}
use moq_testbed.Ranking.Thresholds.{differ}
use moq_testbed.Ranking.Selection.{
  compute_waterline_key, now_selected, evictions, selections, reconcile_publisher_selection,
}

-- The tracks delivered to a session, after a run of callbacks: `on_selected` starts a delivery and
-- `on_evicted` stops it. The session of the callbacks is the one at hand.
abbrev pub drop_name : {Ftn : Type 0} → Discrete Ftn → Ftn → List Ftn → List Ftn
drop_name dec f [] = []
drop_name dec f (x ∷ xs) = ite (dec x f) (drop_name dec f xs) (x ∷ drop_name dec f xs)

abbrev pub deliver : {Ftn : Type 0} → Discrete Ftn → List (Event Ftn) → List Ftn → List Ftn
deliver dec [] old = old
deliver dec (on_batch_selected f vs ∷ es) old = deliver dec es old
deliver dec (on_selected f s forward ∷ es) old = deliver dec es (f ∷ old)
deliver dec (on_evicted f s ∷ es) old = deliver dec es (drop_name dec f old)

module _ {Ftn : Type 0} (dec : Discrete Ftn) where
  contains-drop_name :
      (f g : Ftn) (xs : List Ftn)
      → contains dec g (drop_name dec f xs) ≡ ite (dec f g) false (contains dec g xs)
  unfolding contains
  contains-drop_name f g [] = ground arith
  contains-drop_name f g (x ∷ xs) = ground (arith, contains-drop_name f g xs)

  deliver-append :
      (es fs : List (Event Ftn)) (old : List Ftn)
      → deliver dec (es ++ fs) old ≡ deliver dec fs (deliver dec es old)
  deliver-append [] fs old = refl
  deliver-append (on_batch_selected f vs ∷ es) fs old = deliver-append es fs old
  deliver-append (on_selected f s forward ∷ es) fs old = deliver-append es fs (f ∷ old)
  deliver-append (on_evicted f s ∷ es) fs old = deliver-append es fs (drop_name dec f old)

  -- Of the tracks to look at, those that are no longer selected go.
  deliver-evictions :
      (s : ℕ) (g : Ftn) (now old cur : List Ftn)
      → contains dec g (deliver dec (evictions dec s now old) cur)
        ≡ (contains dec g cur && (not (contains dec g old) || contains dec g now))
  unfolding evictions contains
  deliver-evictions s g now [] cur = ground arith
  deliver-evictions s g now (f ∷ old) cur = elim (Bool-cases (contains dec f now)) [
    | inl stay ↦ rw stay (ground (arith, stay, deliver-evictions s g now old cur))
    | inr go ↦ rw go (
        ground (
          arith,
          go,
          deliver-evictions s g now old (drop_name dec f cur),
          contains-drop_name f g cur,
        ))
  ]

  -- Of the tracks to look at, those that were not selected before come.
  deliver-selections :
      (s : ℕ) (forward : Bool) (g : Ftn) (old now cur : List Ftn)
      → contains dec g (deliver dec (selections dec s forward old now) cur)
        ≡ (contains dec g cur || (contains dec g now && not (contains dec g old)))
  unfolding selections contains
  deliver-selections s forward g old [] cur = ground arith
  deliver-selections s forward g old (f ∷ now) cur = elim (Bool-cases (contains dec f old)) [
    | inl known ↦ rw known (ground (arith, known, deliver-selections s forward g old now cur))
    | inr new ↦ rw new (ground (arith, new, deliver-selections s forward g old now (f ∷ cur)))
  ]

-- The callbacks of a reconciliation, carried out on the tracks that were selected before, leave
-- exactly the tracks that are now selected, by the new waterline.
pub deliver-reconcile :
    {Ftn : Type 0} (dec : Discrete Ftn) (pr : PropertyRanking Ftn) (info : SessionInfo Ftn)
    (n session : ℕ) (ftn : Ftn)
    → let done = reconcile_publisher_selection dec pr info n session in
      contains dec ftn (deliver dec done.1 info.selected_tracks)
      ≡ contains dec ftn
          (now_selected dec session (compute_waterline_key pr session n) pr.ranked_tracks)
unfolding reconcile_publisher_selection
deliver-reconcile dec pr info n session ftn =
    let w = compute_waterline_key pr session n in
    let now = now_selected dec session w pr.ranked_tracks in
    let old = info.selected_tracks in
    let gone = evictions dec session now old in
    let come = selections dec session info.forward old now in
    rw (deliver-append dec gone come old) (
      ground (
        arith,
        deliver-selections dec session info.forward ftn old now (deliver dec gone old),
        deliver-evictions dec session ftn now old old,
      ))

-- Is the track named by one of the callbacks?
abbrev pub mentions : {Ftn : Type 0} → Discrete Ftn → Ftn → List (Event Ftn) → Bool
mentions dec f [] = false
mentions dec f (on_batch_selected g vs ∷ es) = ite (dec g f) true (mentions dec f es)
mentions dec f (on_selected g s forward ∷ es) = ite (dec g f) true (mentions dec f es)
mentions dec f (on_evicted g s ∷ es) = ite (dec g f) true (mentions dec f es)

module _ {Ftn : Type 0} (dec : Discrete Ftn) where
  mentions-append :
      (f : Ftn) (es fs : List (Event Ftn))
      → mentions dec f (es ++ fs) ≡ (mentions dec f es || mentions dec f fs)
  mentions-append f [] fs = refl
  mentions-append f (on_batch_selected g vs ∷ es) fs = ground (arith, mentions-append f es fs)
  mentions-append f (on_selected g s forward ∷ es) fs = ground (arith, mentions-append f es fs)
  mentions-append f (on_evicted g s ∷ es) fs = ground (arith, mentions-append f es fs)

  mentions-evictions :
      (s : ℕ) (g : Ftn) (now old : List Ftn)
      → mentions dec g (evictions dec s now old) ≡ (contains dec g old && not (contains dec g now))
  unfolding evictions contains
  mentions-evictions s g now [] = refl
  mentions-evictions s g now (f ∷ old) = elim (Bool-cases (contains dec f now)) [
    | inl stay ↦ rw stay (ground (arith, stay, mentions-evictions s g now old))
    | inr go ↦ rw go (ground (arith, go, mentions-evictions s g now old))
  ]

  mentions-selections :
      (s : ℕ) (forward : Bool) (g : Ftn) (old now : List Ftn)
      → mentions dec g (selections dec s forward old now)
        ≡ (contains dec g now && not (contains dec g old))
  unfolding selections contains
  mentions-selections s forward g old [] = refl
  mentions-selections s forward g old (f ∷ now) = elim (Bool-cases (contains dec f old)) [
    | inl known ↦ rw known (ground (arith, known, mentions-selections s forward g old now))
    | inr new ↦ rw new (ground (arith, new, mentions-selections s forward g old now))
  ]

-- A reconciliation makes a callback about a track exactly when the track was selected before and
-- no longer is, or is now and was not before; so a second reconciliation makes none.
pub mentions-reconcile :
    {Ftn : Type 0} (dec : Discrete Ftn) (pr : PropertyRanking Ftn) (info : SessionInfo Ftn)
    (n session : ℕ) (ftn : Ftn)
    → let done = reconcile_publisher_selection dec pr info n session in
      let again = reconcile_publisher_selection dec pr done.0 n session in
      (mentions dec ftn done.1
        ≡ differ (contains dec ftn info.selected_tracks) (contains dec ftn done.0.selected_tracks))
      × (mentions dec ftn again.1 ≡ false)
unfolding reconcile_publisher_selection
mentions-reconcile dec pr info n session ftn =
    let w = compute_waterline_key pr session n in
    let now = now_selected dec session w pr.ranked_tracks in
    let old = info.selected_tracks in
    let forward = info.forward in
    (
      rw
          (mentions-append dec ftn (evictions dec session now old)
            (selections dec session forward old now))
          (ground (
            arith,
            mentions-evictions dec session ftn now old,
            mentions-selections dec session forward ftn old now,
          )),
      rw
          (mentions-append dec ftn (evictions dec session now now)
            (selections dec session forward now now))
          (ground (
            arith,
            mentions-evictions dec session ftn now now,
            mentions-selections dec session forward ftn now now,
          )),
    )
