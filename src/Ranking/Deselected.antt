-- ===== src/Ranking/Deselected.antt =====
-- PropertyRanking: trims of the deselected queue.
use moq_testbed.Prelude.{
  ℕ, suc, ◌-◌, ◌≤◌, ◌≡◌, refl, ap, map, List, [], ◌∷◌, ◌++◌, arith, Bool-cases, inl, inr, ltb,
  length, take, drop, length-drop, take-append-drop,
}
use moq_testbed.Prelude.Assoc.{erase_key}
use moq_testbed.Ranking.State.{SessionInfo, TopNGroup, PropertyRanking, Event, on_evicted}
use moq_testbed.Ranking.Groups.{evict_from_all, trim_from, trim_deselected_queue}

-- An eviction of each of the names, for each session in the order of the sessions.
abbrev pub evict_each : {Ftn : Type 0} → List Ftn → List (ℕ × SessionInfo Ftn) → List (Event Ftn)
evict_each [] sessions = []
evict_each (f ∷ fs) sessions = map (λ s. on_evicted f s.0) sessions ++ evict_each fs sessions

evict_from_all-map :
    {Ftn : Type 0} (f : Ftn) (sessions : List (ℕ × SessionInfo Ftn))
    → evict_from_all f sessions ≡ map (λ s. on_evicted f s.0) sessions
unfolding evict_from_all
evict_from_all-map f [] = refl
evict_from_all-map f ((s, info) ∷ rest) = ap (λ es. on_evicted f s ∷ es) (evict_from_all-map f rest)

-- The track states with the names taken out.
abbrev pub erase_each : {Ftn V : Type 0} → Discrete Ftn → List Ftn → List (Ftn × V) → List (Ftn × V)
erase_each dec [] states = states
erase_each dec (f ∷ fs) states = erase_each dec fs (erase_key dec f states)

module _ {Ftn : Type 0} (dec : Discrete Ftn) where
  trim_from_lem :
      (max_deselected : ℕ) (queue : List Ftn) (g : TopNGroup Ftn)
      → let over = length queue - max_deselected in
        trim_from dec max_deselected queue g ≡ (
          record g {
            deselected_queue = drop over queue;
            track_states = erase_each dec (take over queue) g.track_states;
          },
          evict_each (take over queue) g.sessions,
        )
  unfolding trim_from
  trim_from_lem max_deselected [] g = let within : 0 - max_deselected ≡ 0 = omega arith in rw within
  trim_from_lem max_deselected (f ∷ queue) g =
      elim (Bool-cases (ltb max_deselected (suc (length queue)))) [
        | inl over ↦
            let more : suc (length queue) - max_deselected ≡ suc (length queue - max_deselected) =
              ground arith in
            rw (
              over,
              more,
              evict_from_all-map f g.sessions,
              trim_from_lem max_deselected queue
                  (record g { track_states = erase_key dec f g.track_states }),
            )
        | inr fits ↦
            let none_over : suc (length queue) - max_deselected ≡ 0 = ground arith in
            rw (fits, none_over)
      ]

  -- A trim drops the oldest names of the queue until it has at most `max_deselected`, forgets the
  -- states of those names alone, and tells every session of the group that they are evicted, oldest
  -- first.
  pub trim_deselected_queue_lem :
      (pr : PropertyRanking Ftn) (g : TopNGroup Ftn)
      → let over = length g.deselected_queue - pr.max_deselected in
        let gone = take over g.deselected_queue in
        let done = trim_deselected_queue dec pr g in
        (length done.0.deselected_queue ≤ pr.max_deselected)
        × (gone ++ done.0.deselected_queue ≡ g.deselected_queue)
        × (done.0.track_states ≡ erase_each dec gone g.track_states)
        × (done.0.sessions ≡ g.sessions)
        × (done.1 ≡ evict_each gone g.sessions)
  unfolding trim_deselected_queue
  trim_deselected_queue_lem pr g =
      let q = g.deselected_queue in
      let over = length q - pr.max_deselected in
      let shape = trim_from_lem pr.max_deselected q g in
      rw shape (omega (arith, length-drop over q), take-append-drop over q, refl, refl, refl)
