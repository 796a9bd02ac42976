-- ===== src/Filter/Throttle.antt =====
-- How often an observer is told of activity.
use moq_testbed.Prelude.{
  ℕ, ◌-◌, ◌≤◌, ◌<◌, ◌≡◌, refl, sym, ap, ap₂, subst, ◌∙◌, Bool, true, false, ◌&&◌, ◌||◌, not, Option,
  none, some, List, [], ◌∷◌, ◌++◌, ltb→lt, if◌then◌else◌, Bool-cases, Option-cases, inl, inr, arith,
}
use moq_testbed.Filter.{
  ObserverEntry, TopNFilter, Call, value_changed, activity, track_ended, downstream, Extensions,
  allows, note, check_each, check_properties, on_object,
}
use moq_testbed.Filter.Check.{Object}

-- The moments are a threshold apart, from the last one on; with a threshold of 0 there is none.
abbrev pub Spaced : ℕ → Option ℕ → List ℕ → Type 0
Spaced t last [] = Unit {0}
Spaced t none (m ∷ ms) = (0 < t) × Spaced t (some m) ms
Spaced t (some l) (m ∷ ms) = (0 < t) × (t ≤ m - l) × Spaced t (some m) ms

module _ {Message : Type 0} where
  abbrev pub has_activity : List (Call Message) → Bool
  has_activity [] = false
  has_activity (activity p ∷ calls) = true
  has_activity (value_changed p v ∷ calls) = has_activity calls
  has_activity (track_ended p ∷ calls) = has_activity calls
  has_activity (downstream m ∷ calls) = has_activity calls

  -- The times of the objects at which an observer was told of activity.
  unfoldable pub moments : TopNFilter → List (Object Message) → List ℕ
  unfolding on_object
  moments f [] = []
  moments f (o ∷ os) =
      let one = on_object f o.now o.extensions o.message in
      let rest = moments one.0 os in if has_activity one.1 then o.now ∷ rest else rest

  has_activity-append :
      (xs ys : List (Call Message)) → has_activity (xs ++ ys) ≡ (has_activity xs || has_activity ys)
  has_activity-append [] ys = refl
  has_activity-append (activity p ∷ xs) ys = refl
  has_activity-append (value_changed p v ∷ xs) ys = has_activity-append xs ys
  has_activity-append (track_ended p ∷ xs) ys = has_activity-append xs ys
  has_activity-append (downstream m ∷ xs) ys = has_activity-append xs ys

or_false : (b : Bool) → (b || false) ≡ b
or_false b = ground arith

module _ (Message : Type 0) where
  has_activity-note :
      (p : ℕ) (allowed : Bool) (v : ℕ) (e : ObserverEntry)
      → has_activity (note {Message = Message} p allowed v e) ≡ (allowed && e.observer.on_activity)
  has_activity-note p allowed v e = ground arith

  -- The calls tell of activity exactly when `fired` says so, and only if that was allowed.
  fired_lem :
      (allowed : Bool) (ext : Extensions) (os : List (ℕ × ObserverEntry))
      → let done = check_each {Message = Message} allowed ext os in
        (has_activity done.calls ≡ done.fired) × ((done.fired && not allowed) ≡ false)
  unfolding check_each
  fired_lem allowed ext [] = (refl, refl)
  fired_lem allowed ext ((p, e) ∷ os) =
      let (same, only) = fired_lem allowed ext os in
      elim (Option-cases (ext p)) [
        | inl missing ↦ rw (missing, check_each) (same, only)
        | inr (v, there) ↦
            rw (there, check_each)
              (
                has_activity-append (note p allowed v e) (check_each allowed ext os).calls
                    ∙ ap₂ ◌||◌ (has_activity-note p allowed v e) same,
                ground (arith, only),
              )
      ]

  check_properties_throttle :
      (f : TopNFilter) (now : ℕ) (ext : Extensions)
      → let done = check_properties {Message = Message} f now ext in
        (done.0.activity_threshold ≡ f.activity_threshold)
        × (done.0.last_activity_notify
            ≡ (if has_activity done.1 then some now else f.last_activity_notify))
        × ((has_activity done.1 && not (allows f now f.last_activity_notify)) ≡ false)
  unfolding check_properties
  check_properties_throttle f now ext =
      go f.observers f.ended f.activity_target f.activity_threshold f.last_activity_notify
    where
      go :
          (os : List (ℕ × ObserverEntry)) (ended : Bool) (target : Option ℕ) (threshold : ℕ)
          (last : Option ℕ)
          → let g : TopNFilter = record {
            observers = os;
            ended = ended;
            activity_target = target;
            activity_threshold = threshold;
            last_activity_notify = last;
          } in
            let done = check_properties {Message = Message} g now ext in
            (done.0.activity_threshold ≡ threshold)
            × (done.0.last_activity_notify ≡ (if has_activity done.1 then some now else last))
            × ((has_activity done.1 && not (allows g now last)) ≡ false)
      go [] ended target threshold last = (refl, refl, refl)
      go (o ∷ os) ended target threshold last =
          let g : TopNFilter = record {
            observers = o ∷ os;
            ended = ended;
            activity_target = target;
            activity_threshold = threshold;
            last_activity_notify = last;
          } in
          let (same, only) = fired_lem (allows g now last) ext (o ∷ os) in
          (
            refl,
            ap (λ (b : Bool). if b then some now else last) (sym same),
            subst (λ (b : Bool). (b && not (allows g now last)) ≡ false) (sym same) only,
          )

allows-Spaced :
    (f : TopNFilter) (now : ℕ) (last : Option ℕ) (ms : List ℕ)
    → allows f now last ≡ true
    → Spaced f.activity_threshold (some now) ms
    → Spaced f.activity_threshold last (now ∷ ms)
allows-Spaced f now none ms h s = (ltb→lt _ _ h, s)
allows-Spaced f now (some l) ms h s = (ground (arith, h), ground (arith, h), s)

-- From any state on the moments at which observers are told of activity are at least the activity
-- threshold apart, also from the last such moment; with a threshold of 0 there are none.
pub moments-Spaced :
    {Message : Type 0} (os : List (Object Message)) (f : TopNFilter)
    → Spaced f.activity_threshold f.last_activity_notify (moments f os)
unfolding moments on_object
moments-Spaced [] f = tt
moments-Spaced {Message} (o ∷ os) f =
    let done = check_properties {Message = Message} f o.now o.extensions in
    let (kept, last, only) = check_properties_throttle Message f o.now o.extensions in
    let same : has_activity (on_object f o.now o.extensions o.message).1 ≡ has_activity done.1 =
      has_activity-append done.1 (downstream o.message ∷ []) ∙ or_false _ in
    let rest : Spaced f.activity_threshold
        (if has_activity done.1 then some o.now else f.last_activity_notify) (moments done.0 os) =
      subst (λ (l : Option ℕ). Spaced f.activity_threshold l (moments done.0 os)) last
        (subst (λ (t : ℕ). Spaced t done.0.last_activity_notify (moments done.0 os)) kept
          (moments-Spaced os done.0)) in
    elim (Bool-cases (has_activity done.1)) [
      | inl told ↦
          let allowed : allows f o.now f.last_activity_notify ≡ true =
            ground (arith, rw told at only) in
          rw (same, told)
            (allows-Spaced f o.now f.last_activity_notify (moments done.0 os) allowed
              (rw told at rest))
      | inr quiet ↦ rw (same, quiet) (rw quiet at rest)
    ]
