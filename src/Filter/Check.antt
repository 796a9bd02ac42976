-- ===== src/Filter/Check.antt =====
-- What one object tells an observer, and a run of objects.
use moq_testbed.Prelude.{
  ℕ, ◌≡◌, ◌≢◌, refl, sym, ap₂, ◌∙◌, Bool, ◌&&◌, not, Option, none, some, List, [], ◌∷◌, ◌++◌,
  lookup, ◌==◌, if◌then◌else◌, ℕ_discrete, Option-cases, inl, inr, arith, if_pos, if_neg,
}
use moq_testbed.Filter.{
  ObserverEntry, TopNFilter, Call, value_changed, activity, track_ended, downstream, Extensions,
  seen, allows, note, check_each, check_properties, on_object,
}

-- The objects of a track as they come, with the time of each.
pub record Object (Message : Type 0) : Type 0 where
  pub now : ℕ
  pub extensions : Extensions
  pub message : Message

-- The values of a property, without those that repeat the last.
abbrev pub changes : Option ℕ → List ℕ → List ℕ
changes last [] = []
changes last (v ∷ vs) = let rest = changes (some v) vs in if seen last v then rest else v ∷ rest

abbrev pub Absent : ℕ → List (ℕ × ObserverEntry) → Type 0
Absent property [] = Unit {0}
Absent property ((p, e) ∷ os) = (p ≢ property) × Absent property os

-- One observer for a property.
abbrev pub IsKeyed : List (ℕ × ObserverEntry) → Type 0
IsKeyed [] = Unit {0}
IsKeyed ((p, e) ∷ os) = Absent p os × IsKeyed os

-- What one object tells an observer, and what it leaves of it.
abbrev pub news : Option ℕ → ObserverEntry → List ℕ
news none e = []
news (some v) e =
    if not (seen e.last_seen_value v) && e.observer.on_value_changed then v ∷ [] else []

abbrev pub seen_now : Option ℕ → ObserverEntry → ObserverEntry
seen_now none e = e
seen_now (some v) e = record e { last_seen_value = some v }

abbrev pub with_value : Option ℕ → List ℕ → List ℕ
with_value none vs = vs
with_value (some v) vs = v ∷ vs

module _ {Message : Type 0} where
  abbrev pub values_of : ℕ → List (Object Message) → List ℕ
  values_of property [] = []
  values_of property (o ∷ os) = with_value (o.extensions property) (values_of property os)

  unfoldable pub run : TopNFilter → List (Object Message) → TopNFilter × List (Call Message)
  unfolding on_object
  run f [] = (f, [])
  run f (o ∷ os) =
      let one = on_object f o.now o.extensions o.message in
      let rest = run one.0 os in (rest.0, one.1 ++ rest.1)

  -- The values that the observer of a property is told of.
  abbrev pub told : ℕ → List (Call Message) → List ℕ
  told property [] = []
  told property (value_changed p v ∷ calls) =
      if p == property then v ∷ told property calls else told property calls
  told property (activity p ∷ calls) = told property calls
  told property (track_ended p ∷ calls) = told property calls
  told property (downstream m ∷ calls) = told property calls

  pub told-append :
      (property : ℕ) (xs ys : List (Call Message))
      → told property (xs ++ ys) ≡ told property xs ++ told property ys
  told-append property [] ys = refl
  told-append property (value_changed p v ∷ xs) ys = ground (arith, told-append property xs ys)
  told-append property (activity p ∷ xs) ys = told-append property xs ys
  told-append property (track_ended p ∷ xs) ys = told-append property xs ys
  told-append property (downstream m ∷ xs) ys = told-append property xs ys

module _ (Message : Type 0) where
  told-note :
      (property p : ℕ) (allowed : Bool) (value : ℕ) (e : ObserverEntry)
      → told property (note {Message = Message} p allowed value e) ≡ (
          if (p == property) && not (seen e.last_seen_value value) && e.observer.on_value_changed
          then value ∷ []
          else [])
  told-note property p allowed value e = ground (arith)

  check_each-Absent :
      (property : ℕ) (allowed : Bool) (ext : Extensions) (os : List (ℕ × ObserverEntry))
      → Absent property os
      → (told property (check_each {Message = Message} allowed ext os).calls ≡ [])
        × Absent property (check_each {Message = Message} allowed ext os).observers
  unfolding check_each
  check_each-Absent property allowed ext [] a = (refl, tt)
  check_each-Absent property allowed ext ((p, e) ∷ os) a =
      let (quiet, left) = check_each-Absent property allowed ext os a.1 in
      elim (Option-cases (ext p)) [
        | inl missing ↦ rw (missing, check_each) (quiet, (a.0, left))
        | inr (v, there) ↦
            rw (there, check_each)
              (
                told-append property (note p allowed v e) _
                    ∙ ap₂ ◌++◌ (told-note property p allowed v e) quiet
                    ∙ ground (arith, a.0),
                (a.0, left),
              )
      ]

  -- The observer's own entry.
  check_each_first :
      (p : ℕ) (allowed : Bool) (ext : Extensions) (x : ObserverEntry)
      (os : List (ℕ × ObserverEntry))
      → Absent p os
      → (told p (check_each {Message = Message} allowed ext ((p, x) ∷ os)).calls ≡ news (ext p) x)
        × (lookup ℕ_discrete p (check_each {Message = Message} allowed ext ((p, x) ∷ os)).observers
            ≡ some (seen_now (ext p) x))
  unfolding check_each lookup
  check_each_first p allowed ext x os a =
      let (quiet, left) = check_each-Absent p allowed ext os a in
      elim (Option-cases (ext p)) [
        | inl missing ↦ rw (missing, check_each) (quiet, rw (if_pos (ℕ_discrete p p) refl))
        | inr (v, there) ↦
            rw (there, check_each)
              (
                told-append p (note p allowed v x) _
                    ∙ ap₂ ◌++◌ (told-note p p allowed v x) quiet
                    ∙ ground arith,
                rw (if_pos (ℕ_discrete p p) refl),
              )
      ]

  pub check_each_lem :
      (property : ℕ) (allowed : Bool) (ext : Extensions) (os : List (ℕ × ObserverEntry))
      (e : ObserverEntry)
      → IsKeyed os
      → lookup ℕ_discrete property os ≡ some e
      → (told property (check_each {Message = Message} allowed ext os).calls
          ≡ news (ext property) e)
        × (lookup ℕ_discrete property (check_each {Message = Message} allowed ext os).observers
            ≡ some (seen_now (ext property) e))
  unfolding check_each lookup
  check_each_lem property allowed ext [] e keyed found = cc
  check_each_lem property allowed ext ((p, x) ∷ os) e keyed found = elim (ℕ_discrete p property) [
    | yes same ↦
        let mine : some x ≡ some e = sym (rw (if_pos (ℕ_discrete property p) (sym same))) ∙ found in
        let own : x ≡ e = cc in rw (← same, ← own) (check_each_first p allowed ext x os keyed.0)
    | no other ↦
        let (says, left) =
          check_each_lem property allowed ext os e keyed.1
            (rw (if_neg (ℕ_discrete property p) (λ q. other (sym q))) at found) in
        elim (Option-cases (ext p)) [
          | inl missing ↦
              rw (missing, check_each)
                (says, rw (if_neg (ℕ_discrete property p) (λ q. other (sym q))) left)
          | inr (v, there) ↦
              rw (there, check_each)
                (
                  told-append property (note p allowed v x) _
                      ∙ ap₂ ◌++◌ (told-note property p allowed v x) says
                      ∙ ground (arith, other),
                  rw (if_neg (ℕ_discrete property p) (λ q. other (sym q))) left,
                )
        ]
  ]

  pub check_each-IsKeyed :
      (allowed : Bool) (ext : Extensions) (os : List (ℕ × ObserverEntry))
      → IsKeyed os
      → IsKeyed (check_each {Message = Message} allowed ext os).observers
  unfolding check_each
  check_each-IsKeyed allowed ext [] keyed = tt
  check_each-IsKeyed allowed ext ((p, x) ∷ os) keyed =
      let apart = (check_each-Absent p allowed ext os keyed.0).1 in
      let rest = check_each-IsKeyed allowed ext os keyed.1 in
      elim (Option-cases (ext p)) [
        | inl missing ↦ rw (missing, check_each) (apart, rest)
        | inr (v, there) ↦ rw (there, check_each) (apart, rest)
      ]

  -- With no observers the loop would do nothing.
  pub check_properties_lem :
      (f : TopNFilter) (now : ℕ) (ext : Extensions)
      → let done =
          check_each {Message = Message} (allows f now f.last_activity_notify) ext f.observers in
        ((check_properties {Message = Message} f now ext).0.observers ≡ done.observers)
        × ((check_properties {Message = Message} f now ext).1 ≡ done.calls)
  unfolding check_properties check_each
  check_properties_lem f now ext =
      go f.observers f.ended f.activity_target f.activity_threshold f.last_activity_notify
    where
      go :
          (os : List (ℕ × ObserverEntry)) (ended : Bool) (target : Option ℕ) (threshold : ℕ)
          (last : Option ℕ)
          → let g : TopNFilter = record {
            observers = os;
            ended = ended;
            activity_target = target;
            activity_threshold = threshold;
            last_activity_notify = last;
          } in
            let done = check_each {Message = Message} (allows g now last) ext os in
            ((check_properties {Message = Message} g now ext).0.observers ≡ done.observers)
            × ((check_properties {Message = Message} g now ext).1 ≡ done.calls)
      go [] ended target threshold last = (refl, refl)
      go (o ∷ os) ended target threshold last = (refl, refl)
