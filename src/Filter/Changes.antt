-- ===== src/Filter/Changes.antt =====
-- Which values an observer is told of.
use moq_testbed.Prelude.{
  ℕ, ◌≡◌, refl, sym, ap, ap₂, subst, ◌∙◌, true, Option, none, some, List, [], ◌∷◌, ◌++◌, lookup,
  ℕ_discrete, Bool-cases, inl, inr,
}
use mathlib.Core.List.{append-nil}
use moq_testbed.Filter.{
  ObserverEntry, TopNFilter, downstream, seen, allows, check_properties, on_object,
}
use moq_testbed.Filter.Check.{
  Object, changes, with_value, values_of, run, told, IsKeyed, news, seen_now, told-append,
  check_each_lem, check_each-IsKeyed, check_properties_lem,
}

seen_now_observer : (v : Option ℕ) (e : ObserverEntry) → (seen_now v e).observer ≡ e.observer
seen_now_observer none e = refl
seen_now_observer (some v) e = refl

news-changes :
    (v : Option ℕ) (e : ObserverEntry) (vs : List ℕ)
    → e.observer.on_value_changed ≡ true
    → news v e ++ changes (seen_now v e).last_seen_value vs
      ≡ changes e.last_seen_value (with_value v vs)
news-changes none e vs h = refl
news-changes (some v) e vs h = elim (Bool-cases (seen e.last_seen_value v)) [
  | inl old ↦ rw old
  | inr new ↦ rw (new, h)
]

-- With one observer for each property, over any run of objects an observer that has a callback for
-- values is told exactly of the values of its property in their order, without those that repeat
-- the one before, beginning with the last value that it saw.
pub told-run :
    {Message : Type 0} (property : ℕ) (os : List (Object Message)) (f : TopNFilter)
    (e : ObserverEntry)
    → IsKeyed f.observers
    → lookup ℕ_discrete property f.observers ≡ some e
    → e.observer.on_value_changed ≡ true
    → told property (run f os).1 ≡ changes e.last_seen_value (values_of property os)
unfolding run on_object
told-run property [] f e keyed found h = refl
told-run {Message} property (o ∷ os) f e keyed found h =
    let allowed = allows f o.now f.last_activity_notify in
    let (left, calls) = check_properties_lem Message f o.now o.extensions in
    let (says, entry) =
      check_each_lem Message property allowed o.extensions f.observers e keyed found in
    let keyed' = check_each-IsKeyed Message allowed o.extensions f.observers keyed in
    let g = (check_properties {Message = Message} f o.now o.extensions).0 in
    let e' = seen_now (o.extensions property) e in
    let rest =
      told-run property os g e' (subst IsKeyed (sym left) keyed')
        (ap (λ x. lookup ℕ_discrete property x) left ∙ entry)
        (ap (λ x. x.on_value_changed) (seen_now_observer (o.extensions property) e) ∙ h) in
    let one : told property (on_object f o.now o.extensions o.message).1
        ≡ news (o.extensions property) e =
      told-append property (check_properties f o.now o.extensions).1 (downstream o.message ∷ [])
      ∙ append-nil _
      ∙ ap (told property) calls
      ∙ says in
    told-append property (on_object f o.now o.extensions o.message).1 (run g os).1
    ∙ ap₂ ◌++◌ one rest
    ∙ news-changes (o.extensions property) e (values_of property os) h
