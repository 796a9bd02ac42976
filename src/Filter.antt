-- ===== src/Filter.antt =====
-- relay/TopNFilter: it watches the properties of a track's objects on their way downstream. A time is
-- a number of milliseconds; the extensions of an object are what `getIntExtension` finds in them. A
-- message stands for the arguments that a call hands on unchanged. The target of the activity times,
-- which lives outside, is kept as what it points at.
pub mod Check
pub mod Changes
pub mod Throttle
use moq_testbed.Prelude.{
  ℕ, ◌-◌, Bool, true, false, ◌&&◌, ◌||◌, Option, none, some, List, [], ◌∷◌, ◌++◌, leb, ltb, ◌==◌,
  not, if◌then◌else◌, ℕ_discrete, map,
}
use moq_testbed.Prelude.Assoc.{assign, erase_key}

-- Which callbacks an observer has.
pub record PropertyObserver : Type 0 where
  pub on_value_changed : Bool
  pub on_track_ended : Bool
  pub on_activity : Bool

pub record ObserverEntry : Type 0 where
  pub last_seen_value : Option ℕ
  pub observer : PropertyObserver

pub record TopNFilter : Type 0 where
  pub observers : List (ℕ × ObserverEntry)
  pub ended : Bool
  pub activity_target : Option ℕ
  pub activity_threshold : ℕ
  pub last_activity_notify : Option ℕ

-- The callbacks of the observers, by property type, and the calls downstream.
pub data Call (Message : Type 0) : Type 0 where
  value_changed : ℕ → ℕ → Call Message
  activity track_ended : ℕ → Call Message
  downstream : Message → Call Message

abbrev pub new_filter : TopNFilter
new_filter = record {
  observers = [];
  ended = false;
  activity_target = none;
  activity_threshold = 0;
  last_activity_notify = none;
}

unfoldable pub register_observer : TopNFilter → ℕ → PropertyObserver → TopNFilter
unfolding assign ℕ_discrete
register_observer f property observer = record f {
  observers =
      assign ℕ_discrete property (record { last_seen_value = none; observer = observer })
        f.observers;
}

unfoldable pub remove_observer : TopNFilter → ℕ → TopNFilter
unfolding erase_key ℕ_discrete
remove_observer f property = record f { observers = erase_key ℕ_discrete property f.observers }

unfoldable pub set_activity_target : TopNFilter → Option ℕ → TopNFilter
set_activity_target f target = record f { activity_target = target }

unfoldable pub set_activity_threshold : TopNFilter → ℕ → TopNFilter
set_activity_threshold f threshold = record f { activity_threshold = threshold }

-- The extensions of an object.
abbrev pub Extensions : Type 0
Extensions = ℕ → Option ℕ

abbrev pub seen : Option ℕ → ℕ → Bool
seen none value = false
seen (some last) value = last == value

-- `activityThrottleAllows`.
abbrev pub allows : TopNFilter → ℕ → Option ℕ → Bool
allows f now none = ltb 0 f.activity_threshold
allows f now (some last) = ltb 0 f.activity_threshold && leb f.activity_threshold (now - last)

pub record Checked (Message : Type 0) : Type 0 where
  pub observers : List (ℕ × ObserverEntry)
  pub matched : Bool
  pub fired : Bool
  pub calls : List (Call Message)

-- The target is written when it is set and a property matched.
abbrev pub touch : Bool → ℕ → Option ℕ → Option ℕ
touch matched now none = none
touch matched now (some t) = if matched then some now else some t

module _ {Message : Type 0} where
  -- One observer, at a value of its property.
  abbrev pub note : ℕ → Bool → ℕ → ObserverEntry → List (Call Message)
  note property allowed value entry =
      let changed = not (seen entry.last_seen_value value) && entry.observer.on_value_changed in
      let active = allowed && entry.observer.on_activity in
      (if changed then value_changed property value ∷ [] else [])
      ++ (if active then activity property ∷ [] else [])

  -- The loop of `checkProperties`.
  unfoldable pub check_each : Bool → Extensions → List (ℕ × ObserverEntry) → Checked Message
  check_each allowed extensions [] = record {
    observers = [];
    matched = false;
    fired = false;
    calls = [];
  }
  check_each allowed extensions ((property, entry) ∷ more) =
      let rest = check_each allowed extensions more in
      elim (extensions property) [
        | none ↦ record rest { observers = (property, entry) ∷ rest.observers }
        | some value ↦ record {
          observers = (property, record entry { last_seen_value = some value }) ∷ rest.observers;
          matched = true;
          fired = (allowed && entry.observer.on_activity) || rest.fired;
          calls = note property allowed value entry ++ rest.calls;
        }
      ]

  unfoldable pub check_properties : TopNFilter → ℕ → Extensions → TopNFilter × List (Call Message)
  unfolding check_each
  check_properties f now extensions =
      let done : Checked Message =
        check_each (allows f now f.last_activity_notify) extensions f.observers in
      elim f.observers [
        | [] ↦ (f, [])
        | o ∷ more ↦ (
          record f {
            observers = done.observers;
            activity_target = touch done.matched now f.activity_target;
            last_activity_notify = if done.fired then some now else f.last_activity_notify;
          },
          done.calls,
        )
      ]

  unfoldable pub notify_each : List (ℕ × ObserverEntry) → List (Call Message)
  notify_each [] = []
  notify_each ((property, entry) ∷ more) =
      let rest = notify_each more in
      if entry.observer.on_track_ended then track_ended property ∷ rest else rest

  -- `beginSubgroup` calls downstream alone.
  unfoldable pub begin_subgroup : TopNFilter → Message → TopNFilter × List (Call Message)
  begin_subgroup f message = (f, downstream message ∷ [])

  -- `objectStream`, `datagram`, and `object` and `beginObject` of a subgroup.
  unfoldable pub on_object :
      TopNFilter → ℕ → Extensions → Message → TopNFilter × List (Call Message)
  unfolding check_properties
  on_object f now extensions message =
      let done = check_properties f now extensions in (done.0, done.1 ++ downstream message ∷ [])

  unfoldable pub publish_done : TopNFilter → Message → TopNFilter × List (Call Message)
  unfolding notify_each
  publish_done f message =
      (record f { ended = true }, notify_each f.observers ++ downstream message ∷ [])
