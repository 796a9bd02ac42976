-- ===== src/Upstream/Promise.antt =====
-- UpstreamProvider: the promise that those who ask during an attempt wait for.
use moq_testbed.Prelude.{
  ℕ, zero, suc, ◌≡◌, ◌≢◌, refl, sym, ◌∙◌, subst, Bool, true, false, not, ◌||◌, Option, none, some,
  List, [], ◌∷◌, if◌then◌else◌, Bool-cases, inl, inr, true≢false,
}
use moq_testbed.Prelude.Assoc.{is_some}
use moq_testbed.Upstream.Connection.{
  ConnectionState, disconnected, connecting, connected, ConnectPromise, pending, fulfilled,
  UpstreamProvider, is_connecting, Answer, refuses, connects, waits, no_promise, has_session,
  get_or_connect_session, ConnectionEvent, connect_asked, session_set_up, hook_done, set_up_fails,
  hook_fails, session_closed, owner_stops, provider_closes, Outcome, goes_on, not_now,
  broken_promise, on_event, run, hook_returns, hook_throws, set_up_throws, set_up_done, fulfil,
  ask_state, ask_connected, start_asked,
}
use moq_testbed.Upstream.Single.{answer_stopped, answer_state, outcome_cases}

-- A provider that connects has a promise to wait for.
abbrev pub HasPromise : UpstreamProvider → Type 0
HasPromise u = not (is_connecting u.state) || is_some u.connect_promise ≡ true

abbrev PromiseAfter : Outcome → Type 0
PromiseAfter (goes_on v) = HasPromise v
PromiseAfter o = Unit {0}

fulfil-PromiseAfter :
    (p : Option ConnectPromise) (u : UpstreamProvider) → HasPromise u → PromiseAfter (fulfil p u)
fulfil-PromiseAfter none u h = tt
fulfil-PromiseAfter (some pending) u h = h
fulfil-PromiseAfter (some fulfilled) u h = tt

start-PromiseAfter :
    (a : Answer) (u : UpstreamProvider) → HasPromise u → PromiseAfter (start_asked a u)
start-PromiseAfter refuses u h = h
start-PromiseAfter connects u h = refl
start-PromiseAfter waits u h = h
start-PromiseAfter no_promise u h = tt
start-PromiseAfter (has_session s) u h = h

set_up_done-PromiseAfter :
    (s n : ℕ) (u : UpstreamProvider) → HasPromise u → PromiseAfter (set_up_done s n u)
set_up_done-PromiseAfter s zero u h = tt
set_up_done-PromiseAfter s (suc n) u h = h

hook_returns-PromiseAfter : (n : ℕ) (u : UpstreamProvider) → PromiseAfter (hook_returns n u)
hook_returns-PromiseAfter zero u = tt
hook_returns-PromiseAfter (suc n) u =
    fulfil-PromiseAfter u.connect_promise
      (record u { greeting = n; state = connected; connect_promise = some fulfilled }) refl

hook_throws-PromiseAfter : (n : ℕ) (u : UpstreamProvider) → PromiseAfter (hook_throws n u)
hook_throws-PromiseAfter zero u = tt
hook_throws-PromiseAfter (suc n) u =
    fulfil-PromiseAfter u.connect_promise
      (record u { greeting = n; state = disconnected; client = false; connect_promise = none }) refl

set_up_throws-PromiseAfter : (n : ℕ) (u : UpstreamProvider) → PromiseAfter (set_up_throws n u)
set_up_throws-PromiseAfter zero u = tt
set_up_throws-PromiseAfter (suc n) u =
    fulfil-PromiseAfter u.connect_promise
      (record u { setting_up = n; state = disconnected; client = false; connect_promise = none })
      refl

closed-PromiseAfter :
    (b : Bool) (u : UpstreamProvider)
    → PromiseAfter (
        if b
        then goes_on (record u { session = none; client = false; state = disconnected })
        else not_now)
closed-PromiseAfter true u = refl
closed-PromiseAfter false u = tt

on_event-PromiseAfter :
    (e : ConnectionEvent) (u : UpstreamProvider) → HasPromise u → PromiseAfter (on_event e u)
unfolding on_event
on_event-PromiseAfter connect_asked u h = start-PromiseAfter (get_or_connect_session u) u h
on_event-PromiseAfter (session_set_up s) u h = set_up_done-PromiseAfter s u.setting_up u h
on_event-PromiseAfter hook_done u h = hook_returns-PromiseAfter u.greeting u
on_event-PromiseAfter set_up_fails u h = set_up_throws-PromiseAfter u.setting_up u
on_event-PromiseAfter hook_fails u h = hook_throws-PromiseAfter u.greeting u
on_event-PromiseAfter session_closed u h = elim (Bool-cases u.has_stopped) [
  | inl e ↦ rw e refl
  | inr e ↦ rw e refl
]
on_event-PromiseAfter owner_stops u h = h
on_event-PromiseAfter provider_closes u h = closed-PromiseAfter u.has_stopped u

connects≢no_promise : connects ≢ no_promise
connects≢no_promise h = cc

waits≢no_promise : waits ≢ no_promise
waits≢no_promise h = cc

refuses≢no_promise : refuses ≢ no_promise
refuses≢no_promise h = cc

has_session≢no_promise : (s : ℕ) → has_session s ≢ no_promise
has_session≢no_promise s h = cc

goes_on_inj : {u v : UpstreamProvider} → goes_on u ≡ goes_on v → u ≡ v
goes_on_inj h = cc

broken≢goes_on : {v : UpstreamProvider} → broken_promise ≡ goes_on v → ⊥
broken≢goes_on h = cc

connected_answer :
    (o : Option ℕ) (u : UpstreamProvider) → u.session ≡ o → ask_connected u ≢ no_promise
connected_answer none u e h = connects≢no_promise (sym (rw (e, ask_connected) refl) ∙ h)
connected_answer (some s) u e h = has_session≢no_promise s (sym (rw (e, ask_connected) refl) ∙ h)

waiting_answer :
    (p : Option ConnectPromise)
    → is_some p ≡ true
    → (if is_some p then waits else no_promise) ≢ no_promise
waiting_answer none h e = true≢false (sym h)
waiting_answer (some p) h e = waits≢no_promise e

state_answer :
    (s : ConnectionState) (u : UpstreamProvider)
    → not (is_connecting s) || is_some u.connect_promise ≡ true
    → ask_state s u ≢ no_promise
state_answer disconnected u h e = connects≢no_promise e
state_answer connecting u h e = waiting_answer u.connect_promise h e
state_answer connected u h e = connected_answer u.session u refl e

promise_there : (u : UpstreamProvider) → HasPromise u → get_or_connect_session u ≢ no_promise
promise_there u h e = elim (Bool-cases u.has_stopped) [
  | inl y ↦ refuses≢no_promise (sym (answer_stopped u y) ∙ e)
  | inr y ↦ state_answer u.state u h (sym (answer_state u u.state y refl) ∙ e)
]

-- After a run of events in whatever order, in which no attempt finds its promise gone or fulfilled, from
-- a provider that has a promise if its state shows an attempt: whoever then asks for a session while the state shows an attempt finds a promise to wait for, so that
-- the check for it does not fail.
pub run-HasPromise :
    (es : List ConnectionEvent) (u v : UpstreamProvider)
    → HasPromise u
    → run es u ≡ goes_on v
    → get_or_connect_session v ≢ no_promise
unfolding run
run-HasPromise [] u v h e = promise_there v (subst HasPromise (goes_on_inj e) h)
run-HasPromise (event ∷ es) u v h e =
    let after = on_event-PromiseAfter event u h in
    elim (outcome_cases (on_event event u)) [
      | inl (w, eq) ↦ run-HasPromise es w v (rw eq at after) (rw (eq, run) at e)
      | inr (inl eq) ↦ run-HasPromise es u v h (rw (eq, run) at e)
      | inr (inr eq) ↦ absurd (broken≢goes_on (rw (eq, run) at e))
    ]
