-- ===== src/Upstream/Single.antt =====
-- UpstreamProvider: one attempt to connect at a time, and the promise that it fulfils.
use moq_testbed.Prelude.{
  ℕ, zero, suc, ◌+◌, ◌≡◌, ◌⊎◌, refl, sym, ◌∙◌, ap, subst, Bool, true, false, ◌||◌, none, some, List,
  [], ◌∷◌, if◌then◌else◌, Bool-cases, Option-cases, inl, inr, arith, true≢false,
}
use moq_testbed.Prelude.Assoc.{is_some}
use moq_testbed.Upstream.Connection.{
  ConnectionState, disconnected, connecting, connected, pending, UpstreamProvider, is_connecting,
  Answer, refuses, connects, waits, no_promise, has_session, get_or_connect_session, begin_connect,
  ConnectionEvent, connect_asked, session_set_up, hook_done, set_up_fails, hook_fails,
  session_closed, owner_stops, provider_closes, Outcome, goes_on, not_now, broken_promise, on_event,
  run, hook_returns, hook_throws, set_up_throws, set_up_done, ask_state, ask_connected, start_asked,
}

-- No attempt and no wait for one; or one attempt, whose promise is pending, and which the state shows
-- unless the provider is stopped.
abbrev pub IsSingle : UpstreamProvider → Type 0
IsSingle u =
    ((u.setting_up + u.greeting ≡ 0) × (is_connecting u.state ≡ false))
    ⊎ ((u.setting_up + u.greeting ≡ 1)
        × ((u.connect_promise ≡ some pending) × (is_connecting u.state || u.has_stopped ≡ true)))

-- No session closes while an attempt is under way.
abbrev pub Calm : ConnectionEvent → UpstreamProvider → Type 0
Calm session_closed u = u.setting_up + u.greeting ≡ 0
Calm e u = Unit {0}

abbrev SingleAfter : UpstreamProvider → Outcome → Type 0
SingleAfter u (goes_on v) = IsSingle v
SingleAfter u not_now = Unit {0}
SingleAfter u broken_promise = ⊥

pub state_cases : (s : ConnectionState) → (s ≡ disconnected) ⊎ ((s ≡ connecting) ⊎ (s ≡ connected))
state_cases disconnected = inl refl
state_cases connecting = inr (inl refl)
state_cases connected = inr (inr refl)

or_true : (b : Bool) → b || true ≡ true
or_true true = refl
or_true false = refl

-- What is neither waiting for an attempt nor stopped has none.
idle :
    (u : UpstreamProvider)
    → IsSingle u
    → is_connecting u.state ≡ false
    → u.has_stopped ≡ false
    → u.setting_up + u.greeting ≡ 0
idle u (inl (none_there, s)) c h = none_there
idle u (inr (one, (p, busy))) c h = absurd (true≢false (sym busy ∙ rw (c, h) refl))

begin_connect-IsSingle :
    (u : UpstreamProvider) → u.setting_up + u.greeting ≡ 0 → IsSingle (begin_connect u)
begin_connect-IsSingle u h = inr (omega arith, (refl, refl))

waiting :
    (u : UpstreamProvider) → IsSingle u → u.state ≡ connecting → u.connect_promise ≡ some pending
waiting u (inl (none_there, s)) e = absurd (true≢false (sym (ap is_connecting e) ∙ s))
waiting u (inr (one, (p, busy))) e = p

start-SingleAfter :
    (u : UpstreamProvider)
    → IsSingle u
    → is_connecting u.state ≡ false
    → u.has_stopped ≡ false
    → SingleAfter u (start_asked connects u)
start-SingleAfter u h c e = begin_connect-IsSingle u (idle u h c e)

pub answer_stopped :
    (u : UpstreamProvider) → u.has_stopped ≡ true → get_or_connect_session u ≡ refuses
unfolding get_or_connect_session
answer_stopped u e = ap (λ b. if b then refuses else ask_state u.state u) e

pub answer_state :
    (u : UpstreamProvider) (s : ConnectionState)
    → u.has_stopped ≡ false
    → u.state ≡ s
    → get_or_connect_session u ≡ ask_state s u
unfolding get_or_connect_session
answer_state u s e d =
    ap (λ b. if b then refuses else ask_state u.state u) e ∙ ap (λ x. ask_state x u) d

session_none : (u : UpstreamProvider) → u.session ≡ none → ask_connected u ≡ connects
session_none u n = rw (n, ask_connected) refl

session_some : (u : UpstreamProvider) (s : ℕ) → u.session ≡ some s → ask_connected u ≡ has_session s
session_some u s n = rw (n, ask_connected) refl

answered :
    (u : UpstreamProvider) (a : Answer)
    → get_or_connect_session u ≡ a
    → SingleAfter u (start_asked a u)
    → SingleAfter u (on_event connect_asked u)
unfolding on_event
answered u a e h = subst (λ (x : Answer). SingleAfter u (start_asked x u)) (sym e) h

asked-SingleAfter : (u : UpstreamProvider) → IsSingle u → SingleAfter u (on_event connect_asked u)
asked-SingleAfter u h = elim (Bool-cases u.has_stopped) [
  | inl e ↦ answered u refuses (answer_stopped u e) h
  | inr e ↦ elim (state_cases u.state) [
    | inl d ↦
        answered u connects (answer_state u disconnected e d)
          (start-SingleAfter u h (ap is_connecting d) e)
    | inr (inl c) ↦
        answered u waits
          (answer_state u connecting e c
            ∙ ap (λ p. if is_some p then waits else no_promise) (waiting u h c))
          h
    | inr (inr c) ↦ elim (Option-cases u.session) [
      | inl n ↦
          answered u connects (answer_state u connected e c ∙ session_none u n)
            (start-SingleAfter u h (ap is_connecting c) e)
      | inr (s, n) ↦
          answered u (has_session s) (answer_state u connected e c ∙ session_some u s n) h
    ]
  ]
]

set_up_done-SingleAfter :
    (s n : ℕ) (u : UpstreamProvider)
    → IsSingle u
    → u.setting_up ≡ n
    → SingleAfter u (set_up_done s n u)
set_up_done-SingleAfter s zero u h e = tt
set_up_done-SingleAfter s (suc n) u (inl (none_there, q)) e = absurd (omega arith)
set_up_done-SingleAfter s (suc n) u (inr (one, (p, q))) e = inr (omega arith, (p, q))

hook_returns-SingleAfter :
    (n : ℕ) (u : UpstreamProvider) → IsSingle u → u.greeting ≡ n → SingleAfter u (hook_returns n u)
hook_returns-SingleAfter zero u h e = tt
hook_returns-SingleAfter (suc n) u (inl (none_there, q)) e = absurd (omega arith)
hook_returns-SingleAfter (suc n) u (inr (one, (p, q))) e = rw p (inl (omega arith, refl))

hook_throws-SingleAfter :
    (n : ℕ) (u : UpstreamProvider) → IsSingle u → u.greeting ≡ n → SingleAfter u (hook_throws n u)
hook_throws-SingleAfter zero u h e = tt
hook_throws-SingleAfter (suc n) u (inl (none_there, q)) e = absurd (omega arith)
hook_throws-SingleAfter (suc n) u (inr (one, (p, q))) e = rw p (inl (omega arith, refl))

set_up_throws-SingleAfter :
    (n : ℕ) (u : UpstreamProvider)
    → IsSingle u
    → u.setting_up ≡ n
    → SingleAfter u (set_up_throws n u)
set_up_throws-SingleAfter zero u h e = tt
set_up_throws-SingleAfter (suc n) u (inl (none_there, q)) e = absurd (omega arith)
set_up_throws-SingleAfter (suc n) u (inr (one, (p, q))) e = rw p (inl (omega arith, refl))

stopped-IsSingle : (u : UpstreamProvider) → IsSingle u → IsSingle (record u { has_stopped = true })
stopped-IsSingle u (inl h) = inl h
stopped-IsSingle u (inr (one, (p, q))) = inr (one, (p, or_true (is_connecting u.state)))

closed-IsSingle :
    (u : UpstreamProvider)
    → IsSingle u
    → u.has_stopped ≡ true
    → IsSingle (record u { session = none; client = false; state = disconnected })
closed-IsSingle u (inl (none_there, q)) e = inl (none_there, refl)
closed-IsSingle u (inr (one, (p, q))) e = inr (one, (p, e))

closes-SingleAfter :
    (u : UpstreamProvider) (b : Bool)
    → IsSingle u
    → u.has_stopped ≡ b
    → SingleAfter u (
        if b
        then goes_on (record u { session = none; client = false; state = disconnected })
        else not_now)
closes-SingleAfter u true h e = closed-IsSingle u h e
closes-SingleAfter u false h e = tt

on_event-SingleAfter :
    (e : ConnectionEvent) (u : UpstreamProvider)
    → IsSingle u
    → Calm e u
    → SingleAfter u (on_event e u)
unfolding on_event
on_event-SingleAfter connect_asked u h c = asked-SingleAfter u h
on_event-SingleAfter (session_set_up s) u h c = set_up_done-SingleAfter s u.setting_up u h refl
on_event-SingleAfter hook_done u h c = hook_returns-SingleAfter u.greeting u h refl
on_event-SingleAfter set_up_fails u h c = set_up_throws-SingleAfter u.setting_up u h refl
on_event-SingleAfter hook_fails u h c = hook_throws-SingleAfter u.greeting u h refl
on_event-SingleAfter session_closed u h c = elim (Bool-cases u.has_stopped) [
  | inl e ↦ rw e (inl (c, refl))
  | inr e ↦ rw e (inl (c, refl))
]
on_event-SingleAfter owner_stops u h c = stopped-IsSingle u h
on_event-SingleAfter provider_closes u h c = closes-SingleAfter u u.has_stopped h refl

-- A run in which each event comes at a calm moment.
abbrev pub CalmRun : List ConnectionEvent → UpstreamProvider → Type 0
CalmRun [] u = Unit {0}
CalmRun (e ∷ es) u = Calm e u × elim (on_event e u) as (λ o. Type 0) [
  | goes_on v ↦ CalmRun es v
  | not_now ↦ CalmRun es u
  | broken_promise ↦ Unit {0}
]

pub outcome_cases :
    (o : Outcome)
    → ((v : UpstreamProvider) × (o ≡ goes_on v)) ⊎ ((o ≡ not_now) ⊎ (o ≡ broken_promise))
outcome_cases (goes_on v) = inl (v, refl)
outcome_cases not_now = inr (inl refl)
outcome_cases broken_promise = inr (inr refl)

-- As long as no session closes while an attempt to connect is under way, every run goes on: no attempt
-- finds its promise gone or fulfilled, and there is at most one attempt at a time.
pub run-IsSingle :
    (es : List ConnectionEvent) (u : UpstreamProvider)
    → CalmRun es u
    → IsSingle u
    → (v : UpstreamProvider) × ((run es u ≡ goes_on v) × IsSingle v)
unfolding run
run-IsSingle [] u c h = (u, (refl, h))
run-IsSingle (e ∷ es) u (c, rest) h =
    let after = on_event-SingleAfter e u h c in
    elim (outcome_cases (on_event e u)) [
      | inl (v, eq) ↦
          let more = run-IsSingle es v (rw eq at rest) (rw eq at after) in
          (more.0, (rw (eq, run) more.1.0, more.1.1))
      | inr (inl eq) ↦
          let more = run-IsSingle es u (rw eq at rest) h in
          (more.0, (rw (eq, run) more.1.0, more.1.1))
      | inr (inr eq) ↦ absurd (rw eq at after)
    ]
