-- ===== src/Upstream/Connection.antt =====
-- UpstreamProvider's state, and what each part of its coroutines does to it.
use moq_testbed.Prelude.{
  ℕ, zero, suc, ◌+◌, ◌*◌, min, Bool, true, false, not, ◌&&◌, Option, none, some, List, [], ◌∷◌,
  ◌==◌, if◌then◌else◌,
}
use moq_testbed.Prelude.Assoc.{is_some}

pub data ConnectionState : Type 0 where
  disconnected connecting connected : ConnectionState

-- folly's SharedPromise, as far as it is used: waited for, or fulfilled.
pub data ConnectPromise : Type 0 where
  pending fulfilled : ConnectPromise

-- With the attempts to connect that are under way: those that wait for the session to be set up, and
-- those that wait for the hook.
pub record UpstreamProvider : Type 0 where
  pub state : ConnectionState
  pub client : Bool
  pub session : Option ℕ
  pub has_stopped : Bool
  pub connect_promise : Option ConnectPromise
  pub reconnect_backoff : ℕ
  pub setting_up : ℕ
  pub greeting : ℕ

abbrev pub new_provider : UpstreamProvider
new_provider = record {
  state = disconnected;
  client = false;
  session = none;
  has_stopped = false;
  connect_promise = none;
  reconnect_backoff = 0;
  setting_up = 0;
  greeting = 0;
}

abbrev pub is_connected : ConnectionState → Bool
is_connected connected = true
is_connected s = false

abbrev pub is_connecting : ConnectionState → Bool
is_connecting connecting = true
is_connecting s = false

-- `getSession`.
unfoldable pub get_session : UpstreamProvider → Option ℕ
get_session u = if not u.has_stopped && is_connected u.state then u.session else none

-- What `getOrConnectSession` does when it is called.
pub data Answer : Type 0 where
  refuses connects waits no_promise : Answer
  has_session : ℕ → Answer

abbrev pub ask_connected : UpstreamProvider → Answer
ask_connected u = elim u.session [ none ↦ connects | some s ↦ has_session s ]

abbrev pub ask_state : ConnectionState → UpstreamProvider → Answer
ask_state disconnected u = connects
ask_state connecting u = if is_some u.connect_promise then waits else no_promise
ask_state connected u = ask_connected u

unfoldable pub get_or_connect_session : UpstreamProvider → Answer
get_or_connect_session u = if u.has_stopped then refuses else ask_state u.state u

-- A new attempt, up to the wait for the session.
abbrev pub begin_connect : UpstreamProvider → UpstreamProvider
begin_connect u = record u {
  state = connecting;
  connect_promise = some pending;
  client = true;
  setting_up = u.setting_up + 1;
}

-- `resetSession`.
abbrev pub reset_session : UpstreamProvider → UpstreamProvider
reset_session u = record u { session = none; state = disconnected }

abbrev pub without_backoff : UpstreamProvider → UpstreamProvider
without_backoff u = if u.has_stopped then u else record u { reconnect_backoff = 0 }

pub data ConnectionEvent : Type 0 where
  connect_asked : ConnectionEvent
  session_set_up : ℕ → ConnectionEvent
  hook_done set_up_fails hook_fails : ConnectionEvent
  session_closed owner_stops provider_closes : ConnectionEvent

-- An event leads on, or cannot happen now, or finds the promise gone or fulfilled.
pub data Outcome : Type 0 where
  goes_on : UpstreamProvider → Outcome
  not_now broken_promise : Outcome

abbrev pub fulfil : Option ConnectPromise → UpstreamProvider → Outcome
fulfil (some pending) u = goes_on u
fulfil promise u = broken_promise

-- The end of an attempt: it has succeeded.
abbrev pub succeed : UpstreamProvider → Outcome
succeed u =
    fulfil u.connect_promise (record u { state = connected; connect_promise = some fulfilled })

-- The end of an attempt: it has thrown.
abbrev pub give_up : UpstreamProvider → Outcome
give_up u =
    fulfil u.connect_promise
      (record u { state = disconnected; client = false; connect_promise = none })

abbrev pub start_asked : Answer → UpstreamProvider → Outcome
start_asked connects u = goes_on (begin_connect u)
start_asked no_promise u = broken_promise
start_asked answer u = goes_on u

abbrev pub set_up_done : ℕ → ℕ → UpstreamProvider → Outcome
set_up_done s zero u = not_now
set_up_done s (suc n) u =
    goes_on (record u { session = some s; setting_up = n; greeting = u.greeting + 1 })

abbrev pub hook_returns : ℕ → UpstreamProvider → Outcome
hook_returns zero u = not_now
hook_returns (suc n) u = succeed (record u { greeting = n })

abbrev pub hook_throws : ℕ → UpstreamProvider → Outcome
hook_throws zero u = not_now
hook_throws (suc n) u = give_up (record u { greeting = n })

abbrev pub set_up_throws : ℕ → UpstreamProvider → Outcome
set_up_throws zero u = not_now
set_up_throws (suc n) u = give_up (record u { setting_up = n })

-- A session that closes, and a goaway, reset the session; `stop` has the session closed later on.
unfoldable pub on_event : ConnectionEvent → UpstreamProvider → Outcome
on_event connect_asked u = start_asked (get_or_connect_session u) u
on_event (session_set_up s) u = set_up_done s u.setting_up u
on_event hook_done u = hook_returns u.greeting u
on_event set_up_fails u = set_up_throws u.setting_up u
on_event hook_fails u = hook_throws u.greeting u
on_event session_closed u = goes_on (without_backoff (reset_session u))
on_event owner_stops u = goes_on (record u { has_stopped = true })
on_event provider_closes u =
    if u.has_stopped
    then goes_on (record u { session = none; client = false; state = disconnected })
    else not_now

-- A run, without the events that cannot happen.
unfoldable pub run : List ConnectionEvent → UpstreamProvider → Outcome
run [] u = goes_on u
run (e ∷ es) u = elim (on_event e u) [
  | goes_on v ↦ run es v
  | not_now ↦ run es u
  | broken_promise ↦ broken_promise
]

-- The delay after a failure: `kInitialReconnectBackoff`, doubled up to `kMaxReconnectBackoff`.
abbrev pub next_backoff : ℕ → ℕ
next_backoff b = if b == 0 then 1000 else min (b * 2) 60000

-- `reconnectLoop` over the answers to its attempts, true where one connects: the delays before each.
unfoldable pub reconnect_loop : List Bool → ℕ → List ℕ
reconnect_loop [] backoff = []
reconnect_loop (true ∷ answers) backoff = backoff ∷ []
reconnect_loop (false ∷ answers) backoff = backoff ∷ reconnect_loop answers (next_backoff backoff)
