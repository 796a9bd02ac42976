-- ===== src/Tests/Upstreams.antt =====
-- UpstreamProvider on short runs.
use moq_testbed.Prelude.{
  ◌+◌, ◌≡◌, ◌≢◌, refl, true, false, some, List, [], ◌∷◌, ◌++◌, replicate, get_elem?, inl, arith,
}
use moq_testbed.Upstream.Connection.{
  UpstreamProvider, new_provider, connecting, pending, ConnectionEvent, connect_asked,
  session_set_up, hook_done, set_up_fails, hook_fails, session_closed, goes_on, broken_promise,
  no_promise, on_event, run, get_or_connect_session, reconnect_loop,
}
use moq_testbed.Upstream.Single.{IsSingle, CalmRun, run-IsSingle}
use moq_testbed.Upstream.Promise.{run-HasPromise}
use moq_testbed.Upstream.Backoff.{delay, reconnect_loop-delay}

abbrev calm_events : List ConnectionEvent
calm_events =
    connect_asked
    ∷ set_up_fails
    ∷ connect_asked
    ∷ session_set_up 4
    ∷ hook_done
    ∷ session_closed
    ∷ []

calm : CalmRun calm_events new_provider
unfolding on_event get_or_connect_session
calm = (tt, (tt, (tt, (tt, (tt, (refl, tt))))))

run-IsSingle_example :
    (v : UpstreamProvider) × ((run calm_events new_provider ≡ goes_on v) × IsSingle v)
run-IsSingle_example = run-IsSingle calm_events new_provider calm (inl (refl, refl))

abbrev during : UpstreamProvider
during = record new_provider {
  state = connecting;
  connect_promise = some pending;
  client = true;
  setting_up = 1;
}

asked_once : run (connect_asked ∷ []) new_provider ≡ goes_on during
unfolding run on_event get_or_connect_session
asked_once = refl

run-HasPromise_example : get_or_connect_session during ≢ no_promise
run-HasPromise_example = run-HasPromise (connect_asked ∷ []) new_provider during refl asked_once

-- A session that closes while the hook runs lets a second attempt start, and the two share a promise:
-- the second to end finds it fulfilled.
shared_promise :
    run
      (connect_asked
        ∷ session_set_up 4
        ∷ session_closed
        ∷ connect_asked
        ∷ hook_done
        ∷ session_set_up 5
        ∷ hook_done
        ∷ [])
      new_provider
    ≡ broken_promise
unfolding run on_event get_or_connect_session
shared_promise = refl

-- Where the first fails, the second finds no promise.
lost_promise :
    run
      (connect_asked
        ∷ session_set_up 4
        ∷ session_closed
        ∷ connect_asked
        ∷ hook_fails
        ∷ session_set_up 5
        ∷ hook_done
        ∷ [])
      new_provider
    ≡ broken_promise
unfolding run on_event get_or_connect_session
lost_promise = refl

reconnect_loop-delay_example :
    get_elem? (reconnect_loop (replicate 8 false ++ true ∷ []) 0) 3 ≡ some (delay (0 + 3))
reconnect_loop-delay_example = reconnect_loop-delay 8 3 0 (true ∷ []) (omega arith)

delays :
    reconnect_loop (replicate 8 false ++ true ∷ []) 0
    ≡ 0 ∷ 1000 ∷ 2000 ∷ 4000 ∷ 8000 ∷ 16000 ∷ 32000 ∷ 60000 ∷ 60000 ∷ []
unfolding reconnect_loop
delays = refl
