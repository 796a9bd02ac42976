-- ===== src/Tests/Registries.antt =====
-- SubscriptionRegistry on one name, with a promise that is a flag.
use moq_testbed.Prelude.{
  ℕ, ◌≡◌, ◌≢◌, refl, Bool, true, false, none, some, List, [], ◌∷◌, lookup, ℕ_discrete, arith,
}
use moq_testbed.Registry.Promise.{flag_promise}
use moq_testbed.Registry.Entries.{
  RelaySubscription, FilterChainResult, UpstreamSubscribePending, first_subscriber,
}
use moq_testbed.Registry.Operations.{
  done, promise_already_satisfied, get_or_create_from_subscribe, complete, destroy,
  create_from_publish, get_upstream_view,
}
use moq_testbed.Registry.Identity.{create_from_publish_lem, publish_survives_pending}
use moq_testbed.Registry.Lifecycle.{subscribe-complete, subscribe-destroy}
use moq_testbed.Registry.Pending
use moq_testbed.Registry.Safety.{start, next, empty, reachable_never_throws}

abbrev alive : ℕ → Bool
alive f = true

abbrev chain : ℕ → FilterChainResult
chain f = record { consumer = f; top_n_filter = 70 }

abbrev waiting : RelaySubscription flag_promise
waiting = record {
  forwarder = 1;
  upstream = none;
  request_id = 0;
  handle = none;
  promise = false;
  is_publish = false;
  top_n_filter = none;
  last_object_time = 0;
}

abbrev registry : List (ℕ × RelaySubscription flag_promise)
registry = (7, waiting) ∷ []

abbrev mine : UpstreamSubscribePending ℕ
mine = record { ftn = 7; weak_forwarder = 1 }

missing : lookup ℕ_discrete 8 registry ≡ none
unfolding lookup ℕ_discrete
missing = refl

subscribe-complete_example :
    let first = get_or_create_from_subscribe flag_promise ℕ_discrete registry 8 3 chain 50 in
    let p : UpstreamSubscribePending ℕ = record { ftn = 8; weak_forwarder = 3 } in
    let after = complete flag_promise ℕ_discrete alive first.0 p (some 6) 4 (some 5) in
    (first.1 ≡ first_subscriber 3 3 p)
    × (after.1 ≡ done true)
    × (get_upstream_view flag_promise ℕ_discrete after.0 8
        ≡ some (record {
          forwarder = 3;
          upstream = some 5;
          handle = some 6;
          request_id = 4;
          is_publish = false;
          is_ready = true;
        }))
    × (lookup ℕ_discrete 7 after.0 ≡ lookup ℕ_discrete 7 registry)
subscribe-complete_example =
    subscribe-complete flag_promise ℕ_discrete alive registry 8 3 chain 50 (some 6) 4 (some 5) 7
      missing refl (λ e. omega arith)

subscribe-destroy_example :
    let first = get_or_create_from_subscribe flag_promise ℕ_discrete registry 8 3 chain 50 in
    let p : UpstreamSubscribePending ℕ = record { ftn = 8; weak_forwarder = 3 } in
    destroy flag_promise ℕ_discrete alive first.0 p ≡ (registry, done tt)
subscribe-destroy_example =
    subscribe-destroy flag_promise ℕ_discrete alive registry 8 3 chain 50 missing refl

create_from_publish_lem_example :
    let after = create_from_publish flag_promise ℕ_discrete registry 7 9 5 4 (some 3) chain 60 in
    (after.1
      ≡ done (record { consumer = 9; evicted = some (record { forwarder = 1; handle = none }) }))
    × (get_upstream_view flag_promise ℕ_discrete after.0 7
        ≡ some (record {
          forwarder = 9;
          upstream = some 5;
          handle = some 3;
          request_id = 4;
          is_publish = true;
          is_ready = true;
        }))
    × (lookup ℕ_discrete 8 after.0 ≡ lookup ℕ_discrete 8 registry)
unfolding lookup ℕ_discrete
create_from_publish_lem_example =
    create_from_publish_lem flag_promise ℕ_discrete registry 7 9 5 4 (some 3) chain 60 8
      (λ e. omega arith)

publish_survives_pending_example :
    let published =
      create_from_publish flag_promise ℕ_discrete registry 7 9 5 4 (some 3) chain 60 in
    (complete flag_promise ℕ_discrete alive published.0 mine (some 6) 8 (some 2)
      ≡ (published.0, done false))
    × (destroy flag_promise ℕ_discrete alive published.0 mine ≡ (published.0, done tt))
publish_survives_pending_example =
    publish_survives_pending flag_promise ℕ_discrete alive registry mine 9 5 4 (some 3) chain 60
      (some 6) 8 (some 2) (λ e. omega arith)

abbrev nothing : Pending.System flag_promise ℕ_discrete alive
nothing = empty flag_promise ℕ_discrete alive

abbrev subscribed : Pending.System flag_promise ℕ_discrete alive
subscribed = Pending.subscribed flag_promise ℕ_discrete alive nothing 7 1 chain 50

first : Pending.Step flag_promise ℕ_discrete alive nothing subscribed
first = Pending.subscribe 7 1 chain 50 tt refl

picked : Pending.Picks mine subscribed.pendings []
unfolding get_or_create_from_subscribe
picked = Pending.here

reachable_never_throws_example :
    ((complete flag_promise ℕ_discrete alive subscribed.subs mine (some 3) 4 (some 5)).1
      ≢ promise_already_satisfied)
    × ((destroy flag_promise ℕ_discrete alive subscribed.subs mine).1 ≡ done tt)
reachable_never_throws_example =
    reachable_never_throws flag_promise ℕ_discrete alive (some 3) 4 (some 5) (next start first)
      picked
