-- ===== src/Registry/Operations.antt =====
-- SubscriptionRegistry.cpp: the operations. A call that throws keeps what it changed before.
use moq_testbed.Prelude.{
  ℕ, Bool, true, false, ◌&&◌, Option, none, some, List, [], ◌∷◌, ◌==◌, if◌then◌else◌, lookup, map,
}
use moq_testbed.Prelude.Assoc.{is_some, assign, emplace, erase_key}
use moq_testbed.Registry.Promise.{SharedPromise}
use moq_testbed.Registry.Entries.{
  RelaySubscription, Subscriptions, FilterChainResult, UpstreamSubscribePending, GetOrCreate,
  first_subscriber, subsequent, FutureResult, value, exception, Awaited, subsequent_subscriber,
  upstream_failed, subscription_gone, Evicted, PublishEntry, TopNView, UpstreamView, FetchView,
  EntryView,
}

pub data Outcome (A : Type 0) : Type 0 where
  done : A → Outcome A
  promise_already_satisfied : Outcome A

-- `weak_ptr::lock` on a forwarder, and the comparison with an entry's.
abbrev pub same_forwarder : (ℕ → Bool) → ℕ → ℕ → Bool
same_forwarder alive weak forwarder = alive weak && (forwarder == weak)

module _ (sp : SharedPromise) {Ftn : Type 0} (dec : Discrete Ftn) where
  open sp use {Promise, make, is_fulfilled, set_value, set_exception}

  abbrev Entry : Type 0
  Entry = RelaySubscription sp

  abbrev Subs : Type 0
  Subs = Subscriptions sp Ftn

  -- The constructor of `RelaySubscription`.
  abbrev pub new_entry : ℕ → Option ℕ → ℕ → Entry
  new_entry forwarder upstream now = record {
    forwarder = forwarder;
    upstream = upstream;
    request_id = 0;
    handle = none;
    promise = make;
    is_publish = false;
    top_n_filter = none;
    last_object_time = now;
  }

  -- `forwarder` is the one that the call makes.
  unfoldable pub get_or_create_from_subscribe :
      Subs → Ftn → ℕ → (ℕ → FilterChainResult) → ℕ → Subs × GetOrCreate Ftn
  unfolding lookup emplace
  get_or_create_from_subscribe subs ftn forwarder chain_builder now = elim (lookup dec ftn subs) [
    | none ↦
        let chain = chain_builder forwarder in
        let entry = record (new_entry forwarder none now) {
          top_n_filter = some chain.top_n_filter;
        } in
        (
          emplace dec ftn entry subs,
          first_subscriber forwarder chain.consumer
              (record { ftn = ftn; weak_forwarder = forwarder }),
        )
    | some e ↦ (subs, subsequent)
  ]

  -- `awaitSubsequent` from where it resumes, on the registry as it is then.
  unfoldable pub await_subsequent : Subs → Ftn → FutureResult → Awaited
  unfolding lookup
  await_subsequent subs ftn exception = upstream_failed
  await_subsequent subs ftn value = elim (lookup dec ftn subs) [
    | none ↦ subscription_gone
    | some e ↦ subsequent_subscriber e.forwarder
  ]

  abbrev fulfil_with :
      {A : Type 0} → Option Promise → (Promise → Subs × A) → (Subs × Outcome A) → Subs × Outcome A
  fulfil_with none f thrown = thrown
  fulfil_with (some p) f thrown = ((f p).0, done (f p).1)

  unfoldable pub complete_subscription :
      (ℕ → Bool) → Subs → Ftn → ℕ → Option ℕ → ℕ → Option ℕ → Subs × Outcome Bool
  unfolding lookup assign
  complete_subscription alive subs ftn weak handle request_id upstream =
      elim (lookup dec ftn subs) [
        | none ↦ (subs, done false)
        | some e ↦
            let e' : Entry = record e {
              handle = handle;
              request_id = request_id;
              upstream = upstream;
            } in
            if same_forwarder alive weak e.forwarder
            then fulfil_with (set_value e.promise)
                (λ p. (assign dec ftn (record e' { promise = p }) subs, true))
                (assign dec ftn e' subs, promise_already_satisfied)
            else (subs, done false)
      ]

  -- The waiters are told by the promise, which the entry then takes with it.
  unfoldable pub fail_and_remove : (ℕ → Bool) → Subs → Ftn → ℕ → Subs × Outcome (Unit {0})
  unfolding lookup erase_key
  fail_and_remove alive subs ftn weak = elim (lookup dec ftn subs) [
    | none ↦ (subs, done tt)
    | some e ↦
        if same_forwarder alive weak e.forwarder
        then fulfil_with (set_exception e.promise) (λ p. (erase_key dec ftn subs, tt))
            (subs, promise_already_satisfied)
        else (subs, done tt)
  ]

  -- `UpstreamSubscribePending::complete`, and its destructor while it is active.
  abbrev pub complete :
      (ℕ → Bool)
      → Subs
      → UpstreamSubscribePending Ftn
      → Option ℕ
      → ℕ
      → Option ℕ
      → Subs × Outcome Bool
  complete alive subs p = complete_subscription alive subs p.ftn p.weak_forwarder

  abbrev pub destroy : (ℕ → Bool) → Subs → UpstreamSubscribePending Ftn → Subs × Outcome (Unit {0})
  destroy alive subs p = fail_and_remove alive subs p.ftn p.weak_forwarder

  abbrev evict : Option Entry → Option Evicted
  evict none = none
  evict (some e) = some (record { forwarder = e.forwarder; handle = e.handle })

  -- `setActivityTarget` is a call of the filter: it changes nothing here.
  unfoldable pub create_from_publish :
      Subs → Ftn → ℕ → ℕ → ℕ → Option ℕ → (ℕ → FilterChainResult) → ℕ → Subs × Outcome PublishEntry
  unfolding lookup erase_key emplace
  create_from_publish subs ftn forwarder session request_id handle chain_builder now =
      let old = evict (lookup dec ftn subs) in
      let chain = chain_builder forwarder in
      let cleared = erase_key dec ftn subs in
      fulfil_with (set_value make)
        (λ p. (
          emplace dec ftn
              (record (new_entry forwarder (some session) now) {
                promise = p;
                request_id = request_id;
                handle = handle;
                is_publish = true;
                top_n_filter = some chain.top_n_filter;
              })
              cleared,
          record { consumer = chain.consumer; evicted = old },
        ))
        (
          emplace dec ftn (new_entry forwarder (some session) now) cleared,
          promise_already_satisfied,
        )

  unfoldable pub exists : Subs → Ftn → Bool
  unfolding lookup
  exists subs ftn = is_some (lookup dec ftn subs)

  abbrev view : {V : Type 0} → (Entry → V) → Option Entry → Option V
  view f none = none
  view f (some e) = some (f e)

  unfoldable pub get_forwarder : Subs → Ftn → Option ℕ
  unfolding lookup
  get_forwarder subs ftn = view (λ e. e.forwarder) (lookup dec ftn subs)

  unfoldable pub get_top_n_view : Subs → Ftn → Option TopNView
  unfolding lookup
  get_top_n_view subs ftn =
      view
        (λ e. record {
          forwarder = e.forwarder;
          top_n_filter = e.top_n_filter;
          last_object_time = e.last_object_time;
        })
        (lookup dec ftn subs)

  unfoldable pub get_upstream_view : Subs → Ftn → Option UpstreamView
  unfolding lookup
  get_upstream_view subs ftn =
      view
        (λ e. record {
          forwarder = e.forwarder;
          upstream = e.upstream;
          handle = e.handle;
          request_id = e.request_id;
          is_publish = e.is_publish;
          is_ready = is_fulfilled e.promise;
        })
        (lookup dec ftn subs)

  unfoldable pub get_fetch_view : Subs → Ftn → Option FetchView
  unfolding lookup
  get_fetch_view subs ftn =
      view
        (λ e. record {
          forwarder = e.forwarder;
          upstream = e.upstream;
          request_id = e.request_id;
          is_ready = is_fulfilled e.promise;
        })
        (lookup dec ftn subs)

  -- `is_empty` is the forwarder's `empty()`.
  unfoldable pub on_publisher_terminated : (ℕ → Bool) → Subs → Ftn → Subs × Option ℕ
  unfolding lookup assign erase_key
  on_publisher_terminated is_empty subs ftn = elim (lookup dec ftn subs) [
    | none ↦ (subs, none)
    | some e ↦
        if is_empty e.forwarder
        then (erase_key dec ftn subs, none)
        else (assign dec ftn (record e { handle = none; upstream = none }) subs, some e.forwarder)
  ]

  unfoldable pub remove : Subs → Ftn → Subs
  unfolding erase_key
  remove subs ftn = erase_key dec ftn subs

  abbrev entry_view : Ftn → Entry → EntryView Ftn
  entry_view ftn e = record {
    ftn = ftn;
    forwarder = e.forwarder;
    upstream = e.upstream;
    is_publish = e.is_publish;
    last_object_time = e.last_object_time;
  }

  unfoldable pub remove_if : (Ftn → EntryView Ftn → Bool) → Subs → Subs
  remove_if predicate [] = []
  remove_if predicate ((ftn, e) ∷ subs) =
      let rest = remove_if predicate subs in
      if predicate ftn (entry_view ftn e) then rest else (ftn, e) ∷ rest

  -- What `forEach` hands to its callback, in turn.
  unfoldable pub for_each_view : Subs → List (EntryView Ftn)
  for_each_view subs = map (λ s. entry_view s.0 s.1) subs
