-- ===== src/Registry/Lifecycle.antt =====
-- SubscriptionRegistry: a first subscribe, from its entry to its completion or failure.
use moq_testbed.Prelude.{
  ℕ, ◌≡◌, ◌≢◌, refl, ◌∙◌, Bool, true, false, Option, none, some, List, [], ◌∷◌, lookup, arith,
  if_pos, if_neg,
}
use moq_testbed.Prelude.Assoc.{emplace, erase_key}
use moq_testbed.Registry.Promise.{SharedPromise}
use moq_testbed.Registry.Entries.{
  RelaySubscription, Subscriptions, FilterChainResult, UpstreamSubscribePending, first_subscriber,
}
use moq_testbed.Registry.Operations.{
  done, new_entry, same_forwarder, get_or_create_from_subscribe, complete, destroy, fail_and_remove,
  get_upstream_view,
}
use moq_testbed.Registry.Identity.{lookup-emplace, complete_lem}

module _ (sp : SharedPromise) {Ftn : Type 0} (dec : Discrete Ftn) where
  abbrev Subs : Type 0
  Subs = Subscriptions sp Ftn

  erase_key-emplace :
      {V : Type 0} (k : Ftn) (v : V) (m : List (Ftn × V))
      → lookup dec k m ≡ none
      → erase_key dec k (emplace dec k v m) ≡ m
  unfolding erase_key emplace lookup
  erase_key-emplace k v [] h = ground arith
  erase_key-emplace k v ((j, w) ∷ m) h = ground (arith, erase_key-emplace k v m)

  -- The entry of a first subscriber.
  abbrev opened : ℕ → (ℕ → FilterChainResult) → ℕ → RelaySubscription sp
  opened forwarder chain now = record (new_entry sp dec forwarder none now) {
    top_n_filter = some (chain forwarder).top_n_filter;
  }

  subscribe_lem :
      (subs : Subs) (ftn : Ftn) (forwarder : ℕ) (chain : ℕ → FilterChainResult) (now : ℕ)
      → lookup dec ftn subs ≡ none
      → get_or_create_from_subscribe sp dec subs ftn forwarder chain now ≡ (
        emplace dec ftn (opened forwarder chain now) subs,
        first_subscriber forwarder
            (chain forwarder).consumer
            (record { ftn = ftn; weak_forwarder = forwarder }),
      )
  unfolding get_or_create_from_subscribe
  subscribe_lem subs ftn forwarder chain now h = rw (h, get_or_create_from_subscribe) refl

  opened_there :
      (subs : Subs) (ftn : Ftn) (e : RelaySubscription sp)
      → lookup dec ftn subs ≡ none
      → lookup dec ftn (emplace dec ftn e subs) ≡ some e
  opened_there subs ftn e h =
      lookup-emplace sp dec ftn ftn e subs h
      ∙ if_pos (dec ftn ftn) refl (some e) (lookup dec ftn subs)

  opened_apart :
      (subs : Subs) (ftn other : Ftn) (e : RelaySubscription sp)
      → lookup dec ftn subs ≡ none
      → ftn ≢ other
      → lookup dec other (emplace dec ftn e subs) ≡ lookup dec other subs
  opened_apart subs ftn other e h ne =
      lookup-emplace sp dec ftn other e subs h
      ∙ if_neg (dec ftn other) ne (some e) (lookup dec other subs)

  own_forwarder : (alive : ℕ → Bool) (f : ℕ) → alive f ≡ true → same_forwarder alive f f ≡ true
  own_forwarder alive f h = ground (arith, h)

  -- A subscribe for a name without an entry is the first subscriber. When its forwarder lives, its
  -- completion on the registry it left returns true; the name is then ready, not by a publish, with the
  -- handle, the request and the session of the completion, and another name has what it had before the
  -- subscribe.
  pub subscribe-complete :
      (alive : ℕ → Bool) (subs : Subs) (ftn : Ftn) (forwarder : ℕ) (chain : ℕ → FilterChainResult)
      (now : ℕ) (handle : Option ℕ) (request_id : ℕ) (upstream : Option ℕ) (other : Ftn)
      → lookup dec ftn subs ≡ none
      → alive forwarder ≡ true
      → ftn ≢ other
      → let p : UpstreamSubscribePending Ftn = record { ftn = ftn; weak_forwarder = forwarder } in
        let first = get_or_create_from_subscribe sp dec subs ftn forwarder chain now in
        let after = complete sp dec alive first.0 p handle request_id upstream in
        (first.1 ≡ first_subscriber forwarder (chain forwarder).consumer p)
        × (after.1 ≡ done true)
        × (get_upstream_view sp dec after.0 ftn
            ≡ some (record {
              forwarder = forwarder;
              upstream = upstream;
              handle = handle;
              request_id = request_id;
              is_publish = false;
              is_ready = true;
            }))
        × (lookup dec other after.0 ≡ lookup dec other subs)
  subscribe-complete alive subs ftn forwarder chain now handle request_id upstream other h lives
        ne =
      let p : UpstreamSubscribePending Ftn = record { ftn = ftn; weak_forwarder = forwarder } in
      let e = opened forwarder chain now in
      let (answered, ready, apart) =
        complete_lem sp dec alive (emplace dec ftn e subs) p handle request_id upstream e other
          (opened_there subs ftn e h) (own_forwarder alive forwarder lives) sp.make_unfulfilled
          ne in
      rw (subscribe_lem subs ftn forwarder chain now h)
        (refl, answered, ready, apart ∙ opened_apart subs ftn other e h ne)

  -- When a first subscribe fails while its forwarder lives, with no other call in between, its entry
  -- goes: the registry is what it was before the subscribe, and nothing is thrown.
  pub subscribe-destroy :
      (alive : ℕ → Bool) (subs : Subs) (ftn : Ftn) (forwarder : ℕ) (chain : ℕ → FilterChainResult)
      (now : ℕ)
      → lookup dec ftn subs ≡ none
      → alive forwarder ≡ true
      → let p : UpstreamSubscribePending Ftn = record { ftn = ftn; weak_forwarder = forwarder } in
        let first = get_or_create_from_subscribe sp dec subs ftn forwarder chain now in
        destroy sp dec alive first.0 p ≡ (subs, done tt)
  unfolding fail_and_remove
  subscribe-destroy alive subs ftn forwarder chain now h lives =
      let e = opened forwarder chain now in
      let (q, set, fulfils) = sp.set_exception_fulfils sp.make sp.make_unfulfilled in
      rw (subscribe_lem subs ftn forwarder chain now h) rw
        (opened_there subs ftn e h, fail_and_remove) rw (own_forwarder alive forwarder lives, set)
        rw (erase_key-emplace ftn e subs h) refl
