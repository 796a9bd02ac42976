-- ===== src/Registry/Identity.antt =====
-- SubscriptionRegistry: the forwarder identity of pending subscribes, and single operations.
use moq_testbed.Prelude.{
  ℕ, ◌≡◌, ◌≢◌, refl, sym, ◌∙◌, ap, Bool, true, false, Option, none, some, List, [], ◌∷◌, lookup,
  arith, Option-cases, inl, inr, ite, if_pos, if_neg,
}
use moq_testbed.Prelude.Assoc.{emplace, erase_key, lookup-assign, lookup-erase_key}
use moq_testbed.Registry.Promise.{SharedPromise}
use moq_testbed.Registry.Entries.{
  RelaySubscription, Subscriptions, FilterChainResult, UpstreamSubscribePending, Evicted,
}
use moq_testbed.Registry.Operations.{
  done, new_entry, same_forwarder, complete_subscription, fail_and_remove, complete, destroy,
  create_from_publish, get_upstream_view,
}

module _ (sp : SharedPromise) {Ftn : Type 0} (dec : Discrete Ftn) where
  open sp use {Promise, make, is_fulfilled, set_value, set_exception}

  abbrev Subs : Type 0
  Subs = Subscriptions sp Ftn

  -- What `emplace` leaves when the key is not there.
  pub lookup-emplace :
      {V : Type 0} (k j : Ftn) (v : V) (m : List (Ftn × V))
      → lookup dec k m ≡ none
      → lookup dec j (emplace dec k v m) ≡ ite (dec k j) (some v) (lookup dec j m)
  unfolding emplace lookup
  lookup-emplace k j v [] h = ground arith
  lookup-emplace k j v ((i, w) ∷ m) h = ground (arith, lookup-emplace k j v m)

  -- A pending subscribe whose entry is gone, was replaced by another forwarder's, or whose forwarder
  -- no longer lives, has no effect: `complete` returns false, its destructor returns, and neither
  -- throws nor changes the registry.
  stale_no_effect :
      (alive : ℕ → Bool) (subs : Subs) (p : UpstreamSubscribePending Ftn) (handle : Option ℕ)
      (request_id : ℕ) (upstream : Option ℕ)
      → ((e : RelaySubscription sp)
          → lookup dec p.ftn subs ≡ some e
          → same_forwarder alive p.weak_forwarder e.forwarder ≡ false)
      → (complete sp dec alive subs p handle request_id upstream ≡ (subs, done false))
        × (destroy sp dec alive subs p ≡ (subs, done tt))
  unfolding complete_subscription fail_and_remove
  stale_no_effect alive subs p handle request_id upstream stale =
      elim (Option-cases (lookup dec p.ftn subs)) [
        | inl gone ↦ (rw (gone, complete_subscription), rw (gone, fail_and_remove))
        | inr (e, there) ↦ (
          rw (there, complete_subscription) (rw (stale e there)),
          rw (there, fail_and_remove) (rw (stale e there)),
        )
      ]

  -- The completion of a pending subscribe whose forwarder is still the entry's: it returns true,
  -- the entry is ready with the new handle, request and session, and another name keeps its entry.
  pub complete_lem :
      (alive : ℕ → Bool) (subs : Subs) (p : UpstreamSubscribePending Ftn) (handle : Option ℕ)
      (request_id : ℕ) (upstream : Option ℕ) (e : RelaySubscription sp) (other : Ftn)
      → lookup dec p.ftn subs ≡ some e
      → same_forwarder alive p.weak_forwarder e.forwarder ≡ true
      → is_fulfilled e.promise ≡ false
      → p.ftn ≢ other
      → let after = complete sp dec alive subs p handle request_id upstream in
        (after.1 ≡ done true)
        × (get_upstream_view sp dec after.0 p.ftn
            ≡ some (record {
              forwarder = e.forwarder;
              upstream = upstream;
              handle = handle;
              request_id = request_id;
              is_publish = e.is_publish;
              is_ready = true;
            }))
        × (lookup dec other after.0 ≡ lookup dec other subs)
  unfolding complete_subscription get_upstream_view
  complete_lem alive subs p handle request_id upstream e other there same waiting ne =
      let (q, set, ready) = sp.set_value_fulfils e.promise waiting in
      rw (there, complete_subscription)
        (rw (same, set)
          (
            refl,
            rw (lookup-assign, if_pos (dec p.ftn p.ftn) refl) (rw ready),
            rw (lookup-assign, if_neg _ ne),
          ))

  lookup-erase_key_self : (f : Ftn) (subs : Subs) → lookup dec f (erase_key dec f subs) ≡ none
  lookup-erase_key_self f subs = rw (lookup-erase_key dec f f subs, if_pos (dec f f) refl)

  abbrev evicted_of : Option (RelaySubscription sp) → Option Evicted
  evicted_of none = none
  evicted_of (some e) = some (record { forwarder = e.forwarder; handle = e.handle })

  -- A publish never throws. It hands back the forwarder and the handle of the entry that it
  -- replaces, if there was one; the new entry is ready, in publish mode, with the publisher's
  -- session, request and handle; another name keeps its entry.
  pub create_from_publish_lem :
      (subs : Subs) (ftn : Ftn) (forwarder session request_id : ℕ) (handle : Option ℕ)
      (chain : ℕ → FilterChainResult) (now : ℕ) (other : Ftn)
      → ftn ≢ other
      → let after =
          create_from_publish sp dec subs ftn forwarder session request_id handle chain now in
        (after.1
          ≡ done (record {
            consumer = (chain forwarder).consumer;
            evicted = evicted_of (lookup dec ftn subs);
          }))
        × (get_upstream_view sp dec after.0 ftn
            ≡ some (record {
              forwarder = forwarder;
              upstream = some session;
              handle = handle;
              request_id = request_id;
              is_publish = true;
              is_ready = true;
            }))
        × (lookup dec other after.0 ≡ lookup dec other subs)
  unfolding create_from_publish get_upstream_view
  create_from_publish_lem subs ftn forwarder session request_id handle chain now other ne =
      let (q, set, ready) = sp.set_value_fulfils make sp.make_unfulfilled in
      let gone = lookup-erase_key_self ftn subs in
      rw set (
        elim (Option-cases (lookup dec ftn subs)) [
          | inl absent ↦ rw absent
          | inr (old, there) ↦ rw there
        ],
        rw (lookup-emplace ftn ftn _ (erase_key dec ftn subs) gone, if_pos (dec ftn ftn) refl)
            (rw ready),
        lookup-emplace ftn other _ (erase_key dec ftn subs) gone
            ∙ rw (
              if_neg (dec ftn other) ne,
              lookup-erase_key dec ftn other subs,
              if_neg (dec ftn other) ne,
            ),
      )

  pub create_from_publish-forwarder :
      (subs : Subs) (ftn : Ftn) (forwarder session request_id : ℕ) (handle : Option ℕ)
      (chain : ℕ → FilterChainResult) (now : ℕ) (e : RelaySubscription sp)
      → lookup dec ftn
          (create_from_publish sp dec subs ftn forwarder session request_id handle chain now).0
        ≡ some e
      → e.forwarder ≡ forwarder
  unfolding create_from_publish
  create_from_publish-forwarder subs ftn forwarder session request_id handle chain now e there =
      let (q, set, ready) = sp.set_value_fulfils make sp.make_unfulfilled in
      let gone = lookup-erase_key_self ftn subs in
      let found =
        lookup-emplace ftn ftn
          (record (new_entry sp dec forwarder (some session) now) {
            promise = q;
            request_id = request_id;
            handle = handle;
            is_publish = true;
            top_n_filter = some (chain forwarder).top_n_filter;
          })
          (erase_key dec ftn subs) gone in
      let there' = rw set at there in
      let found' = rw (if_pos (dec ftn ftn) refl) at found in some_inj (sym found' ∙ there')
    where
      some_inj : {a b : RelaySubscription sp} → some a ≡ some b → b.forwarder ≡ a.forwarder
      some_inj {a} {b} p =
          let same : a ≡ b = cc in ap (λ (x : RelaySubscription sp). x.forwarder) (sym same)

  pub create_from_publish-other :
      (subs : Subs) (ftn : Ftn) (forwarder session request_id : ℕ) (handle : Option ℕ)
      (chain : ℕ → FilterChainResult) (now : ℕ) (other : Ftn)
      → ftn ≢ other
      → lookup dec other
          (create_from_publish sp dec subs ftn forwarder session request_id handle chain now).0
        ≡ lookup dec other subs
  create_from_publish-other subs ftn forwarder session request_id handle chain now other ne =
      (create_from_publish_lem subs ftn forwarder session request_id handle chain now other ne).2

  -- A publisher that takes a name over while a subscribe is pending keeps it: the subscribe's later
  -- completion returns false and its failure does nothing, unless both have the same forwarder.
  pub publish_survives_pending :
      (alive : ℕ → Bool) (subs : Subs) (p : UpstreamSubscribePending Ftn) (forwarder session : ℕ)
      (request_id : ℕ) (handle : Option ℕ) (chain : ℕ → FilterChainResult) (now : ℕ)
      (handle' : Option ℕ) (request_id' : ℕ) (upstream' : Option ℕ)
      → forwarder ≢ p.weak_forwarder
      → let published =
          create_from_publish sp dec subs p.ftn forwarder session request_id handle chain now in
        (complete sp dec alive published.0 p handle' request_id' upstream'
          ≡ (published.0, done false))
        × (destroy sp dec alive published.0 p ≡ (published.0, done tt))
  publish_survives_pending alive subs p forwarder session request_id handle chain now handle'
        request_id' upstream' apart =
      let after =
        create_from_publish sp dec subs p.ftn forwarder session request_id handle chain now in
      stale_no_effect alive after.0 p handle' request_id' upstream' λ e there.
        let same =
          create_from_publish-forwarder subs p.ftn forwarder session request_id handle chain now e
            there in
        ground arith
