-- ===== src/Registry/Safety.antt =====
-- SubscriptionRegistry: the promises of pending subscribes through the calls.
use moq_testbed.Prelude.{
  ℕ, ◌≡◌, ◌≢◌, refl, sym, ◌∙◌, subst, Bool, true, false, Option, none, some, List, [], lookup,
  arith, Bool-cases, Option-cases, inl, inr, if_pos, if_neg,
}
use moq_testbed.Prelude.Assoc.{assign, emplace}
use moq_testbed.Registry.Promise.{SharedPromise}
use moq_testbed.Registry.Entries.{
  RelaySubscription, Subscriptions, FilterChainResult, UpstreamSubscribePending, first_subscriber,
  subsequent,
}
use moq_testbed.Registry.Operations.{
  done, promise_already_satisfied, get_or_create_from_subscribe, complete, destroy,
  complete_subscription, fail_and_remove, create_from_publish, on_publisher_terminated, remove,
  same_forwarder,
}
use moq_testbed.Registry.Identity.{
  lookup-emplace, create_from_publish-forwarder, create_from_publish-other,
}
use moq_testbed.Registry.Pending

module _ (sp : SharedPromise) {Ftn : Type 0} (dec : Discrete Ftn) (alive : ℕ → Bool) where
  open sp use {Promise, make, is_fulfilled, set_value, set_exception}

  abbrev Subs : Type 0
  Subs = Subscriptions sp Ftn

  abbrev Pend : Type 0
  Pend = UpstreamSubscribePending Ftn

  abbrev Waits : Subs → Pend → Type 0
  Waits = Pending.Waits sp dec alive

  abbrev NotPending : ℕ → List Pend → Type 0
  NotPending = Pending.NotPending

  publish-Waits :
      (subs : Subs) (ftn : Ftn) (forwarder session request_id : ℕ) (handle : Option ℕ)
      (chain : ℕ → FilterChainResult) (now : ℕ) (p : Pend)
      → p.weak_forwarder ≢ forwarder
      → Waits subs p
      → Waits
          (create_from_publish sp dec subs ftn forwarder session request_id handle chain now).0
          p
  publish-Waits subs ftn forwarder session request_id handle chain now p apart w e found same =
      elim (dec ftn p.ftn) [
        | yes eq ↦
            let mine =
              create_from_publish-forwarder sp dec subs ftn forwarder session request_id handle
                chain now e
                (subst
                  (λ (f : Ftn).
                    lookup dec f
                      (create_from_publish sp dec subs ftn forwarder session request_id handle chain
                        now).0
                    ≡ some e)
                  (sym eq) found) in
            absurd (apart (sym same ∙ mine))
        | no ne ↦
            w e
              (sym (
                  create_from_publish-other sp dec subs ftn forwarder session request_id handle
                    chain now p.ftn ne)
                ∙ found)
              same
      ]

  terminated-Waits :
      (is_empty : ℕ → Bool) (subs : Subs) (ftn : Ftn) (p : Pend)
      → Waits subs p
      → Waits (on_publisher_terminated sp dec is_empty subs ftn).0 p
  unfolding on_publisher_terminated
  terminated-Waits is_empty subs ftn p w = elim (Option-cases (lookup dec ftn subs)) [
    | inl gone ↦ rw (gone, on_publisher_terminated) w
    | inr (e, found) ↦ elim (Bool-cases (is_empty e.forwarder)) [
      | inl empty ↦
          rw (found, on_publisher_terminated)
            (rw empty (Pending.erase-Waits sp dec alive subs ftn p w))
      | inr used ↦
          rw (found, on_publisher_terminated)
            (rw used (
              Pending.assign-Waits sp dec alive subs ftn _ p (λ eq same. w e (rw (← eq) found) same)
                w))
    ]
  ]

  complete-Waits :
      (subs : Subs) (q p : Pend) (handle : Option ℕ) (request_id : ℕ) (upstream : Option ℕ)
      → p.weak_forwarder ≢ q.weak_forwarder
      → Waits subs p
      → Waits (complete sp dec alive subs q handle request_id upstream).0 p
  unfolding complete_subscription
  complete-Waits subs q p handle request_id upstream apart w =
      elim (Option-cases (lookup dec q.ftn subs)) [
        | inl gone ↦ rw (gone, complete_subscription) w
        | inr (e, found) ↦ elim (Bool-cases (same_forwarder alive q.weak_forwarder e.forwarder)) [
          | inl match ↦ elim (Option-cases (set_value e.promise)) [
            | inl twice ↦ rw (found, complete_subscription) (rw (match, twice) (put e match _ refl))
            | inr (v, once) ↦
                rw (found, complete_subscription) (rw (match, once) (put e match _ refl))
          ]
          | inr stale ↦ rw (found, complete_subscription) (rw stale w)
        ]
      ]
    where
      put :
          (e : RelaySubscription sp)
          → same_forwarder alive q.weak_forwarder e.forwarder ≡ true
          → (new : RelaySubscription sp) → new.forwarder ≡ e.forwarder
          → Waits (assign dec q.ftn new subs) p
      put e match new kept =
          Pending.assign-Waits sp dec alive subs q.ftn new p
            (λ eq same. absurd (ground (arith, apart))) w

  fail-Waits : (subs : Subs) (q p : Pend) → Waits subs p → Waits (destroy sp dec alive subs q).0 p
  unfolding fail_and_remove
  fail-Waits subs q p w = elim (Option-cases (lookup dec q.ftn subs)) [
    | inl gone ↦ rw (gone, fail_and_remove) w
    | inr (e, found) ↦ elim (Bool-cases (same_forwarder alive q.weak_forwarder e.forwarder)) [
      | inl match ↦ elim (Option-cases (set_exception e.promise)) [
        | inl twice ↦ rw (found, fail_and_remove) (rw (match, twice) w)
        | inr (v, once) ↦
            rw (found, fail_and_remove)
              (rw (match, once) (Pending.erase-Waits sp dec alive subs q.ftn p w))
      ]
      | inr stale ↦ rw (found, fail_and_remove) (rw stale w)
    ]
  ]

  -- A new entry waits, whoever is pending on it.
  subscribe-Waits :
      (subs : Subs) (ftn : Ftn) (forwarder : ℕ) (chain : ℕ → FilterChainResult) (now : ℕ) (p : Pend)
      → Waits subs p
      → Waits (get_or_create_from_subscribe sp dec subs ftn forwarder chain now).0 p
  unfolding get_or_create_from_subscribe
  subscribe-Waits subs ftn forwarder chain now p w = elim (Option-cases (lookup dec ftn subs)) [
    | inr (e, found) ↦ rw (found, get_or_create_from_subscribe) w
    | inl new ↦ rw (new, get_or_create_from_subscribe) (fresh new _ sp.make_unfulfilled)
  ]
    where
      fresh :
          lookup dec ftn subs ≡ none
          → (x : RelaySubscription sp) → is_fulfilled x.promise ≡ false
          → Waits (emplace dec ftn x subs) p
      fresh new x unfulfilled e found same = elim (dec ftn p.ftn) [
        | yes eq ↦
            let put : lookup dec p.ftn (emplace dec ftn x subs) ≡ some x =
              lookup-emplace sp dec ftn p.ftn x subs new ∙ rw (if_pos (dec ftn p.ftn) eq) in
            let one : x ≡ e = cc in
            subst (λ (y : RelaySubscription sp). is_fulfilled y.promise ≡ false) one unfulfilled
        | no ne ↦
            let kept : lookup dec p.ftn (emplace dec ftn x subs) ≡ lookup dec p.ftn subs =
              lookup-emplace sp dec ftn p.ftn x subs new ∙ rw (if_neg (dec ftn p.ftn) ne) in
            w e (sym kept ∙ found) same
      ]

  subscribe_first :
      (subs : Subs) (ftn : Ftn) (forwarder : ℕ) (chain : ℕ → FilterChainResult) (now : ℕ)
      → lookup dec ftn subs ≡ none
      → (get_or_create_from_subscribe sp dec subs ftn forwarder chain now).1
        ≡ first_subscriber forwarder
            (chain forwarder).consumer
            (record { ftn = ftn; weak_forwarder = forwarder })
  unfolding get_or_create_from_subscribe
  subscribe_first subs ftn forwarder chain now new = rw (new, get_or_create_from_subscribe)

  subscribe_again :
      (subs : Subs) (ftn : Ftn) (forwarder : ℕ) (chain : ℕ → FilterChainResult) (now : ℕ)
      (e : RelaySubscription sp)
      → lookup dec ftn subs ≡ some e
      → (get_or_create_from_subscribe sp dec subs ftn forwarder chain now).1 ≡ subsequent
  unfolding get_or_create_from_subscribe
  subscribe_again subs ftn forwarder chain now e found = rw (found, get_or_create_from_subscribe)

  subscribed-Inv :
      (s : Pending.System sp dec alive) (ftn : Ftn) (forwarder : ℕ) (chain : ℕ → FilterChainResult)
      (now : ℕ)
      → NotPending forwarder s.pendings
      → Pending.Inv sp dec alive s
      → Pending.Inv sp dec alive (Pending.subscribed sp dec alive s ftn forwarder chain now)
  subscribed-Inv s ftn forwarder chain now apart v =
      let after = (get_or_create_from_subscribe sp dec s.subs ftn forwarder chain now).0 in
      let waits =
        Pending.lift sp dec alive s.subs after s.pendings
          (subscribe-Waits s.subs ftn forwarder chain now) v.waits in
      elim (Option-cases (lookup dec ftn s.subs)) [
        | inl new ↦
            let p : Pend = record { ftn = ftn; weak_forwarder = forwarder } in
            let mine = subscribe-Waits s.subs ftn forwarder chain now p (λ e found same. cc) in
            rw (subscribe_first s.subs ftn forwarder chain now new)
              (record { distinct = (apart, v.distinct); waits = (mine, waits) })
        | inr (e, found) ↦
            rw (subscribe_again s.subs ftn forwarder chain now e found)
              (record { distinct = v.distinct; waits = waits })
      ]

  -- Every call keeps the invariant: pending subscribes have distinct forwarders, and an entry with
  -- a pending subscribe's name and forwarder has an unfulfilled promise.
  Step-Inv :
      {s t : Pending.System sp dec alive}
      → Pending.Step sp dec alive s t
      → Pending.Inv sp dec alive s
      → Pending.Inv sp dec alive t
  Step-Inv (Pending.subscribe ftn f chain now apart e) v =
      rw e (subscribed-Inv _ ftn f chain now apart v)
  Step-Inv {s} (Pending.completes p rest handle request_id upstream pick e) v =
      let (n, distinct) = Pending.Picks-AreDistinct sp dec alive pick v.distinct in
      let (w, ws) = Pending.Picks-AllWait sp dec alive s.subs pick v.waits in
      rw e (record {
        distinct = distinct;
        waits =
            Pending.lift_others sp dec alive p.weak_forwarder s.subs _ rest
              (λ q apart. complete-Waits s.subs p q handle request_id upstream apart) n ws;
      })
  Step-Inv {s} (Pending.fails p rest pick e) v =
      let (n, distinct) = Pending.Picks-AreDistinct sp dec alive pick v.distinct in
      let (w, ws) = Pending.Picks-AllWait sp dec alive s.subs pick v.waits in
      rw e (record {
        distinct = distinct;
        waits = Pending.lift sp dec alive s.subs _ rest (fail-Waits s.subs p) ws;
      })
  Step-Inv {s} (Pending.publish ftn f session request_id handle chain now apart e) v =
      rw e (record {
        distinct = v.distinct;
        waits =
            Pending.lift_others sp dec alive f s.subs _ s.pendings
              (publish-Waits s.subs ftn f session request_id handle chain now) apart v.waits;
      })
  Step-Inv {s} (Pending.terminates is_empty ftn e) v = rw e (record {
    distinct = v.distinct;
    waits =
        Pending.lift sp dec alive s.subs _ s.pendings (terminated-Waits is_empty s.subs ftn)
          v.waits;
  })
  Step-Inv {s} (Pending.removes ftn e) v = rw e (record {
    distinct = v.distinct;
    waits =
        unfold remove in
        Pending.lift sp dec alive s.subs _ s.pendings (Pending.erase-Waits sp dec alive s.subs ftn)
          v.waits;
  })

  -- Any number of calls.
  pub data Reach (s : Pending.System sp dec alive) : Pending.System sp dec alive → Type 0 where
    start : Reach s s
    next :
        {t u : Pending.System sp dec alive} → Reach s t → Pending.Step sp dec alive t u → Reach s u

  abbrev pub empty : Pending.System sp dec alive
  empty = record { subs = []; pendings = [] }

  Reach-Inv :
      {s t : Pending.System sp dec alive}
      → Pending.Inv sp dec alive s
      → Reach s t
      → Pending.Inv sp dec alive t
  Reach-Inv v start = v
  Reach-Inv v (next r st) = Step-Inv st (Reach-Inv v r)

  -- In every state that calls lead to from the empty registry, a pending subscribe can be completed
  -- or can fail without `PromiseAlreadySatisfied` being thrown.
  pub reachable_never_throws :
      {t : Pending.System sp dec alive} {p : Pend} {rest : List Pend} (handle : Option ℕ)
      (request_id : ℕ) (upstream : Option ℕ)
      → Reach empty t
      → Pending.Picks p t.pendings rest
      → ((complete sp dec alive t.subs p handle request_id upstream).1 ≢ promise_already_satisfied)
        × ((destroy sp dec alive t.subs p).1 ≡ done tt)
  unfolding complete_subscription fail_and_remove
  reachable_never_throws {t} {p} handle request_id upstream r pick =
      let v = Reach-Inv (record { distinct = tt; waits = tt }) r in
      let (w, ws) = Pending.Picks-AllWait sp dec alive t.subs pick v.waits in
      elim (Option-cases (lookup dec p.ftn t.subs)) [
        | inl gone ↦ (rw (gone, complete_subscription) (λ e. cc), rw (gone, fail_and_remove) refl)
        | inr (e, found) ↦ elim (Bool-cases (same_forwarder alive p.weak_forwarder e.forwarder)) [
          | inl match ↦
              let waiting = w e found (ground arith) in
              let (v1, set, ready) = sp.set_value_fulfils e.promise waiting in
              let (v2, set', ready') = sp.set_exception_fulfils e.promise waiting in
              (
                rw (found, complete_subscription) (rw (match, set) (λ e. cc)),
                rw (found, fail_and_remove) (rw (match, set')),
              )
          | inr stale ↦ (
            rw (found, complete_subscription) (rw stale (λ e. cc)),
            rw (found, fail_and_remove) (rw stale),
          )
        ]
      ]
