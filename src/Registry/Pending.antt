-- ===== src/Registry/Pending.antt =====
-- SubscriptionRegistry: its calls as steps on the registry and the subscribes that are pending, and
-- the invariant on the promises of their entries.
use moq_testbed.Prelude.{
  ℕ, ◌≡◌, ◌≢◌, sym, ◌∙◌, ap, subst, Bool, false, Option, none, some, List, [], ◌∷◌, lookup, if_pos,
  if_neg,
}
use moq_testbed.Prelude.Assoc.{assign, erase_key, lookup-assign, lookup-erase_key}
use moq_testbed.Registry.Promise.{SharedPromise}
use moq_testbed.Registry.Entries.{
  RelaySubscription, Subscriptions, FilterChainResult, UpstreamSubscribePending, GetOrCreate,
  first_subscriber, subsequent,
}
use moq_testbed.Registry.Operations.{
  get_or_create_from_subscribe, complete, destroy, create_from_publish, on_publisher_terminated,
  remove,
}

-- One of the pending subscribes, and the others.
pub data Picks {A : Type 0} (p : A) : List A → List A → Type 0 where
  here : {ps : List A} → Picks p (p ∷ ps) ps
  there : {q : A} {ps qs : List A} → Picks p ps qs → Picks p (q ∷ ps) (q ∷ qs)

module _ {Ftn : Type 0} where
  -- No pending subscribe has the forwarder.
  abbrev pub NotPending : ℕ → List (UpstreamSubscribePending Ftn) → Type 0
  NotPending f [] = Unit {0}
  NotPending f (p ∷ ps) = (p.weak_forwarder ≢ f) × NotPending f ps

  -- Pending subscribes have distinct forwarders.
  abbrev pub AreDistinct : List (UpstreamSubscribePending Ftn) → Type 0
  AreDistinct [] = Unit {0}
  AreDistinct (p ∷ ps) = NotPending p.weak_forwarder ps × AreDistinct ps

  -- The pending subscribes that a subscribe adds to.
  abbrev pub with_pending :
      GetOrCreate Ftn → List (UpstreamSubscribePending Ftn) → List (UpstreamSubscribePending Ftn)
  with_pending subsequent ps = ps
  with_pending (first_subscriber f c p) ps = p ∷ ps

module _ (sp : SharedPromise) {Ftn : Type 0} (dec : Discrete Ftn) (alive : ℕ → Bool) where
  open sp use {Promise, make, is_fulfilled, set_value, set_exception}

  pub record System : Type 0 where
    pub subs : Subscriptions sp Ftn
    pub pendings : List (UpstreamSubscribePending Ftn)

  abbrev pub subscribed : System → Ftn → ℕ → (ℕ → FilterChainResult) → ℕ → System
  subscribed s ftn forwarder chain now =
      let r = get_or_create_from_subscribe sp dec s.subs ftn forwarder chain now in
      record { subs = r.0; pendings = with_pending r.1 s.pendings }

  -- The calls that change the registry, all but `removeIf`. A new forwarder is no pending subscribe's: it was made
  -- for this call.
  pub data Step (s : System) : System → Type 0 where
    subscribe :
        (ftn : Ftn) (forwarder : ℕ) (chain : ℕ → FilterChainResult) (now : ℕ) {t : System}
        → NotPending forwarder s.pendings
        → t ≡ subscribed s ftn forwarder chain now
        → Step s t
    completes :
        (p : UpstreamSubscribePending Ftn) (rest : List (UpstreamSubscribePending Ftn))
        (handle : Option ℕ) (request_id : ℕ) (upstream : Option ℕ) {t : System}
        → Picks p s.pendings rest
        → t ≡ record {
          subs = (complete sp dec alive s.subs p handle request_id upstream).0;
          pendings = rest;
        }
        → Step s t
    fails :
        (p : UpstreamSubscribePending Ftn) (rest : List (UpstreamSubscribePending Ftn)) {t : System}
        → Picks p s.pendings rest
        → t ≡ record { subs = (destroy sp dec alive s.subs p).0; pendings = rest }
        → Step s t
    publish :
        (ftn : Ftn) (forwarder session request_id : ℕ) (handle : Option ℕ)
        (chain : ℕ → FilterChainResult) (now : ℕ) {t : System}
        → NotPending forwarder s.pendings
        → t ≡ record s {
          subs =
              (create_from_publish sp dec s.subs ftn forwarder session request_id handle chain
                now).0;
        }
        → Step s t
    terminates :
        (is_empty : ℕ → Bool) (ftn : Ftn) {t : System}
        → t ≡ record s { subs = (on_publisher_terminated sp dec is_empty s.subs ftn).0 }
        → Step s t
    removes : (ftn : Ftn) {t : System} → t ≡ record s { subs = remove sp dec s.subs ftn } → Step s t

  -- The entry that a pending subscribe would complete still waits.
  abbrev pub Waits : Subscriptions sp Ftn → UpstreamSubscribePending Ftn → Type 0
  Waits subs p =
      (e : RelaySubscription sp)
      → lookup dec p.ftn subs ≡ some e
      → e.forwarder ≡ p.weak_forwarder
      → is_fulfilled e.promise ≡ false

  abbrev pub AllWait : Subscriptions sp Ftn → List (UpstreamSubscribePending Ftn) → Type 0
  AllWait subs [] = Unit {0}
  AllWait subs (p ∷ ps) = Waits subs p × AllWait subs ps

  pub record Inv (s : System) : Type 0 where
    pub distinct : AreDistinct s.pendings
    pub waits : AllWait s.subs s.pendings

  pub lift :
      (old new : Subscriptions sp Ftn) (ps : List (UpstreamSubscribePending Ftn))
      → ((p : UpstreamSubscribePending Ftn) → Waits old p → Waits new p)
      → AllWait old ps
      → AllWait new ps
  lift old new [] keep w = tt
  lift old new (p ∷ ps) keep w = (keep p w.0, lift old new ps keep w.1)

  pub lift_others :
      (f : ℕ) (old new : Subscriptions sp Ftn) (ps : List (UpstreamSubscribePending Ftn))
      → ((p : UpstreamSubscribePending Ftn) → p.weak_forwarder ≢ f → Waits old p → Waits new p)
      → NotPending f ps
      → AllWait old ps
      → AllWait new ps
  lift_others f old new [] keep n w = tt
  lift_others f old new (p ∷ ps) keep n w = (keep p n.0 w.0, lift_others f old new ps keep n.1 w.1)

  pub Picks-AllWait :
      {p : UpstreamSubscribePending Ftn} {ps rest : List (UpstreamSubscribePending Ftn)}
      (subs : Subscriptions sp Ftn)
      → Picks p ps rest
      → AllWait subs ps
      → Waits subs p × AllWait subs rest
  Picks-AllWait subs here w = w
  Picks-AllWait subs (there pick) (first, others) =
      let (w, ws) = Picks-AllWait subs pick others in (w, (first, ws))

  pub Picks-NotPending :
      {p : UpstreamSubscribePending Ftn} {ps rest : List (UpstreamSubscribePending Ftn)} (f : ℕ)
      → Picks p ps rest
      → NotPending f ps
      → (p.weak_forwarder ≢ f) × NotPending f rest
  Picks-NotPending f here n = n
  Picks-NotPending f (there pick) (first, others) =
      let (m, ms) = Picks-NotPending f pick others in (m, (first, ms))

  pub Picks-AreDistinct :
      {p : UpstreamSubscribePending Ftn} {ps rest : List (UpstreamSubscribePending Ftn)}
      → Picks p ps rest
      → AreDistinct ps
      → NotPending p.weak_forwarder rest × AreDistinct rest
  Picks-AreDistinct here d = d
  Picks-AreDistinct {p} (there {q = q} pick) (first, others) =
      let (apart, ms) = Picks-NotPending q.weak_forwarder pick first in
      let (n, ds) = Picks-AreDistinct pick others in ((λ e. apart (sym e), n), (ms, ds))

  pub erase-Waits :
      (subs : Subscriptions sp Ftn) (f : Ftn) (p : UpstreamSubscribePending Ftn)
      → Waits subs p
      → Waits (erase_key dec f subs) p
  erase-Waits subs f p w e found same = elim (dec f p.ftn) [
    | yes eq ↦
        let gone : lookup dec p.ftn (erase_key dec f subs) ≡ none =
          rw (lookup-erase_key dec f p.ftn subs, if_pos (dec f p.ftn) eq) in
        cc
    | no ne ↦
        let kept : lookup dec p.ftn (erase_key dec f subs) ≡ lookup dec p.ftn subs =
          rw (lookup-erase_key dec f p.ftn subs, if_neg (dec f p.ftn) ne) in
        w e (sym kept ∙ found) same
  ]

  -- A write that leaves a pending subscribe with an unfulfilled promise, or with another forwarder.
  pub assign-Waits :
      (subs : Subscriptions sp Ftn) (f : Ftn) (new : RelaySubscription sp)
      (p : UpstreamSubscribePending Ftn)
      → (f ≡ p.ftn → new.forwarder ≡ p.weak_forwarder → is_fulfilled new.promise ≡ false)
      → Waits subs p
      → Waits (assign dec f new subs) p
  assign-Waits subs f new p ok w e found same = elim (dec f p.ftn) [
    | yes eq ↦
        let put : lookup dec p.ftn (assign dec f new subs) ≡ some new =
          rw (lookup-assign dec f p.ftn new subs, if_pos (dec f p.ftn) eq) in
        let one : new ≡ e = cc in
        subst (λ (x : RelaySubscription sp). is_fulfilled x.promise ≡ false) one
          (ok eq (ap (λ (x : RelaySubscription sp). x.forwarder) one ∙ same))
    | no ne ↦
        let kept : lookup dec p.ftn (assign dec f new subs) ≡ lookup dec p.ftn subs =
          rw (lookup-assign dec f p.ftn new subs, if_neg (dec f p.ftn) ne) in
        w e (sym kept ∙ found) same
  ]
