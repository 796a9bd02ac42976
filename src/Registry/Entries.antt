-- ===== src/Registry/Entries.antt =====
-- SubscriptionRegistry.h: an entry, the views of it, and what the operations return.
use moq_testbed.Prelude.{ℕ, Bool, Option, List}
use moq_testbed.Registry.Promise.{SharedPromise}

module _ (sp : SharedPromise) where
  open sp use {Promise, is_fulfilled}

  pub record RelaySubscription : Type 0 where
    pub forwarder : ℕ
    pub upstream : Option ℕ
    pub request_id : ℕ
    pub handle : Option ℕ
    pub promise : Promise
    pub is_publish : Bool
    pub top_n_filter : Option ℕ
    pub last_object_time : ℕ

  abbrev pub Subscriptions : Type 0 → Type 0
  Subscriptions Ftn = List (Ftn × RelaySubscription)

-- The relay's filter chain always has a filter: `createFromPublish` uses it without a test for null.
pub record FilterChainResult : Type 0 where
  pub consumer : ℕ
  pub top_n_filter : ℕ

-- `active_` is not kept here: an inactive one is no longer there.
pub record UpstreamSubscribePending (Ftn : Type 0) : Type 0 where
  pub ftn : Ftn
  pub weak_forwarder : ℕ

pub data GetOrCreate (Ftn : Type 0) : Type 0 where
  first_subscriber : ℕ → ℕ → UpstreamSubscribePending Ftn → GetOrCreate Ftn
  subsequent : GetOrCreate Ftn

-- How the awaited future ended, and what `awaitSubsequent` then does.
pub data FutureResult : Type 0 where
  value exception : FutureResult

pub data Awaited : Type 0 where
  subsequent_subscriber : ℕ → Awaited
  upstream_failed subscription_gone : Awaited

pub record Evicted : Type 0 where
  pub forwarder : ℕ
  pub handle : Option ℕ

pub record PublishEntry : Type 0 where
  pub consumer : ℕ
  pub evicted : Option Evicted

pub record TopNView : Type 0 where
  pub forwarder : ℕ
  pub top_n_filter : Option ℕ
  pub last_object_time : ℕ

pub record UpstreamView : Type 0 where
  pub forwarder : ℕ
  pub upstream : Option ℕ
  pub handle : Option ℕ
  pub request_id : ℕ
  pub is_publish : Bool
  pub is_ready : Bool

pub record FetchView : Type 0 where
  pub forwarder : ℕ
  pub upstream : Option ℕ
  pub request_id : ℕ
  pub is_ready : Bool

pub record EntryView (Ftn : Type 0) : Type 0 where
  pub ftn : Ftn
  pub forwarder : ℕ
  pub upstream : Option ℕ
  pub is_publish : Bool
  pub last_object_time : ℕ
