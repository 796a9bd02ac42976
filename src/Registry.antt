-- ===== src/Registry.antt =====
-- SubscriptionRegistry: the tracks that the relay has a forwarder for. Sessions, forwarders, handles,
-- consumers and filters are shared pointers: their addresses. A track name is a parameter with a
-- decision, and so is folly's `SharedPromise`, with what its documentation says of it. The clock, a
-- new forwarder and the caller's chain builder are arguments. That a filter writes into
-- `lastObjectTime` through the pointer that `createFromPublish` gives it is not modelled.
pub mod Promise
pub mod Entries
pub mod Operations
pub mod Identity
pub mod Lifecycle
pub mod Pending
pub mod Safety
