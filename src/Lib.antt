-- ===== src/Lib.antt =====
-- A model of the core of moqx, a relay for Media over QUIC, and what holds of it.
--
-- The relay keeps a registry of the tracks that it subscribes to or that are published to it
-- (src/SubscriptionRegistry), and ranks tracks by a property of their objects, for subscribers that
-- ask for the N highest of them (src/relay/PropertyRanking). A connection is given
-- to a service by its authority and path (src/ServiceMatcher). Metrics are histograms
-- (src/stats/BoundedHistogram.h).
--
-- Histogram: BoundedHistogram, with `addValue`, `fillCumulative` and the constructor; counters wrap
-- at 2 ^ 64.
--
-- Ranking: PropertyRanking, whose record has the fields of the class. A call returns the new state
-- and the callbacks made on the way, in order. The sorted map is a list sorted by the key's
-- `operator>`, a hash map is an association list, and its order stands for any order of iteration.
-- Key has RankKey, State the data and the rank cache, Selection the selection of a publishing
-- session, Groups the states of a group's tracks, Thresholds the fast path, Tracks and Moves
-- `registerTrack`, `updateSortValue` and `removeTrack`, Sessions the groups' sessions, Sweep
-- `sweepIdle`. Proofs: Order and Container (the sorted map), Agree (map and index), Valid (the
-- invariant), Waterline, Delta, FastPath, Ranks, Deselected and Idle. Track names are a parameter
-- with a decided equality, a session is its address, a time is in milliseconds since the epoch.
-- Loops run over lists, so none needs fuel. The flag `iteratingSessions_` and the logging are not
-- modelled.
--
-- Registry: SubscriptionRegistry, for any promise that can be fulfilled once (Promise, what the
-- registry relies on of folly's SharedPromise). Entries has the data, Operations every method, a
-- throw being a value. A `weak_ptr` to a forwarder is its identity with a test whether it lives.
-- Pending has the calls as a step relation on the registry and the subscribes that are pending;
-- `removeIf` is an operation but no step. Proofs: Identity, Lifecycle (a first
-- subscribe and its end) and Safety. A filter chain has a filter, as the relay's always has.
--
-- Services: ServiceMatcher (src/ServiceMatcher), which names the service for an authority and a
-- path. Rules has the rules of one authority, for any sort that is longest first, Matcher the
-- constructor and `match`, ExactPaths `allExactPaths`. A string is the list of its bytes. Proofs: RuleList and Longest (the
-- best rule), Gather and Tiers (the three tables of authorities).
--
-- Filter: TopNFilter (src/relay/TopNFilter), which watches the properties of a track's objects and
-- feeds the ranking. Proofs: Check and Changes (what an observer is told), Throttle (how often).
--
-- Json: JsonWriter (src/admin/JsonWriter.h), whose output is a list of bytes. Proofs: Escape (the
-- strings, against a reader of JSON strings) and Commas.
--
-- Namespace: NamespaceTree (src/NamespaceTree), the tree of announced namespaces. Nodes has the
-- tree, its paths and `findNode`, Operations the guard with the counts of active children and the
-- pruning, and every request; a failed XCHECK is `none`. Requests runs them one after the other,
-- Walks has the two walks over a tree, the loop over a queue with as much fuel as the tree has
-- nodes. A parent pointer is the path an operation came down. Proofs: Counts, Places, Contents,
-- Pruning and Refinement (the operations as updates of a map), Publishers.
--
-- Cache: MoqxCache (src/MoqxCache), the objects that the relay keeps. State has the data, Objects
-- `cacheObject` with the gaps and `updateLargest`, Eviction the LRU lists, the evictions, `purge` and
-- `clear`, Lookup the byte accounting of a write, the reads with their expiry, the durations and the
-- limits. A map is an association list, an iterator into an LRU list a flag, the interval sets a
-- parameter. A run returns, fails a check, or is out of fuel: a loop of evictions gets as much as its
-- list has entries, since each turn takes one. Proofs: Sums, Bytes and Accounts (the total of bytes),
-- Purges, Expiry, Limits and Watermark (the byte limit), Iterators and Writes (a whole write), Largest. Misses has `getFetchIntervals`, the
-- intervals that a fetch asks upstream for, on numbers of 64 bits, and what they cover. Gaps has
-- `getGapRanges`, the ranges that a fetch marks as not existing, and Passed what they cover.
--
-- Upstream: UpstreamProvider (src/UpstreamProvider), the connection to an upstream relay. Connection
-- has the state, what each part of a coroutine does to it, the events in any order and the reconnect
-- loop. Proofs: Single (one attempt at a time), Promise, Backoff.
--
-- Tests runs the models on small inputs.
--
-- Not modelled: the cache's write-back filters, the coroutine of a
-- fetch and its range iterator, what UpstreamProvider forwards
-- once it has a session (its calls of moxygen), the glue over moxygen's sessions, the hand-over
-- between executors, the configuration, the admin server, the statistics collectors, and the
-- detection of shared bottlenecks, whose arithmetic is on floating-point numbers.
pub mod Prelude
pub mod Histogram
pub mod Ranking
pub mod Registry
pub mod Services
pub mod Filter
pub mod Namespace
pub mod Cache
pub mod Upstream
pub mod Json
mod Tests
