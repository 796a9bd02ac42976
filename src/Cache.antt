-- ===== src/Cache.antt =====
-- MoqxCache: the objects that the relay keeps of each track. A map is an association list, an LRU
-- list has its newest entry first, and an iterator into one is a flag: its node is the one entry with
-- the name. The interval sets and the arithmetic of locations are moxygen's, and a parameter. The
-- write-back filters, the fetches and the clock are the caller's: what they hand to the cache is an
-- argument.
pub mod State
pub mod Objects
pub mod Eviction
pub mod Lookup
pub mod Sums
pub mod Bytes
pub mod Accounts
pub mod Purges
pub mod Limits
pub mod Watermark
pub mod Expiry
pub mod Iterators
pub mod Writes
pub mod Largest
pub mod Misses
pub mod Gaps
pub mod Passed
