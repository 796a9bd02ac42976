-- ===== src/Upstream.antt =====
-- UpstreamProvider: the connection of the relay to its upstream. A coroutine's parts between two
-- `co_await`s are events that come in any order; the network's answers are events too. Sessions are
-- addresses. What a forwarded call does on the session, and the timeouts, are moxygen's and folly's.
pub mod Connection
pub mod Single
pub mod Promise
pub mod Backoff
