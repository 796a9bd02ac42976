-- ===== src/Namespace.antt =====
-- NamespaceTree: the tree of announced namespaces and of the sessions that subscribe to them. Shared
-- pointers to sessions, callbacks, handles and rankings are their addresses, and the calls through
-- them are values that the operations return. A node's parent pointer is the path that an operation
-- came down: the list of frames from the node up to the root.
pub mod Nodes
pub mod Operations
pub mod Counts
pub mod Places
pub mod Contents
pub mod Pruning
pub mod Refinement
pub mod Requests
pub mod Publishers
pub mod Walks
