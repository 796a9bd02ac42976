-- ===== src/Ranking.antt =====
-- relay/PropertyRanking: the ranking of tracks by a property, and which of them each group of
-- subscribers with the same N, and each publisher among them, has selected.
pub mod Key
pub mod State
pub mod Selection
pub mod Groups
pub mod Thresholds
pub mod Tracks
pub mod Moves
pub mod Sessions
pub mod Sweep
pub mod Order
pub mod Waterline
pub mod FastPath
pub mod Delta
pub mod Ranks
pub mod Container
pub mod Agree
pub mod Valid
pub mod Deselected
pub mod Idle
