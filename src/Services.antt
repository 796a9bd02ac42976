-- ===== src/Services.antt =====
-- ServiceMatcher: which service answers an authority and a path.
pub mod Rules
pub mod Matcher
pub mod RuleList
pub mod Longest
pub mod Gather
pub mod Tiers
pub mod ExactPaths
