-- ===== src/Tests.antt =====
-- Concrete inputs of each component.
mod Histograms
mod Rankings
mod Registries
mod Matchers
mod Filters
mod Writers
mod Namespaces
mod Caches
mod Misses
mod Gaps
mod Upstreams
