-- ===== src/GoFeatureFlag.antt =====
-- providers/go-feature-flag: the provider, its evaluators, the cache of evaluations and the manager
-- of collected events.
pub mod Collector
pub mod Cache
pub mod Api
pub mod Remote
pub mod Polling
pub mod Provider
