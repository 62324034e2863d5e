-- ===== src/MultiProvider.antt =====
-- providers/multi-provider: several providers behind one, with a strategy.
pub mod Strategies
pub mod FirstMatch
pub mod FirstSuccess
pub mod Comparison
pub mod Provider
