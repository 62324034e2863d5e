-- ===== src/Vendors/Statsig.antt =====
-- providers/statsig/pkg/provider.go. The SDK of Statsig is `Client`, and what the code asks of
-- values of types that `Any` does not tell apart is `Values`.
pub mod User
pub mod Evaluation
pub mod Failures
