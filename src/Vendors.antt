-- ===== src/Vendors.antt =====
-- The providers that put the SDK of a vendor behind OpenFeature. A vendor's client is a parameter of
-- each of them.
pub mod Details
pub mod Flipt
pub mod Statsig
pub mod LaunchDarkly
pub mod Optimizely
pub mod Flagsmith
pub mod Unleash
pub mod ConfigCat
