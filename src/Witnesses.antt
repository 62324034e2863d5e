-- ===== src/Witnesses.antt =====
-- The theorems applied to small concrete programs.
mod Sdk
mod Strategies
mod Comparisons
mod Providers
mod Services
mod Stored
mod Flagd
mod Polling
mod Hooks
mod Events
mod Lifecycle
mod Flipt
mod Statsig
mod LaunchDarkly
mod Clients
