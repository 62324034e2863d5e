-- ===== src/OpenFeature.antt =====
-- What the providers use of the OpenFeature SDK.
mod Values
mod Api
unfoldable pub use Values.*
unfoldable pub use Api.*
