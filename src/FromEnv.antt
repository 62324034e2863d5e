-- ===== src/FromEnv.antt =====
-- providers/from-env: flags that are stored in environment variables.
pub mod Eval
pub mod Provider
pub mod Variants
pub mod Missing
