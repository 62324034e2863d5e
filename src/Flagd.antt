-- ===== src/Flagd.antt =====
-- providers/flagd: the cache of evaluations, the retry counter and the service that resolves flags
-- by remote procedure calls.
pub mod Cache
pub mod InMemory
pub mod RetryCounter
pub mod Backoff
pub mod Rpc
pub mod RpcLaws
pub mod Changes
pub mod Stream
pub mod InProcess
pub mod Environment
pub mod Configuration
pub mod Provider
