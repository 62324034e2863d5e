-- ===== src/Ofrep.antt =====
-- providers/ofrep/internal/evaluate: a flag is resolved by a request to an OFREP server.
pub mod Resolver
pub mod Flags
pub mod StatusCodes
pub mod Values
