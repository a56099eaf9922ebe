-- ===== src/Rpcsplitter.antt =====
-- rpcsplitter/: a proxy that sends a call to several Ethereum nodes and makes one answer of theirs.
pub mod Compare
pub mod Errors
pub mod Resolver
pub mod Server
pub mod Types
pub mod Examples
