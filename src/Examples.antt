-- ===== src/Examples.antt =====
-- The programs of examples/server.rs and examples/client.rs: their adaptors.
pub mod Crates
pub mod Server
pub mod Client
pub mod RoundTrip
