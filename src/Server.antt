-- ===== src/Server.antt =====
-- The services on top of the provider, as the server assembles them.
pub mod Balances
pub mod Controllers
pub mod Flags
pub mod Factory
pub mod Assembly
