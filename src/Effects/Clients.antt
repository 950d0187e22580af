-- ===== src/Effects/Clients.antt =====
-- The upstream services: the traits, and their methods as actions.
pub mod Traits
pub mod Keycloak
pub mod Mas
pub mod Synapse
pub use Traits.*
