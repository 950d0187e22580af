-- ===== src/Effects.antt =====
-- The effects of the program: the database, the calls to the upstream services with their
-- success, and the actions that run against both.
pub mod Database
pub mod Event
pub mod Exec
pub mod Clients
pub mod Rules
pub mod Reports
