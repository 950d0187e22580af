-- ===== src/Handlers.antt =====
-- The handlers of src/handlers, as actions.
pub mod Session
pub mod Audit
pub mod Lifecycle
pub mod Bulk
pub mod Users
pub mod Policy
pub mod Invite
pub mod Templates
pub mod Dashboard
pub mod Refused
