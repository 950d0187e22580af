-- ===== src/Models.antt =====
-- The data model: src/models, and the application error of src/error.rs.
pub mod Error
pub mod Workflow
pub mod Audit
pub mod Accounts
pub mod Policy
pub mod Rooms
