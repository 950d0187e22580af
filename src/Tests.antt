-- ===== src/Tests.antt =====
-- The theorems at concrete services, worlds and inputs.
pub mod Services
pub mod Lifecycle
pub mod Policy
pub mod Preview
pub mod Query
pub mod Email
pub mod Invite
pub mod Directory
pub mod Web
pub mod Forms
pub mod Client
pub mod Dates
pub mod Levels
