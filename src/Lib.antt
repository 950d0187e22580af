-- ===== src/Lib.antt =====
-- Matrix Identity Admin is a web application with which administrators manage the accounts of a
-- Matrix server: the identities in Keycloak, the accounts and sessions in the Matrix
-- Authentication Service (MAS), and the room membership in Synapse. Changes are recorded in an
-- audit table in SQLite. This library models the services, the handlers and the HTTP clients of the
-- program.
--
-- A service function is an action (Effects/Exec): from the world to a value, the world after it,
-- and the list of its events, one for each call of a service (src/clients) and for each write of
-- an audit entry, with its success. The world is the database, whose tables are lists of rows, and
-- an arbitrary state of the upstream services, which are records of functions: every answer, any
-- failure and any change on the other side included, is possible. `?` of the source is `try_then`.
-- The code awaits one call after the other, so a run is one sequence of events. Of two futures that
-- user_service.rs and users.rs join, either may run first; elsewhere the reads that are joined are
-- taken in the order they are written. Text is a list of code points. Tracing output is left out.
-- Arguments that many functions pass along unchanged
-- (`admin_subject`, `admin_username`; `keycloak_id`, `username`, `matrix_user_id`) are the records
-- Actor and Subject.
--
-- Models       src/error.rs, src/models: errors, results, the records and enums
-- Effects      the database, the events, actions, and the traits of src/clients
-- Calendar     the timestamp of src/services/audit_service.rs
-- AuditService src/services/audit_service.rs, `insert` of src/db/audit.rs
-- Lifecycle    src/services/lifecycle_steps.rs; Lifecycle/Kick has kick_from_all_mapped_rooms
-- Workflows    src/services/disable_user.rs, reactivate_user.rs, delete_user.rs, offboard_user.rs
-- Reconcile    src/services/reconcile_membership.rs; Reconcile/Preview has preview_membership
-- PolicyTables src/db/policy.rs, the statements on the tables of migrations
-- PolicyService src/services/policy_service.rs
-- PctEncode    src/utils.rs
-- InviteEmail  the validation of the address in src/services/invite_user.rs, over a parameter for
--              Unicode's trim and to_lowercase
-- Onboarding   the template's groups and roles in src/services/invite_user.rs; Onboarding/File has
--              src/models/onboarding_template.rs
-- Invite       invite_user of src/services/invite_user.rs
-- Directory    derive_lifecycle_state of src/services/user_service.rs, and
--              src/services/identity_mapper.rs; Directory/Users has the rest of user_service.rs and
--              src/clients/identity_provider.rs
-- AuditQueries the queries of src/db/audit.rs; what a WHERE clause selects is read off its text
-- Utf8         the bytes of Rust's strings
-- KeycloakClient src/clients/keycloak.rs, the client over HTTP
-- MasClient    src/clients/mas.rs, the client over HTTP
-- SynapseClient src/clients/synapse.rs, the methods that the program calls, over HTTP
-- Handlers     src/handlers: Session has src/auth/csrf.rs and what the handlers share, Audit has
--              audit.rs, Lifecycle has disable.rs, reactivate.rs, delete.rs, offboard.rs,
--              sessions.rs, devices.rs and reconcile.rs, Bulk has bulk_reconcile.rs, Users has
--              users.rs, and Policy, Templates, Invite and Dashboard have the file of that name
-- Tests        concrete services and worlds
--
-- Loops are over lists. Two are on fuel, one unit for each page: that of refresh_room_cache, which
-- runs until Synapse answers with no further page, and that of bulk_reconcile, for which a unit for
-- each hundred users and one more are enough.
--
-- Not modelled: the OpenID Connect login and the session cookies, the HTML templates, the
-- configuration and the start of the server, which are I/O or glue around libraries; and the
-- methods of the Synapse client that nothing calls.
pub mod Prelude
pub mod Text
pub mod Models
pub mod Effects
pub mod Calendar
pub mod AuditService
pub mod Lifecycle
pub mod Reconcile
pub mod Workflows
pub mod PolicyTables
pub mod PolicyService
pub mod PctEncode
pub mod InviteEmail
pub mod Onboarding
pub mod Invite
pub mod Directory
pub mod AuditQueries
pub mod Utf8
pub mod Handlers
pub mod KeycloakClient
pub mod MasClient
pub mod SynapseClient
pub mod Tests
