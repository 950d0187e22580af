-- ===== src/Handlers/Users/Counts.antt =====
-- src/handlers/users.rs: the session counts of the page of a user.
use matrix_identity_admin.Prelude.{
  suc, ◌+◌, ◌≤◌, List, [], ◌∷◌, map, Option, Bool, Option-cases, inl, inr, length, length-map, ◌≡◌,
  refl, ap, arith,
}
use matrix_identity_admin.Text.{Text, codes, text_eq}
use matrix_identity_admin.Models.Accounts.{CanonicalUser, MasUser, MasSession}
use matrix_identity_admin.Models.Audit.{AuditLog}
use matrix_identity_admin.Lifecycle.{active_sessions}
use matrix_identity_admin.Directory.Users.{unified_session, detail_of}
use matrix_identity_admin.Handlers.Users.{count_active, detail_page}

count_active-unified :
    (sessions : List MasSession)
    → count_active (map unified_session sessions) ≡ length (active_sessions sessions)
unfolding count_active unified_session active_sessions codes text_eq
count_active-unified [] = refl
count_active-unified (s ∷ rest) = elim (Option-cases s.finished_at) [
  | inl open_yet ↦ rw open_yet (ap suc (count_active-unified rest))
  | inr (time, finished) ↦ rw finished (count_active-unified rest)
]

active_at_most : (sessions : List MasSession) → length (active_sessions sessions) ≤ length sessions
unfolding active_sessions
active_at_most [] = omega arith
active_at_most (s ∷ rest) = ground (arith, active_at_most rest)

-- On the page of a user, the active sessions that are counted are as many as those that the
-- lifecycle workflows would revoke, and the active and the finished sessions together are all
-- sessions that MAS listed.
pub detail_page-active_sessions :
    (synapse_enabled : Bool) (domain : Text) (u : CanonicalUser) (mas_user : Option MasUser)
    (sessions : List MasSession) (logs : List AuditLog)
    → let p = detail_page synapse_enabled (detail_of domain u mas_user sessions) logs in
      (p.active_session_count ≡ length (active_sessions sessions))
      × (p.active_session_count + p.finished_session_count ≡ length sessions)
unfolding detail_page detail_of
detail_page-active_sessions synapse_enabled domain u mas_user sessions logs = (
  count_active-unified sessions,
  omega (
    arith,
    count_active-unified sessions,
    active_at_most sessions,
    length-map unified_session sessions,
  ),
)
