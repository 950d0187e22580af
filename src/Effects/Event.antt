-- ===== src/Effects/Event.antt =====
-- One event for each call of an upstream service or write of an audit entry: what was called,
-- and whether it succeeded.
use matrix_identity_admin.Prelude.{ℕ, List, Option, Bool, true, false, all, ◌≡◌, refl, arith}
use matrix_identity_admin.Text.{Text, ℤ}
use matrix_identity_admin.Models.Audit.{AuditLog}

pub data Op : Type 0 where
  -- KeycloakIdentityProvider
  search_users : Text → ℕ → ℕ → Op
  count_users : Text → Op
  get_user get_user_by_email get_user_groups get_user_roles : Text → Op
  logout_user send_invite_email delete_user disable_user enable_user : Text → Op
  create_user add_user_to_group : Text → Text → Op
  list_groups list_realm_roles : Op
  assign_realm_roles : Text → List Text → Op
  -- AuthService
  get_user_by_username list_sessions deactivate_user reactivate_user : Text → Op
  finish_session : Text → Text → Op
  -- MatrixService
  get_space_children get_joined_room_members : Text → Op
  force_join_user : Text → Text → Op
  kick_user_from_room : Text → Text → Text → Op
  set_power_level : Text → Text → ℤ → Op
  list_rooms : ℕ → Option Text → Op
  -- AuditService
  insert_audit : AuditLog → Op

pub record Event : Type 0 where
  pub op : Op
  pub succeeded : Bool

abbrev pub event : Op → Bool → Event
event op good = record { op = op; succeeded = good }

abbrev pub all_ok : List Event → Bool
all_ok = all (λ e. e.succeeded)

-- What sort of change an operation makes.
pub data Kind : Type 0 where
  reading logout disabling enabling deletion deactivation reactivation session : Kind
  join kick power creation grant invitation audit : Kind

abbrev pub kind : Op → Kind
kind (Op.logout_user _) = Kind.logout
kind (Op.disable_user _) = Kind.disabling
kind (Op.enable_user _) = Kind.enabling
kind (Op.delete_user _) = Kind.deletion
kind (Op.deactivate_user _) = Kind.deactivation
kind (Op.reactivate_user _) = Kind.reactivation
kind (Op.finish_session _ _) = Kind.session
kind (Op.force_join_user _ _) = Kind.join
kind (Op.kick_user_from_room _ _ _) = Kind.kick
kind (Op.set_power_level _ _ _) = Kind.power
kind (Op.create_user _ _) = Kind.creation
kind (Op.add_user_to_group _ _) = Kind.grant
kind (Op.assign_realm_roles _ _) = Kind.grant
kind (Op.send_invite_email _) = Kind.invitation
kind (Op.insert_audit _) = Kind.audit
kind _ = Kind.reading

-- The changes that the program logs one by one.
abbrev pub is_audited : Kind → Bool
is_audited Kind.reading = false
is_audited Kind.power = false
is_audited Kind.creation = false
is_audited Kind.grant = false
is_audited Kind.audit = false
is_audited _ = true

-- What changes nothing, and the changes that are not logged by themselves.
abbrev pub is_plain : Kind → Bool
is_plain Kind.reading = true
is_plain Kind.power = true
is_plain Kind.creation = true
is_plain Kind.grant = true
is_plain _ = false

pub is_plain-not_audited : (k : Kind) → is_plain k ≡ true → is_audited k ≡ false
is_plain-not_audited Kind.reading h = refl
is_plain-not_audited k h = ground arith
