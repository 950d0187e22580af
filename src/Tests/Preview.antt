-- ===== src/Tests/Preview.antt =====
-- The preview of a user who is not in a space and its child.
use matrix_identity_admin.Prelude.{List, none, [], ◌∷◌, true, if◌then◌else◌, ◌≡◌, all}
use matrix_identity_admin.Text.{Text, contains}
use matrix_identity_admin.Models.Error.{ok}
use matrix_identity_admin.Effects.Exec.{World}
use matrix_identity_admin.Effects.Clients.{MatrixService}
use matrix_identity_admin.AuditService.{AuditService}
use matrix_identity_admin.Lifecycle.{Subject}
use matrix_identity_admin.Reconcile.Steady.{Steady}
use matrix_identity_admin.Reconcile.Preview.{preview_membership}
use matrix_identity_admin.Reconcile.ReadOnly.{is_reading, preview_membership-ReadOnly}
use matrix_identity_admin.Tests.Services.{synapse, bindings, world, alice_id, empty_database}

abbrev newcomer : Subject
newcomer = record { keycloak_id = alice_id; username = []; matrix_user_id = 70 ∷ [] }

-- A Synapse whose state is the rooms that the newcomer has joined, and an audit log beside it.
abbrev recording : MatrixService (List Text)
recording = record {
  get_joined_room_members =
      λ room u. (ok (if contains u room then (70 ∷ []) ∷ alice_id ∷ [] else alice_id ∷ []), u);
  force_join_user = λ user room u. (ok tt, room ∷ u);
  kick_user_from_room = λ user room reason u. (ok tt, u);
  get_space_children = λ space u. (ok ((30 ∷ []) ∷ []), u);
  list_rooms = λ n from u. (ok (record { rooms = []; next_batch = none; total_rooms = none }), u);
  set_power_level = λ room user level u. (ok tt, u);
}

abbrev log_beside : AuditService (List Text)
log_beside = record {
  new_v4 = λ u. ([], u);
  unix_time = λ u. (none, u);
  metadata_text = λ m. [];
  write_error = λ entry u. (none, u);
  unique_violation = [];
}

abbrev nowhere : World (List Text)
nowhere = record { upstream = []; db = empty_database }

preview_membership-ReadOnly_example :
    let r = preview_membership synapse (70 ∷ []) bindings ((11 ∷ []) ∷ []) [] world in
    (r.world.db ≡ world.db) × (all is_reading r.events ≡ true)
preview_membership-ReadOnly_example =
    preview_membership-ReadOnly synapse (70 ∷ []) bindings ((11 ∷ []) ∷ []) [] world
