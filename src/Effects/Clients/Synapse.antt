-- ===== src/Effects/Clients/Synapse.antt =====
-- The methods of `MatrixService` as actions.
use matrix_identity_admin.Prelude.{ℕ, List, Option}
use matrix_identity_admin.Text.{Text, ℤ}
use matrix_identity_admin.Models.Rooms.{RoomList}
use matrix_identity_admin.Effects.Event.{Op}
use matrix_identity_admin.Effects.Exec.{call}
use matrix_identity_admin.Effects.Clients.Traits.{Act, MatrixService}

module _ {W : Type 0} (synapse : MatrixService W) where
  abbrev pub get_joined_room_members : Text → Act W (List Text)
  get_joined_room_members room =
      call (Op.get_joined_room_members room) (synapse.get_joined_room_members room)

  abbrev pub force_join_user : Text → Text → Act W Unit
  force_join_user user room =
      call (Op.force_join_user user room) (synapse.force_join_user user room)

  abbrev pub kick_user_from_room : Text → Text → Text → Act W Unit
  kick_user_from_room user room reason =
      call (Op.kick_user_from_room user room reason) (synapse.kick_user_from_room user room reason)

  abbrev pub get_space_children : Text → Act W (List Text)
  get_space_children space = call (Op.get_space_children space) (synapse.get_space_children space)

  abbrev pub list_rooms : ℕ → Option Text → Act W RoomList
  list_rooms limit from = call (Op.list_rooms limit from) (synapse.list_rooms limit from)

  abbrev pub set_power_level : Text → Text → ℤ → Act W Unit
  set_power_level room user level =
      call (Op.set_power_level room user level) (synapse.set_power_level room user level)
