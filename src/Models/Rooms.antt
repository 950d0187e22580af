-- ===== src/Models/Rooms.antt =====
-- src/models/synapse.rs: the rooms that Synapse lists.
use matrix_identity_admin.Prelude.{List, Option}
use matrix_identity_admin.Text.{Text, ℤ}

pub record RoomListEntry : Type 0 where
  pub room_id : Text
  pub name : Option Text
  pub canonical_alias : Option Text
  pub joined_members : Option ℤ

pub record RoomList : Type 0 where
  pub rooms : List RoomListEntry
  pub next_batch : Option Text
  pub total_rooms : Option ℤ
