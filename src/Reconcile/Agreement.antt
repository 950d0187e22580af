-- ===== src/Reconcile/Agreement.antt =====
-- src/services/reconcile_membership.rs: the joins of a preview beside those of a reconciliation.
use matrix_identity_admin.Prelude.{List, [], ◌∷◌, ◌≡◌}
use matrix_identity_admin.Text.{Text}
use matrix_identity_admin.Models.Error.{Result, ok, err}
use matrix_identity_admin.Models.Policy as Policy
use matrix_identity_admin.Effects.Exec.{World}
use matrix_identity_admin.Effects.Clients.{MatrixService}
use matrix_identity_admin.AuditService.{AuditService}
use matrix_identity_admin.Reconcile.Preview.{RoomAction, ReconcilePreview}
use matrix_identity_admin.Reconcile.Steady.{Steady, members_in}

abbrev pub rooms_of : List RoomAction → List Text
rooms_of [] = []
rooms_of (a ∷ rest) = a.room_id ∷ rooms_of rest

-- The joins of one preview, and none of an error.
abbrev pub previewed_joins : Result ReconcilePreview → List Text
previewed_joins (ok p) = rooms_of p.joins
previewed_joins (err e) = []

module _ {W : Type 0} (synapse : MatrixService W) (audit : AuditService W)
    (steady : Steady synapse audit) (children : Text → Result (List Text))
    (same_children : (room : Text) (u : W)
      → (synapse.get_space_children room u).0 ≡ children room) where
  module _ (members : Text → Result (List Text)) where
    -- Synapse says of each room what it said.
    abbrev Agrees : World W → Type 0
    Agrees w = (r : Text) → members_in synapse w.upstream r ≡ members r
