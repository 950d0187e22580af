-- ===== src/Reconcile/ReadOnly.antt =====
-- src/services/reconcile_membership.rs: the operations that a preview calls.
use matrix_identity_admin.Prelude.{
  List, [], ◌∷◌, Bool, true, false, ◌≡◌, refl, ◌∙◌, arith, all, all-append, ◌&&◌,
}
use matrix_identity_admin.Text.{Text}
use matrix_identity_admin.Models.Policy.{PolicyBinding}
use matrix_identity_admin.Effects.Event.{Event, Kind, kind}
use matrix_identity_admin.Effects.Exec.{World}
use matrix_identity_admin.Effects.Rules.{Trace, Holds, Holds-pure, Holds-bind}
use matrix_identity_admin.Effects.Clients.{MatrixService}
use matrix_identity_admin.Reconcile.{expand_targets}
use matrix_identity_admin.Reconcile.Preview.{
  ReconcilePreview, empty_preview, preview_listed, preview_rooms, preview_expanded, preview_each,
  preview_membership,
}

abbrev pub is_reading : Event → Bool
is_reading e = elim (kind e.op) [ Kind.reading ↦ true | _ ↦ false ]

both : (x y xy : Bool) → xy ≡ (x && y) → x ≡ true → y ≡ true → xy ≡ true
both x y xy e h k = ground arith

abbrev ReadTrace : (W : Type 0) → Trace W
ReadTrace W = record {
  Valid = λ a b es. (b.db ≡ a.db) × (all is_reading es ≡ true);
  empty = λ w. (refl, refl);
  append = λ a b c xs ys h k. (
    k.0 ∙ h.0,
    both (all is_reading xs) (all is_reading ys) _ (all-append is_reading xs ys) h.1 k.1,
  );
}

module _ {W : Type 0} (synapse : MatrixService W) (user : Text) where
  rooms-Holds :
      (binding : PolicyBinding) (matches : Bool) (p : ReconcilePreview) (targets : List Text)
      → Holds (ReadTrace W) (preview_rooms synapse user binding matches p targets)
  unfolding preview_rooms
  rooms-Holds binding matches p [] = Holds-pure (ReadTrace W) p
  rooms-Holds binding matches p (room ∷ rest) =
      Holds-bind (ReadTrace W) _ _ (record { at = λ w. (refl, refl) })
        λ r. rooms-Holds binding matches (preview_listed user binding matches room p r) rest

  each-Holds :
      (groups roles : List Text) (p : ReconcilePreview) (bindings : List PolicyBinding)
      → Holds (ReadTrace W) (preview_each synapse user groups roles p bindings)
  unfolding preview_each expand_targets preview_expanded
  each-Holds groups roles p [] = Holds-pure (ReadTrace W) p
  each-Holds groups roles p (b ∷ bs) =
      let T = ReadTrace W in
      Holds-bind T _ _ (Holds-bind T _ _ (record { at = λ w. (refl, refl) }) λ r. Holds-pure T _)
        λ x. Holds-bind T _ _ (rooms-Holds b _ _ x.0) λ done. each-Holds groups roles done bs

  -- A run of `preview_membership` leaves the database as it is, and calls nothing but reads: no
  -- join, no kick, no power level, and no audit entry.
  pub preview_membership-ReadOnly :
      (bindings : List PolicyBinding) (groups roles : List Text) (w : World W)
      → let r = preview_membership synapse user bindings groups roles w in
        (r.world.db ≡ w.db) × (all is_reading r.events ≡ true)
  unfolding preview_membership
  preview_membership-ReadOnly bindings groups roles w =
      (Holds-bind (ReadTrace W) _ _ (each-Holds groups roles empty_preview bindings)
          λ p. Holds-pure (ReadTrace W) _).at
        w
