-- ===== src/Workflows/Audited.antt =====
-- src/services/audit_service.rs under the workflows: the changes of a run and their audit entries.
use matrix_identity_admin.Prelude.{
  List, [], ◌∷◌, ◌++◌, arith, Option, some, Bool, true, false, ◌≡◌, refl,
}
use matrix_identity_admin.Text.{Text}
use matrix_identity_admin.Models.Error.{Result, Done, is_ok}
use matrix_identity_admin.Models.Audit.{Metadata, audit_text, audit_result_of}
use matrix_identity_admin.Models.Policy.{PolicyBinding}
use matrix_identity_admin.Effects.Event.{
  Op, Event, event, Kind, kind, is_audited, is_plain, is_plain-not_audited,
}
use matrix_identity_admin.Effects.Exec.{World, Exec, call, call_if, ◌>>=◌}
use matrix_identity_admin.Effects.Rules.{Trace, Holds}
use matrix_identity_admin.Effects.Clients.{KeycloakIdentityProvider, AuthService, MatrixService}
use matrix_identity_admin.AuditService.{AuditService, Actor, log, insert}
use matrix_identity_admin.Lifecycle.{Subject, log_result}
use matrix_identity_admin.Lifecycle.Observes.{Observes}
use matrix_identity_admin.Workflows.{
  subject_of, disable_user, reactivate_user, delete_user, offboard_user,
}
use matrix_identity_admin.Workflows.Steps.{
  everything, disable_user-Holds, reactivate_user-Holds, delete_user-Holds, offboard_user-Holds,
}
use matrix_identity_admin.Reconcile.{reconcile_membership}
use matrix_identity_admin.Reconcile.Steps.{reconcile_membership-Holds}

-- What is asked when a test holds.
abbrev pub When : Bool → Type 0 → Type 0
When true P = P
When false P = Unit

When-map : {P Q : Type 0} (b : Bool) → (P → Q) → When b P → When b Q
When-map true f h = f h
When-map false f h = h

When-false : (P : Type 0) (b : Bool) → b ≡ false → When b P
When-false P true h = absurd (ground (arith, h))
When-false P false h = tt

When-intro : (P : Type 0) (b : Bool) → P → When b P
When-intro P true p = p
When-intro P false p = tt

module _ (who : Actor) (keycloak_id : Text) where
  abbrev pub Records : Bool → Op → Type 0
  Records good (Op.insert_audit entry) =
      (entry.result ≡ audit_text (audit_result_of good))
      × (entry.admin_subject ≡ who.subject)
      × (entry.admin_username ≡ who.username)
      × (entry.target_keycloak_user_id ≡ some keycloak_id)
  Records good _ = ⊥

  -- The next event records this one.
  abbrev pub Recorded : Event → List Event → Type 0
  Recorded e [] = ⊥
  Recorded e (a ∷ rest) = Records e.succeeded a.op

  abbrev pub Audited : List Event → Type 0
  Audited [] = Unit
  Audited (e ∷ es) = When (is_audited (kind e.op)) (Recorded e es) × Audited es

  Recorded-append : (e : Event) (xs ys : List Event) → Recorded e xs → Recorded e (xs ++ ys)
  Recorded-append e [] ys h = absurd h
  Recorded-append e (x ∷ xs) ys h = h

  pub Audited-append : (xs ys : List Event) → Audited xs → Audited ys → Audited (xs ++ ys)
  Audited-append [] ys h k = k
  Audited-append (x ∷ xs) ys h k =
      (When-map _ (Recorded-append x xs ys) h.0, Audited-append xs ys h.1 k)

  abbrev AuditedTrace : (W : Type 0) → Trace W
  AuditedTrace W = record {
    Valid = λ a b es. Audited es;
    empty = λ w. tt;
    append = λ a b c xs ys. Audited-append xs ys;
  }

module _ {W : Type 0} (audit : AuditService W) (who : Actor) where
  Audited-plain :
      (keycloak_id : Text) (A : Type 0) (op : Op) (good : A → Bool) (f : W → A × W)
      → is_plain (kind op) ≡ true
      → Holds (AuditedTrace who keycloak_id W) (call_if op good f)
  Audited-plain keycloak_id A op good f h = record {
    at = λ w. (When-false _ _ (is_plain-not_audited (kind op) h), tt);
  }

  Audited-logged :
      (user : Subject) (A B : Type 0) (op : Op) (f : W → Result A × W) (action : Text)
      (metadata : Metadata) (k : Result A → Done → Exec W B)
      → ((r : Result A) (l : Done) → Holds (AuditedTrace who user.keycloak_id W) (k r l))
      → Holds
          (AuditedTrace who user.keycloak_id W)
          (call op f >>= λ r. log_result audit who user action (is_ok r) metadata >>= k r)
  unfolding ◌>>=◌ log_result log insert
  Audited-logged user A B op f action metadata k hk = record {
    at = λ w. (
      When-intro
          (Recorded who user.keycloak_id (event op (is_ok (f w.upstream).0))
            ((log_result audit who user action (is_ok (call op f w).value) metadata
                >>= k (call op f w).value)
              (call op f w).world).events)
          (is_audited (kind op)) (refl, refl, refl, refl),
      (tt, (hk _ _).at _),
    );
  }

  pub Audited-Observes :
      (user : Subject) (allowed : Kind → Bool)
      → Observes (AuditedTrace who user.keycloak_id W) audit who user allowed
  Audited-Observes user allowed = record {
    plain = λ A op good f h _. Audited-plain user.keycloak_id A op good f h;
    logged = λ A B op f action metadata k _ _ hk. Audited-logged user A B op f action metadata k hk;
  }

module _ {W : Type 0} (kc : KeycloakIdentityProvider W) (mas : AuthService W)
    (audit : AuditService W) (who : Actor) (domain : Text) (keycloak_id : Text) (w : World W) where
  -- In a run of `disable_user`, from any world and whatever the services answer, each finished
  -- session and the disabling are followed at once by an audit entry with the same success, the
  -- acting admin and the user's Keycloak id.
  disable_user-Audited :
      Audited who keycloak_id (disable_user kc mas audit who domain keycloak_id w).events
  disable_user-Audited =
      (disable_user-Holds (AuditedTrace who keycloak_id W) kc mas audit who domain keycloak_id
          (λ u. Audited-Observes audit who (subject_of domain keycloak_id u) everything)
          (Audited-plain audit who keycloak_id _ (Op.get_user keycloak_id) is_ok _ refl)).at
        w

  -- In a run of `reactivate_user`, from any world and whatever the services answer, the enabling
  -- and the reactivation are followed at once by an audit entry with the same success, the acting
  -- admin and the user's Keycloak id.
  reactivate_user-Audited :
      Audited who keycloak_id (reactivate_user kc mas audit who domain keycloak_id w).events
  reactivate_user-Audited =
      (reactivate_user-Holds (AuditedTrace who keycloak_id W) kc mas audit who domain keycloak_id
          (λ u. Audited-Observes audit who (subject_of domain keycloak_id u) everything)
          (Audited-plain audit who keycloak_id _ (Op.get_user keycloak_id) is_ok _ refl)).at
        w

  -- In a run of `delete_user`, from any world and whatever the services answer, the MAS
  -- deactivation and the Keycloak deletion are followed at once by an audit entry with the same
  -- success, the acting admin and the user's Keycloak id.
  delete_user-Audited :
      Audited who keycloak_id (delete_user kc mas audit who domain keycloak_id w).events
  delete_user-Audited =
      (delete_user-Holds (AuditedTrace who keycloak_id W) kc mas audit who domain keycloak_id
          (λ u. Audited-Observes audit who (subject_of domain keycloak_id u) everything)
          (Audited-plain audit who keycloak_id _ (Op.get_user keycloak_id) is_ok _ refl)).at
        w

  -- In a run of `disable_user`, `reactivate_user` or `delete_user`, from any world and whatever the
  -- services answer, each session that is finished and each disabling, enabling, deactivation,
  -- reactivation and deletion of an account is followed at once by an audit entry with the same
  -- success, the acting admin and the user's Keycloak id.
  pub workflows-Audited :
      Audited who keycloak_id (disable_user kc mas audit who domain keycloak_id w).events
      × Audited who keycloak_id (reactivate_user kc mas audit who domain keycloak_id w).events
      × Audited who keycloak_id (delete_user kc mas audit who domain keycloak_id w).events
  workflows-Audited = (disable_user-Audited, reactivate_user-Audited, delete_user-Audited)

  -- In a run of `offboard_user`, from any world, with or without Synapse and whatever the services
  -- answer, each finished session, the logout, the disabling, each kick and the deactivation are
  -- followed at once by an audit entry with the same success, the acting admin and the user's
  -- Keycloak id.
  pub offboard_user-Audited :
      (synapse : Option (MatrixService W)) (bindings : List PolicyBinding)
      → Audited who keycloak_id
          (offboard_user kc mas audit who domain synapse bindings keycloak_id w).events
  offboard_user-Audited synapse bindings =
      (offboard_user-Holds (AuditedTrace who keycloak_id W) kc mas audit who domain keycloak_id
          (λ u. Audited-Observes audit who (subject_of domain keycloak_id u) everything)
          (Audited-plain audit who keycloak_id _ (Op.get_user keycloak_id) is_ok _ refl) synapse
          bindings).at
        w

-- In a run of `reconcile_membership`, from any world and whatever Synapse answers, each join and
-- each kick is followed at once by an audit entry with the same success, the acting admin and the
-- user's Keycloak id.
pub reconcile_membership-Audited :
    {W : Type 0} (audit : AuditService W) (who : Actor) (synapse : MatrixService W) (user : Subject)
    (bindings : List PolicyBinding) (groups roles : List Text) (w : World W)
    → Audited who user.keycloak_id
        (reconcile_membership audit who synapse user bindings groups roles w).events
reconcile_membership-Audited {W} audit who synapse user bindings groups roles w =
    (reconcile_membership-Holds (AuditedTrace who user.keycloak_id W) audit who user everything
        (Audited-Observes audit who user everything) refl refl refl refl synapse bindings groups
        roles).at
      w
