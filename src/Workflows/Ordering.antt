-- ===== src/Workflows/Ordering.antt =====
-- src/services/offboard_user.rs: the order of the steps of an offboarding.
use mathlib.Core.Bool.{or-true}
use matrix_identity_admin.Prelude.{
  ◌&&◌, List, [], ◌∷◌, ◌++◌, Option, Bool, true, false, not, ◌||◌, ◌≡◌, refl, arith,
}
use matrix_identity_admin.Text.{Text, codes, text_eq, text_eq_refl}
use matrix_identity_admin.Models.Error.{Result, Done, ok, err, is_ok}
use matrix_identity_admin.Models.Workflow.{WorkflowOutcome}
use matrix_identity_admin.Models.Policy.{PolicyBinding}
use matrix_identity_admin.Effects.Event.{Op, Event, Kind, kind}
use matrix_identity_admin.Effects.Exec.{World, Exec, call_if, pure, or_return, ◌>>=◌}
use matrix_identity_admin.Effects.Rules.{Trace}
use matrix_identity_admin.Effects.Clients.{KeycloakIdentityProvider, AuthService, MatrixService}
use matrix_identity_admin.AuditService.{AuditService, Actor, log, insert}
use matrix_identity_admin.Lifecycle.{
  Subject, log_result, disable_identity_account, revoke_auth_sessions, force_identity_logout,
}
use matrix_identity_admin.Lifecycle.Observes.{Observes}
use matrix_identity_admin.Lifecycle.Steps.{revoke_auth_sessions-Holds, force_identity_logout-Holds}
use matrix_identity_admin.Workflows.{subject_of, offboard_user}

-- What must wait for the disabling.
abbrev pub is_held : Kind → Bool
is_held Kind.kick = true
is_held Kind.deactivation = true
is_held _ = false

abbrev pub disables : Text → Op → Bool → Bool
disables id (Op.disable_user i) good = text_eq i id && good
disables id _ _ = false

-- Every held operation comes after a successful disabling of `id`; `done` tells of one before the list.
abbrev pub Guarded : Text → Bool → List Event → Type 0
Guarded id done [] = Unit
Guarded id done (e ∷ es) =
    ((not (is_held (kind e.op)) || done) ≡ true)
    × Guarded id (done || disables id e.op e.succeeded) es

Guarded-after : (id : Text) (es : List Event) → Guarded id true es
Guarded-after id [] = tt
Guarded-after id (e ∷ es) = (or-true _, Guarded-after id es)

-- Nothing held happens.
abbrev Harmless : List Event → Type 0
Harmless [] = Unit
Harmless (e ∷ es) = (is_held (kind e.op) ≡ false) × Harmless es

Harmless-append : (xs ys : List Event) → Harmless xs → Harmless ys → Harmless (xs ++ ys)
Harmless-append [] ys h k = k
Harmless-append (x ∷ xs) ys h k = (h.0, Harmless-append xs ys h.1 k)

-- A harmless beginning does no harm, whatever it disables.
Guarded-prefix :
    (id : Text) (done : Bool) (xs ys : List Event)
    → Harmless xs
    → ((d : Bool) → Guarded id d ys)
    → Guarded id done (xs ++ ys)
Guarded-prefix id done [] ys h k = k done
Guarded-prefix id done (x ∷ xs) ys h k =
    (ground (arith, h.0), Guarded-prefix id (done || disables id x.op x.succeeded) xs ys h.1 k)

abbrev HarmlessTrace : (W : Type 0) → Trace W
HarmlessTrace W = record {
  Valid = λ a b es. Harmless es;
  empty = λ w. tt;
  append = λ a b c xs ys. Harmless-append xs ys;
}

abbrev is_allowed : Kind → Bool
is_allowed Kind.kick = false
is_allowed Kind.deactivation = false
is_allowed _ = true

is_allowed-not_held : (k : Kind) → is_allowed k ≡ true → is_held k ≡ false
is_allowed-not_held Kind.kick h = cc
is_allowed-not_held k h = ground arith

module _ {W : Type 0} (audit : AuditService W) (who : Actor) where
  Harmless-Observes : (user : Subject) → Observes (HarmlessTrace W) audit who user is_allowed
  unfolding log_result log insert ◌>>=◌
  Harmless-Observes user = record {
    plain = λ A op good f _ h. record { at = λ w. (is_allowed-not_held (kind op) h, tt) };
    logged = λ A B op f action metadata k _ h hk. record {
      at = λ w. (is_allowed-not_held (kind op) h, (refl, (hk _ _).at _));
    };
  }

  -- What follows the disabling and its log is reached only if both succeeded.
  Guarded-continue :
      {B : Type 0} (id : Text) (k : Unit {0} → Exec W (Result B)) (done : Bool) (r l : Done)
      (v w : World W)
      → (is_ok r ≡ true → done ≡ true)
      → Guarded id done (
          (or_return (λ _. pure r) l v).events
          ++ (or_return k (or_return (λ _. pure r) l v).value w).events)
  unfolding or_return
  Guarded-continue id k done r (err e) v w h = tt
  Guarded-continue id k done (err e) (ok _) v w h = tt
  Guarded-continue id k done (ok a) (ok _) v w h = rw (h refl) (Guarded-after id _)

  pub Guarded-disable :
      {B : Type 0} (kc : KeycloakIdentityProvider W) (context : Text) (user : Subject)
      (k : Unit {0} → Exec W (Result B)) (done : Bool) (w : World W)
      → Guarded user.keycloak_id done
          ((disable_identity_account audit who kc context user >>= or_return k) w).events
  unfolding disable_identity_account log_result log insert ◌>>=◌
  Guarded-disable kc context user k done w = (
    refl,
    (
      refl,
      Guarded-continue user.keycloak_id k _ _ _ _ _
          (λ h. ground (arith, text_eq_refl user.keycloak_id)),
    ),
  )

module _ {W : Type 0} (kc : KeycloakIdentityProvider W) (mas : AuthService W)
    (audit : AuditService W) (who : Actor) (domain : Text) where
  Harmless-before :
      (user : Subject) {B : Type 0} (k : WorkflowOutcome → WorkflowOutcome → Exec W (Result B))
      (done : Bool) (w : World W)
      → ((a b : WorkflowOutcome) (d : Bool) (v : World W)
          → Guarded user.keycloak_id d (k a b v).events)
      → Guarded user.keycloak_id done
          ((revoke_auth_sessions audit who mas (codes "offboard") user >>= λ a.
              force_identity_logout audit who kc (codes "offboard") user >>= k a)
            w).events
  unfolding ◌>>=◌
  Harmless-before user k done w hk =
      let T = HarmlessTrace W in
      let o = Harmless-Observes audit who user in
      Guarded-prefix user.keycloak_id done _ _
        ((revoke_auth_sessions-Holds T audit who user is_allowed o refl mas refl _).at w)
        λ d.
          Guarded-prefix user.keycloak_id d _ _
            ((force_identity_logout-Holds T audit who user is_allowed o refl kc _ refl).at _)
            λ d'. hk _ _ d' _

  Guarded-or_return :
      {A B : Type 0} (id : Text) (k : A → Exec W (Result B)) (r : Result A) (done : Bool)
      (w : World W)
      → ((a : A) → Guarded id done (k a w).events)
      → Guarded id done (or_return k r w).events
  unfolding or_return
  Guarded-or_return id k (ok a) done w h = h a
  Guarded-or_return id k (err e) done w h = tt

  Guarded-call :
      {A B : Type 0} (id : Text) (op : Op) (good : A → Bool) (f : W → A × W) (k : A → Exec W B)
      (done : Bool) (w : World W)
      → is_held (kind op) ≡ false
      → ((a : A) (d : Bool) (v : World W) → Guarded id d (k a v).events)
      → Guarded id done ((call_if op good f >>= k) w).events
  unfolding ◌>>=◌
  Guarded-call id op good f k done w h hk = (ground (arith), hk _ _ _)

  -- In a run of `offboard_user`, from any world and whatever the services answer, each kick and
  -- each deactivation comes after a call that disabled the user's Keycloak account with success.
  pub offboard_user-Guarded :
      (synapse : Option (MatrixService W)) (bindings : List PolicyBinding) (keycloak_id : Text)
      (w : World W)
      → Guarded keycloak_id false
          (offboard_user kc mas audit who domain synapse bindings keycloak_id w).events
  unfolding offboard_user
  offboard_user-Guarded synapse bindings keycloak_id w =
      Guarded-call keycloak_id (Op.get_user keycloak_id) is_ok (kc.get_user keycloak_id) _ false w
        refl
        λ r d v. Guarded-or_return keycloak_id _ r d v λ u.
          Harmless-before (subject_of domain keycloak_id u) _ d v
            λ a b e x. Guarded-disable audit who kc _ (subject_of domain keycloak_id u) _ e x
