-- ===== src/Workflows/Deletion.antt =====
-- src/services/delete_user.rs: what the result says of the two accounts.
use matrix_identity_admin.Prelude.{
  List, ◌∷◌, ◌++◌, Option, none, some, Bool, true, false, not, ◌&&◌, ◌||◌, ◌≡◌, refl, ap, arith,
  any, all, is_some,
}
use matrix_identity_admin.Text.{Text, codes, text_eq, text_eq_refl}
use matrix_identity_admin.Models.Error.{Result, Done, ok, err, is_ok}
use matrix_identity_admin.Models.Workflow.{
  WorkflowOutcome, add_warning, no_warnings, clean-add_warning, has_warnings, warn_on,
}
use matrix_identity_admin.Models.Audit.{AuditLog}
use matrix_identity_admin.Models.Accounts.{KeycloakUser, MasUser}
use matrix_identity_admin.Effects.Event.{Op, Event, Kind, event, kind, all_ok}
use matrix_identity_admin.Effects.Exec.{World, Exec, pure, or_return, ◌>>=◌}
use matrix_identity_admin.Effects.Clients.{KeycloakIdentityProvider, AuthService}
use matrix_identity_admin.Effects.Clients.Mas
use matrix_identity_admin.AuditService.{AuditService, Actor, log, insert}
use matrix_identity_admin.Lifecycle.{Subject, log_result}
use matrix_identity_admin.Workflows.{
  DeleteUserResult, subject_of, found_user, leftover_account, conclude_delete, deactivate_first,
  delete_keycloak, delete_user,
}

-- The deletion of the Keycloak account of an id, and the deactivation of the MAS account of an id.
abbrev pub deletes : Text → Op → Bool
deletes id (Op.delete_user k) = text_eq k id
deletes id _ = false

abbrev pub deactivates : Text → Op → Bool
deactivates id (Op.deactivate_user m) = text_eq m id
deactivates id _ = false

abbrev pub writes_audit : Op → Bool
writes_audit (Op.insert_audit _) = true
writes_audit _ = false

-- Some operation of a sort succeeded, or failed.
abbrev pub some_ok : (Op → Bool) → List Event → Bool
some_ok sort = any (λ e. sort e.op && e.succeeded)

abbrev pub some_failed : (Op → Bool) → List Event → Bool
some_failed sort = any (λ e. sort e.op && not e.succeeded)

-- The MAS account of the user, if the lookup found one.
abbrev pub account_of : Option MasUser → Option Text
account_of none = none
account_of (some u) = some u.id

-- No account is deleted but that of the id, and none deactivated but the one that was found.
abbrev pub is_own : Text → Option Text → Op → Bool
is_own id account (Op.delete_user k) = text_eq k id
is_own id none (Op.deactivate_user m) = false
is_own id (some account) (Op.deactivate_user m) = text_eq m account
is_own id account _ = true

abbrev pub only_own : Text → Option Text → List Event → Bool
only_own id account = all (λ e. is_own id account e.op)

has_warnings-add_warning :
    (o : WorkflowOutcome) (msg : Text) → has_warnings (add_warning o msg) ≡ true
unfolding has_warnings
has_warnings-add_warning o msg = ap not (clean-add_warning o msg)

-- A MAS account that was found is deactivated.
abbrev pub settled : Option Text → List Event → Bool
settled none es = true
settled (some m) es = some_ok (deactivates m) es

-- What a result of the deletion says of the run: the MAS account and the Keycloak account.
abbrev pub Explains : Text → Option Text → Result DeleteUserResult → List Event → Type 0
Explains id account (ok (DeleteUserResult.deleted o)) es =
    (some_ok (deletes id) es ≡ true) × (settled account es ≡ true)
Explains id account (ok (DeleteUserResult.partial_failure o)) es =
    (is_some account ≡ true)
    × (settled account es ≡ true)
    × (some_failed (deletes id) es ≡ true)
    × (some_ok (deletes id) es ≡ false)
    × (has_warnings o ≡ true)
Explains id account (err e) es =
    (all_ok es ≡ false) × (not (some_ok (deletes id) es) || some_failed writes_audit es ≡ true)

pub record Explained (id : Text) (account : Option Text) (v : Result DeleteUserResult)
    (es : List Event) : Type 0 where
  own : only_own id account es ≡ true
  proof : Explains id account v es

deletes_not : (id : Text) (op : Op) → kind op ≡ Kind.reading → deletes id op ≡ false
deletes_not id (Op.delete_user k) h = cc
deletes_not id _ h = refl

deactivates_not : (id : Text) (op : Op) → kind op ≡ Kind.reading → deactivates id op ≡ false
deactivates_not id (Op.deactivate_user m) h = cc
deactivates_not id _ h = refl

is_own_read :
    (id : Text) (account : Option Text) (op : Op)
    → kind op ≡ Kind.reading
    → is_own id account op ≡ true
is_own_read id account (Op.delete_user k) h = cc
is_own_read id none (Op.deactivate_user m) h = cc
is_own_read id (some m) (Op.deactivate_user m') h = cc
is_own_read id account _ h = ground arith

settled-after :
    (account : Option Text) (op : Op) (good : Bool) (es : List Event)
    → kind op ≡ Kind.reading
    → settled account es ≡ true
    → settled account (event op good ∷ es) ≡ true
settled-after none op good es k h = refl
settled-after (some m) op good es k h = ground (arith, k, h, deactivates_not m op k)

-- A lookup, which `Explains` does not speak of, may come before the rest.
Explains-after :
    (id : Text) (account : Option Text) (v : Result DeleteUserResult) (op : Op) (good : Bool)
    (es : List Event)
    → kind op ≡ Kind.reading
    → Explains id account v es
    → Explains id account v (event op good ∷ es)
Explains-after id account (ok (DeleteUserResult.deleted o)) op good es k (d, m) =
    (ground (arith, d, deletes_not id op k), settled-after account op good es k m)
Explains-after id account (ok (DeleteUserResult.partial_failure o)) op good es k (a, m, f, n, w) = (
  a,
  settled-after account op good es k m,
  ground (arith, f, deletes_not id op k),
  ground (arith, n, deletes_not id op k),
  w,
)
Explains-after id account (err e) op good es k (f, n) =
    (ground (arith, f), ground (arith, n, deletes_not id op k))

Explained-after :
    (id : Text) (account : Option Text) (v : Result DeleteUserResult) (op : Op) (good : Bool)
    (es : List Event)
    → kind op ≡ Kind.reading
    → Explained id account v es
    → Explained id account v (event op good ∷ es)
Explained-after id account v op good es k h = record {
  own = ground (arith, is_own_read id account op k, h.own);
  proof = Explains-after id account v op good es k h.proof;
}

module _ {W : Type 0} (kc : KeycloakIdentityProvider W) (mas : AuthService W)
    (audit : AuditService W) (who : Actor) (domain : Text) where
  -- The run of the last two steps, from the lookup's answer on.
  abbrev finish : Subject → WorkflowOutcome → Option MasUser → Exec W (Result DeleteUserResult)
  finish user o found =
      deactivate_first kc mas audit who domain user found
      >>= or_return (λ _. delete_keycloak kc mas audit who domain user o found)

  -- From the answers of the deactivation and of its log.
  continue-Explains :
      (user : Subject) (o : WorkflowOutcome) (u : MasUser) (entry : AuditLog) (r l : Done)
      (v w : World W)
      → let k = λ (_ : Unit {0}). delete_keycloak kc mas audit who domain user o (some u) in
        let s = or_return (λ _. pure r) l v in
        Explained user.keycloak_id (some u.id) (or_return k s.value w).value (
          event (Op.deactivate_user u.id) (is_ok r)
          ∷ event (Op.insert_audit entry) (is_ok l)
          ∷ (s.events ++ (or_return k s.value w).events))
  unfolding delete_keycloak conclude_delete log_result log insert ◌>>=◌ or_return
  continue-Explains user o u entry (ok _) (ok _) v w = record {
    own = ground (arith, text_eq_refl user.keycloak_id, text_eq_refl u.id);
    proof = ground (
      arith,
      text_eq_refl user.keycloak_id,
      text_eq_refl u.id,
      has_warnings-add_warning o (
          codes
            "MAS was deactivated, but deleting the Keycloak user failed. Retry delete or reactivate the user before reinviting them."),
    );
  }
  continue-Explains user o u entry (err e) (ok _) v w = record {
    own = ground (arith, text_eq_refl u.id);
    proof = ground arith;
  }
  continue-Explains user o u entry r (err e) v w = record {
    own = ground (arith, text_eq_refl u.id);
    proof = ground arith;
  }

  finish-Explains :
      (user : Subject) (o : WorkflowOutcome) (found : Option MasUser) (w : World W)
      → Explained user.keycloak_id
          (account_of found)
          (finish user o found w).value
          (finish user o found w).events
  unfolding deactivate_first delete_keycloak conclude_delete log_result log insert ◌>>=◌ or_return
  finish-Explains user o none w = record {
    own = ground (arith, text_eq_refl user.keycloak_id);
    proof = ground (arith, text_eq_refl user.keycloak_id);
  }
  finish-Explains user o (some u) w = continue-Explains user o u _ _ _ _ _

-- The MAS account that the lookup finds, after the answer of Keycloak.
abbrev pub account_in : {W : Type 0} → AuthService W → Result KeycloakUser × W → Option Text
account_in mas (ok u, v) = account_of (found_user (mas.get_user_by_username u.username v).0)
account_in mas (err e, v) = none

module _ {W : Type 0} (kc : KeycloakIdentityProvider W) (mas : AuthService W)
    (audit : AuditService W) (who : Actor) (domain keycloak_id : Text) (w : World W) where
  -- The run of `delete_user` after the answer of Keycloak.
  abbrev found_in : KeycloakUser → Exec W (Result DeleteUserResult)
  found_in u =
      let user = subject_of domain keycloak_id u in
      do
        found ← Mas.get_user_by_username mas user.username
        finish kc mas audit who domain user (warn_on found leftover_account no_warnings)
            (found_user found)

  found_in-Explains :
      (u : KeycloakUser) (v : World W)
      → Explained keycloak_id
          (account_in mas (ok u, v.upstream))
          (found_in u v).value
          (found_in u v).events
  unfolding ◌>>=◌
  found_in-Explains u v =
      let found = mas.get_user_by_username u.username v.upstream in
      Explained-after _ _ _ _ _ _ refl
        (finish-Explains kc mas audit who domain _ _ (found_user found.0) _)

  answered-Explains :
      (user : Result KeycloakUser) (v : World W)
      → let r = or_return found_in user v in
        Explained keycloak_id
          (account_in mas (user, v.upstream))
          r.value
          (event (Op.get_user keycloak_id) (is_ok user) ∷ r.events)
  unfolding or_return
  answered-Explains (ok u) v = Explained-after _ _ _ _ _ _ refl (found_in-Explains u v)
  answered-Explains (err e) v = record { own = refl; proof = (refl, refl) }

  -- A run of `delete_user` deletes no Keycloak account but the one of the given id, and deactivates
  -- no MAS account but the one that the lookup of the user's name found. If it answers `Deleted`,
  -- then Keycloak deleted the account of the id, and the MAS account, if one was found, was
  -- deactivated. If it answers `PartialFailure`, then a MAS account was found and deactivated, the
  -- deletion at Keycloak failed and none succeeded, and the outcome has a warning. If it fails, then
  -- some operation failed, and if Keycloak deleted the account, what failed includes the write of
  -- an audit entry.
  pub delete_user-Explained :
      let r = delete_user kc mas audit who domain keycloak_id w in
      Explained keycloak_id (account_in mas (kc.get_user keycloak_id w.upstream)) r.value r.events
  unfolding delete_user ◌>>=◌ or_return
  delete_user-Explained = let a = kc.get_user keycloak_id w.upstream in answered-Explains a.0 _
