-- ===== src/Reconcile/Steady.antt =====
-- src/services/reconcile_membership.rs: what Synapse says of the members of a room, before and
-- after the steps of a reconciliation.
use mathlib.Core.List.{reverse, reverse-cons}
use matrix_identity_admin.Prelude.{
  List, [], ◌∷◌, Option, none, some, Bool, true, false, ◌||◌, all, all-append, Bool-cases, inl, inr,
  if◌then◌else◌, ◌≡◌, refl, ap, ◌∙◌, arith,
}
use matrix_identity_admin.Text.{Text, ℤ, contains, text_eq, text_eq_refl, text_eq_sound}
use matrix_identity_admin.Models.Error.{Result, ok, err, is_ok}
use matrix_identity_admin.Models.Audit.{AuditLog, Metadata}
use matrix_identity_admin.Models.Workflow.{WorkflowOutcome}
use matrix_identity_admin.Models.Policy.{PolicyBinding}
use matrix_identity_admin.Effects.Event.{Op}
use matrix_identity_admin.Effects.Exec.{Exec, call_if, ◌>>=◌}
use matrix_identity_admin.Effects.Rules.{Trace, Holds, Holds-pure, Holds-bind, Holds-if}
use matrix_identity_admin.Effects.Clients.{MatrixService}
use matrix_identity_admin.AuditService.{AuditService, Actor, log, insert}
use matrix_identity_admin.Lifecycle.{Subject, log_result}
use matrix_identity_admin.Lifecycle.Kick.{kick_member, kick_listed, kick_each}
use matrix_identity_admin.Reconcile.{
  set_level, joined, join_absent, join_listed, join_each, kick_unmatched, apply_binding,
}

-- What Synapse answers about the members of a room.
abbrev pub members_in : {W : Type 0} → MatrixService W → W → Text → Result (List Text)
members_in synapse u room = (synapse.get_joined_room_members room u).0

-- The members of a room change only by a join or a kick in that room: not by reading, by a power
-- level, by a join or a kick in another room, or by writing the audit log.
pub record Steady {W : Type 0} (synapse : MatrixService W) (audit : AuditService W) : Type 0 where
  pub listing :
      (room r : Text) (u : W)
      → members_in synapse (synapse.get_joined_room_members room u).1 r ≡ members_in synapse u r
  pub children :
      (room r : Text) (u : W)
      → members_in synapse (synapse.get_space_children room u).1 r ≡ members_in synapse u r
  pub level :
      (room user : Text) (n : ℤ) (r : Text) (u : W)
      → members_in synapse (synapse.set_power_level room user n u).1 r ≡ members_in synapse u r
  pub join :
      (user room r : Text) (u : W)
      → text_eq room r ≡ false
      → members_in synapse (synapse.force_join_user user room u).1 r ≡ members_in synapse u r
  pub kick :
      (user room reason r : Text) (u : W)
      → text_eq room r ≡ false
      → members_in synapse (synapse.kick_user_from_room user room reason u).1 r
        ≡ members_in synapse u r
  pub id : (r : Text) (u : W) → members_in synapse (audit.new_v4 u).1 r ≡ members_in synapse u r
  pub time :
      (r : Text) (u : W) → members_in synapse (audit.unix_time u).1 r ≡ members_in synapse u r
  pub write :
      (entry : AuditLog) (r : Text) (u : W)
      → members_in synapse (audit.write_error entry u).1 r ≡ members_in synapse u r

-- The rooms outside a list keep their members.
abbrev pub Elsewhere : {W : Type 0} → MatrixService W → List Text → Trace W
Elsewhere synapse rooms = record {
  Valid = λ a b es.
      (r : Text)
      → contains rooms r ≡ false
      → members_in synapse b.upstream r ≡ members_in synapse a.upstream r;
  empty = λ w r h. refl;
  append = λ a b c xs ys h k r out. k r out ∙ h r out;
}

-- A room that is not in a list is none of its rooms.
pub other_room :
    (rooms : List Text) (room r : Text)
    → contains rooms room ≡ true
    → contains rooms r ≡ false
    → text_eq room r ≡ false
other_room rooms room r h k = elim (Bool-cases (text_eq room r)) [
  | inl e ↦ absurd (ground (arith, h, k, ap (contains rooms) (text_eq_sound room r e)))
  | inr e ↦ e
]

all-reverse : (p : Text → Bool) (xs : List Text) → all p (reverse xs) ≡ all p xs
all-reverse p [] = refl
all-reverse p (x ∷ xs) =
    ap (all p) (reverse-cons x xs)
    ∙ all-append p (reverse xs) (x ∷ [])
    ∙ ground (arith, all-reverse p xs)

contains-more :
    (x : Text) (xs ys : List Text) → all (contains xs) ys ≡ true → all (contains (x ∷ xs)) ys ≡ true
unfolding contains
contains-more x xs [] h = refl
contains-more x xs (y ∷ ys) h = ground (arith, h, contains-more x xs ys)

pub contains-all : (xs : List Text) → all (contains xs) xs ≡ true
unfolding contains
contains-all [] = refl
contains-all (x ∷ xs) = ground (arith, text_eq_refl x, contains-more x xs xs (contains-all xs))

module _ {W : Type 0} (synapse : MatrixService W) (audit : AuditService W) (who : Actor)
    (steady : Steady synapse audit) (user : Subject) (rooms : List Text) where
  abbrev T : Trace W
  T = Elsewhere synapse rooms

  log_result-Elsewhere :
      (action : Text) (good : Bool) (metadata : Metadata)
      → Holds T (log_result audit who user action good metadata)
  unfolding log_result log insert ◌>>=◌
  log_result-Elsewhere action good metadata = record {
    at = λ w r out. steady.write _ r _ ∙ steady.time r _ ∙ steady.id r w.upstream;
  }

  listing-Elsewhere :
      (room : Text)
      → Holds T
          (call_if (Op.get_joined_room_members room) is_ok (synapse.get_joined_room_members room))
  listing-Elsewhere room = record { at = λ w r out. steady.listing room r w.upstream }

  set_level-Elsewhere :
      (level : Option ℤ) (o : WorkflowOutcome) (room : Text)
      → Holds T (set_level audit who synapse user level o room)
  unfolding set_level
  set_level-Elsewhere none o room = Holds-pure T o
  set_level-Elsewhere (some level) o room =
      Holds-bind T _ _
        (record { at = λ w r out. steady.level room user.matrix_user_id level r w.upstream })
        λ r. Holds-pure T _

  joined-Elsewhere :
      (b : PolicyBinding) (o : WorkflowOutcome) (room : Text) (r : Result (Unit {0}))
      → Holds T (joined audit who synapse user b o room r)
  unfolding joined
  joined-Elsewhere b o room (err e) = Holds-pure T _
  joined-Elsewhere b o room (ok _) = set_level-Elsewhere b.power_level o room

  pub join_listed-Elsewhere :
      (b : PolicyBinding) (o : WorkflowOutcome) (room : Text) (r : Result (List Text))
      → contains rooms room ≡ true
      → Holds T (join_listed audit who synapse user b o room r)
  unfolding join_listed join_absent
  join_listed-Elsewhere b o room (err e) here = Holds-pure T _
  join_listed-Elsewhere b o room (ok ms) here =
      Holds-if T (contains ms user.matrix_user_id) _ _ (Holds-pure T o) (
        Holds-bind T _ _
          (record {
            at = λ w r out.
                steady.join user.matrix_user_id room r w.upstream
                  (other_room rooms room r here out);
          })
          λ result.
            Holds-bind T _ _ (log_result-Elsewhere _ _ _)
              λ logged. joined-Elsewhere b _ room result)

  join_each-Elsewhere :
      (b : PolicyBinding) (o : WorkflowOutcome) (targets : List Text)
      → all (contains rooms) targets ≡ true
      → Holds T (join_each audit who synapse user b o targets)
  unfolding join_each
  join_each-Elsewhere b o [] h = Holds-pure T o
  join_each-Elsewhere b o (room ∷ rest) h = Holds-bind T _ _ (listing-Elsewhere room) λ members.
      Holds-bind T _ _ (join_listed-Elsewhere b o room members (ground (arith, h)))
        λ done. join_each-Elsewhere b done rest (ground (arith, h))

  kick_listed-Elsewhere :
      (action reason : Text) (b : PolicyBinding) (o : WorkflowOutcome) (room : Text)
      (r : Result (List Text))
      → contains rooms room ≡ true
      → Holds T (kick_listed audit who synapse user action reason b o room r)
  unfolding kick_listed kick_member
  kick_listed-Elsewhere action reason b o room (err e) here = Holds-pure T _
  kick_listed-Elsewhere action reason b o room (ok ms) here =
      Holds-if T (contains ms user.matrix_user_id) _ _
        (Holds-bind T _ _
          (record {
            at = λ w r out.
                steady.kick user.matrix_user_id room reason r w.upstream
                  (other_room rooms room r here out);
          })
          λ result. Holds-bind T _ _ (log_result-Elsewhere _ _ _) λ logged. Holds-pure T _)
        (Holds-pure T o)

  kick_each-Elsewhere :
      (action reason : Text) (b : PolicyBinding) (o : WorkflowOutcome) (targets : List Text)
      → all (contains rooms) targets ≡ true
      → Holds T (kick_each audit who synapse user action reason b o targets)
  unfolding kick_each
  kick_each-Elsewhere action reason b o [] h = Holds-pure T o
  kick_each-Elsewhere action reason b o (room ∷ rest) h =
      Holds-bind T _ _ (listing-Elsewhere room) λ members.
        Holds-bind T _ _ (kick_listed-Elsewhere action reason b o room members (ground (arith, h)))
          λ done. kick_each-Elsewhere action reason b done rest (ground (arith, h))

  Holds-when :
      (b : Bool) (m n : Exec W WorkflowOutcome)
      → (b ≡ true → Holds T m)
      → Holds T n
      → Holds T (if b then m else n)
  Holds-when true m n hm hn = hm refl
  Holds-when false m n hm hn = hn

  -- A binding that acts changes the members of its targets alone, and another none.
  pub apply_binding-Elsewhere :
      (matches : Bool) (b : PolicyBinding) (targets : List Text) (o : WorkflowOutcome)
      → ((matches || b.allow_remove) ≡ true → all (contains rooms) targets ≡ true)
      → Holds T (apply_binding audit who synapse user matches b (targets, o))
  unfolding apply_binding kick_unmatched
  apply_binding-Elsewhere true b targets o h = join_each-Elsewhere b o targets (h refl)
  apply_binding-Elsewhere false b targets o h =
      Holds-when b.allow_remove _ _
        (λ a.
          kick_each-Elsewhere _ _ b o (reverse targets)
            (all-reverse (contains rooms) targets ∙ h a))
        (Holds-pure T o)
