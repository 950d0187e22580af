-- ===== src/Tests/Lifecycle.antt =====
-- The workflows and the reconciliation of a user with an open session that cannot be revoked.
use matrix_identity_admin.Prelude.{some, [], ◌∷◌, ◌≡◌, refl, false}
use matrix_identity_admin.Effects.Event.{all_ok}
use matrix_identity_admin.Models.Workflow.{spotless}
use matrix_identity_admin.Workflows.{
  found_user, disable_user, reactivate_user, delete_user, offboard_user,
}
use matrix_identity_admin.Workflows.Audited.{
  Audited, workflows-Audited, offboard_user-Audited, reconcile_membership-Audited,
}
use matrix_identity_admin.Workflows.AuditTable.{
  logged, entries, workflows-append_only, reconcile_membership-append_only,
}
use matrix_identity_admin.Workflows.Reports.{
  deleted_cleanly, workflows-Reports, offboard_user-Reports,
}
use matrix_identity_admin.Workflows.Ordering.{Guarded, offboard_user-Guarded}
use matrix_identity_admin.Workflows.Deletion.{Explained, delete_user-Explained}
use matrix_identity_admin.Reconcile.{reconcile_membership}
use matrix_identity_admin.Reconcile.Reports.{reconcile_membership-Reports}
use matrix_identity_admin.Tests.Services.{
  keycloak, mas, synapse, audit, admin, domain, user, bindings, world, alice_id,
}

workflows-Audited_example :
    Audited admin alice_id (disable_user keycloak mas audit admin domain alice_id world).events
    × Audited admin alice_id (reactivate_user keycloak mas audit admin domain alice_id world).events
    × Audited admin alice_id (delete_user keycloak mas audit admin domain alice_id world).events
workflows-Audited_example = workflows-Audited keycloak mas audit admin domain alice_id world

offboard_user-Audited_example :
    Audited admin alice_id
      (offboard_user keycloak mas audit admin domain (some synapse) bindings alice_id world).events
offboard_user-Audited_example =
    offboard_user-Audited keycloak mas audit admin domain alice_id world (some synapse) bindings

reconcile_membership-Audited_example :
    Audited admin alice_id
      (reconcile_membership audit admin synapse user bindings [] [] world).events
reconcile_membership-Audited_example =
    reconcile_membership-Audited audit admin synapse user bindings [] [] world

workflows-append_only_example :
    (let r = disable_user keycloak mas audit admin domain alice_id world in
      r.world.db ≡ logged world.db (entries r.events))
    × (let r = reactivate_user keycloak mas audit admin domain alice_id world in
        r.world.db ≡ logged world.db (entries r.events))
    × (let r = delete_user keycloak mas audit admin domain alice_id world in
        r.world.db ≡ logged world.db (entries r.events))
    × (let r =
          offboard_user keycloak mas audit admin domain (some synapse) bindings alice_id world in
        r.world.db ≡ logged world.db (entries r.events))
workflows-append_only_example =
    workflows-append_only keycloak mas audit admin domain alice_id world (some synapse) bindings

reconcile_membership-append_only_example :
    let r = reconcile_membership audit admin synapse user bindings [] [] world in
    r.world.db ≡ logged world.db (entries r.events)
reconcile_membership-append_only_example =
    reconcile_membership-append_only audit admin synapse user bindings [] [] world

workflows-Reports_example :
    (let r = disable_user keycloak mas audit admin domain alice_id world in
      spotless r.value ≡ all_ok r.events)
    × (let r = reactivate_user keycloak mas audit admin domain alice_id world in
        spotless r.value ≡ all_ok r.events)
    × (let r = delete_user keycloak mas audit admin domain alice_id world in
        deleted_cleanly r.value ≡ all_ok r.events)
workflows-Reports_example = workflows-Reports keycloak mas audit admin domain alice_id world

offboard_user-Reports_example :
    let r = offboard_user keycloak mas audit admin domain (some synapse) bindings alice_id world in
    spotless r.value ≡ all_ok r.events
offboard_user-Reports_example =
    offboard_user-Reports keycloak mas audit admin domain alice_id world (some synapse) bindings
      refl

reconcile_membership-Reports_example :
    let r = reconcile_membership audit admin synapse user bindings [] [] world in
    spotless r.value ≡ all_ok r.events
reconcile_membership-Reports_example =
    reconcile_membership-Reports audit admin user synapse bindings [] [] world

offboard_user-Guarded_example :
    Guarded alice_id false
      (offboard_user keycloak mas audit admin domain (some synapse) bindings alice_id world).events
offboard_user-Guarded_example =
    offboard_user-Guarded keycloak mas audit admin domain (some synapse) bindings alice_id world

delete_user-Explained_example :
    let r = delete_user keycloak mas audit admin domain alice_id world in
    Explained alice_id (some (2 ∷ [])) r.value r.events
unfolding found_user
delete_user-Explained_example = delete_user-Explained keycloak mas audit admin domain alice_id world
