-- ===== src/Effects/Clients/Mas.antt =====
-- The methods of `AuthService` as actions.
use matrix_identity_admin.Prelude.{Option}
use matrix_identity_admin.Text.{Text}
use matrix_identity_admin.Models.Accounts.{MasUser, SessionListResult}
use matrix_identity_admin.Effects.Event.{Op}
use matrix_identity_admin.Effects.Exec.{call, call_if}
use matrix_identity_admin.Effects.Clients.Traits.{Act, is_complete, AuthService}

module _ {W : Type 0} (mas : AuthService W) where
  abbrev pub get_user_by_username : Text → Act W (Option MasUser)
  get_user_by_username name = call (Op.get_user_by_username name) (mas.get_user_by_username name)

  abbrev pub list_sessions : Text → Act W SessionListResult
  list_sessions id = call_if (Op.list_sessions id) is_complete (mas.list_sessions id)

  abbrev pub finish_session : Text → Text → Act W Unit
  finish_session id type = call (Op.finish_session id type) (mas.finish_session id type)

  abbrev pub deactivate_user : Text → Act W Unit
  deactivate_user id = call (Op.deactivate_user id) (mas.deactivate_user id)

  abbrev pub reactivate_user : Text → Act W Unit
  reactivate_user id = call (Op.reactivate_user id) (mas.reactivate_user id)
