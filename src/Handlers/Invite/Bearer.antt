-- ===== src/Handlers/Invite/Bearer.antt =====
-- src/handlers/invite.rs: requests of the bot whose secret is wrong, and the local copy of the
-- encoder.
use matrix_identity_admin.Prelude.{ℕ, [], ◌∷◌, ◌++◌, Option, List, false, ◌≡◌, refl, ap, arith}
use matrix_identity_admin.Text.{Text, codes, text_eq}
use matrix_identity_admin.Utf8.{utf8}
use matrix_identity_admin.PctEncode.{is_unreserved, pct_byte, pct_encode}
use matrix_identity_admin.Models.Error.{AppError, error_text}
use matrix_identity_admin.Effects.Exec.{World, ◌>>=◌}
use matrix_identity_admin.Onboarding.File.{TemplatesFile}
use matrix_identity_admin.Handlers.Session.{AppState}
use matrix_identity_admin.Handlers.Session.Csrf.{Compares, constant_time_eq-text_eq}
use matrix_identity_admin.Handlers.Audit.{unwrap_or_default}
use matrix_identity_admin.Handlers.Invite.{
  InviteRequest, invite_response, invite_pct_byte, invite_pct_encode, secret_matches, handle_invite,
  create_invite,
}

pct_byte-copy : (b : ℕ) → invite_pct_byte b ≡ pct_byte b
unfolding invite_pct_byte pct_byte is_unreserved
pct_byte-copy b = ground arith

pct_encode-copy : (bs : List ℕ) → invite_pct_encode bs ≡ pct_encode bs
unfolding invite_pct_encode pct_encode
pct_encode-copy [] = refl
pct_encode-copy (b ∷ bs) = rw (pct_byte-copy b) (ap (λ r. pct_byte b ++ r) (pct_encode-copy bs))

-- If the comparison of the crate is right for slices of one length, and the bytes of the
-- authorization header, empty if there is none, are not those of "Bearer " and the secret, then
-- the invitation of the bot answers 401 with the error that the secret is invalid, calls no
-- service, reads no template, and leaves the database and the services as they are.
pub create_invite-Refuses :
    {W : Type 0} (state : AppState W) (file : TemplatesFile W) (normalise : Text → Text)
    (header : Option Text) (body : InviteRequest) (w : World W)
    → Compares state.ct_eq
    → text_eq (utf8 (unwrap_or_default header)) (utf8 (codes "Bearer " ++ state.bot_api_secret))
      ≡ false
    → create_invite state file normalise header body w ≡ record {
      value = record {
        status = 401;
        is_invited = false;
        message = error_text (AppError.auth (codes "Invalid bot API secret"));
      };
      world = w;
      events = [];
    }
unfolding create_invite handle_invite secret_matches invite_response ◌>>=◌
create_invite-Refuses state file normalise header body w compares other =
    rw
      (constant_time_eq-text_eq state.ct_eq compares (utf8 (unwrap_or_default header))
        (utf8 (codes "Bearer " ++ state.bot_api_secret)))
      (rw other refl)
