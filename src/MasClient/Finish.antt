-- ===== src/MasClient/Finish.antt =====
-- src/clients/mas.rs: the sessions that are listed, and those that can be finished.
use matrix_identity_admin.Prelude.{Bool, true, ◌||◌, ◌≡◌, refl, arith}
use matrix_identity_admin.Text.{Text, codes, text_eq}
use matrix_identity_admin.Models.Error.{Result, ok, err, is_ok}
use matrix_identity_admin.KeycloakClient.{Client, on_ok, answer, ◌>>=◌}
use matrix_identity_admin.MasClient.{
  ApiSession, MasHttp, MasConfig, session_of, finish_path, post_done, mas_admin_token,
  finish_session,
}

abbrev pub is_known_type : Text → Bool
is_known_type type = text_eq type (codes "compat") || text_eq type (codes "oauth2")

finish_path-known : (id type : Text) → is_ok (finish_path id type) ≡ is_known_type type
unfolding finish_path
finish_path-known id type = ground arith

module _ {N R : Type 0} (http : MasHttp N R) (config : MasConfig) where
  path-known :
      (token : Text) (path : Result Text) (c : Client N)
      → is_ok ((answer path >>= post_done http config token) c).0 ≡ true
      → is_ok path ≡ true
  unfolding answer on_ok ◌>>=◌
  path-known token (ok p) c h = refl
  path-known token (err e) c h = h

  token-known :
      (id type : Text) (token : Result Text) (c : Client N)
      → is_ok (on_ok (λ t. answer (finish_path id type) >>= post_done http config t) token c).0
        ≡ true
      → is_known_type type ≡ true
  unfolding on_ok
  token-known id type (ok t) c h =
      ground (arith, finish_path-known id type, path-known t (finish_path id type) c h)
  token-known id type (err e) c h = ground (arith, h)

  -- If finishing a session that was listed succeeds, with the type that the listing gave it, then
  -- the type of its resource in the answer of MAS was the word compat or the word oauth2: a session
  -- whose resource has any other type, compat-session for one, cannot be finished.
  pub finish_session-session_of :
      (r : ApiSession) (c : Client N)
      → is_ok (finish_session http config (session_of r).id (session_of r).session_type c).0 ≡ true
      → is_known_type r.resource_type ≡ true
  unfolding finish_session session_of ◌>>=◌
  finish_session-session_of r c h =
      let token = mas_admin_token http config c in
      token-known r.id r.resource_type token.0 token.1 h
