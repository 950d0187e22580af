-- ===== src/Tests/Client.antt =====
-- A Keycloak that accepts one token, with a client that has another one in its cache, and a MAS
-- with a session whose resource is of type compat.
use matrix_identity_admin.Prelude.{ℕ, [], ◌∷◌, none, some, true, inr, if◌then◌else◌, ◌≡◌, refl}
use matrix_identity_admin.Text.{Text, codes, text_eq}
use matrix_identity_admin.KeycloakClient.{
  Method, Body, Http, Request, KeycloakConfig, Client, send_admin_request, over, or_upstream,
  answer, on_ok, ◌>>=◌,
}
use matrix_identity_admin.Models.Error.{is_ok}
use matrix_identity_admin.MasClient.{
  MasHttp, MasConfig, ApiSession, session_of, finish_path, post_done, mas_admin_token,
  fetch_mas_token, cache_mas_token, finish_session,
}
use matrix_identity_admin.MasClient.Finish.{is_known_type, finish_session-session_of}
use matrix_identity_admin.KeycloakClient.Retry.{
  Authorized, Authorizes, send_admin_request-Authorized,
}

-- A response is its status.
abbrev http : Http ℕ ℕ
http = record {
  send = λ token request n. (inr (if text_eq token (1 ∷ []) then 200 else 401), n);
  post_form = λ url form n. (inr 200, n);
  status = λ r. r;
  error_for_status = λ r. inr r;
  location = λ r. none;
  json_token = λ r n. (inr (record { access_token = 1 ∷ []; expires_in = 60 }), n);
  json_users = λ r n. (inr [], n);
  json_user = λ r n. (
    inr (record {
      id = [];
      username = [];
      email = none;
      first_name = none;
      last_name = none;
      enabled = true;
      email_verified = true;
      created_timestamp = none;
      required_actions = [];
    }),
    n,
  );
  json_groups = λ r n. (inr [], n);
  json_roles = λ r n. (inr [], n);
  json_count = λ r n. (inr 0, n);
  now = λ n. (n, n);
}

abbrev config : KeycloakConfig
config = record { base_url = []; realm = []; admin_client_id = []; admin_client_secret = [] }

abbrev stale : Client ℕ
stale = record {
  network = 0;
  token_cache = some (record { access_token = 2 ∷ []; expires_at = 9 });
}

abbrev ask : Request
ask = record { method = Method.get; url = []; query = []; body = Body.empty }

abbrev IsGood : ℕ → Text → Type 0
IsGood n token = token ≡ 1 ∷ []

IsGood-Authorizes : Authorizes http config IsGood
unfolding text_eq
IsGood-Authorizes n token request h = rw h refl

send_admin_request-Authorized_example :
    Authorized http config IsGood (send_admin_request http config ask stale).0
send_admin_request-Authorized_example =
    send_admin_request-Authorized http config IsGood ask stale (λ r n. refl) (λ n token h. h)
      IsGood-Authorizes

abbrev mas_http : MasHttp ℕ ℕ
mas_http = record {
  send = λ token request n. (inr 200, n);
  post_basic = λ url id secret form n. (inr 200, n);
  status = λ r. r;
  error_for_status = λ r. inr r;
  json_token = λ r n. (inr (record { access_token = 1 ∷ []; expires_in = 60 }), n);
  json_user = λ r n. (inr (record { id = []; username = []; deactivated_at = none }), n);
  json_sessions = λ r n. (inr [], n);
  now = λ n. (n, n);
  percent_encode = λ t. t;
}

abbrev mas_config : MasConfig
mas_config = record { base_url = []; admin_client_id = []; admin_client_secret = [] }

abbrev compat_session : ApiSession
compat_session = record {
  id = 4 ∷ [];
  resource_type = codes "compat";
  created_at = none;
  last_active_at = none;
  user_agent = none;
  last_active_ip = none;
  finished_at = none;
}

finished :
    is_ok
      (finish_session mas_http mas_config
        (session_of compat_session).id
        (session_of compat_session).session_type
        stale).0
    ≡ true
unfolding finish_session session_of finish_path post_done mas_admin_token fetch_mas_token
    cache_mas_token over or_upstream answer on_ok ◌>>=◌ text_eq codes
finished = refl

finish_session-session_of_example : is_known_type compat_session.resource_type ≡ true
finish_session-session_of_example =
    finish_session-session_of mas_http mas_config compat_session stale finished
