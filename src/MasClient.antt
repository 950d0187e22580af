-- ===== src/MasClient.antt =====
-- src/clients/mas.rs: the client of the Matrix Authentication Service over HTTP. reqwest and the
-- crate percent_encoding are parameters; the state is that of the Keycloak client, with a token
-- cache of its own.
pub mod Finish
use matrix_identity_admin.Prelude.{
  ℕ, ◌+◌, ◌-◌, ◌*◌, List, [], ◌∷◌, ◌++◌, map, Option, none, some, Bool, ltb, ◌==◌, ◌⊎◌,
  if◌then◌else◌,
}
use matrix_identity_admin.Text.{Text, codes, text_eq}
use matrix_identity_admin.Models.Error.{AppError, Result, ok, err, error_text}
use matrix_identity_admin.Models.Accounts.{MasUser, MasSession, SessionListResult}
use matrix_identity_admin.Effects.Clients.{AuthService, Reply}
use matrix_identity_admin.KeycloakClient.{
  HttpError, Method, TokenResponse, Client, or_upstream, over, answer, ◌>>=◌,
}

pub record MasRequest : Type 0 where
  pub method : Method
  pub url : Text
  pub query : List (Text × Text)

-- `ApiUserResource` and `ApiSessionResource` with their attributes.
pub record ApiUser : Type 0 where
  pub id : Text
  pub username : Text
  pub deactivated_at : Option Text

pub record ApiSession : Type 0 where
  pub id : Text
  pub resource_type : Text
  pub created_at : Option Text
  pub last_active_at : Option Text
  pub user_agent : Option Text
  pub last_active_ip : Option Text
  pub finished_at : Option Text

pub record MasHttp (N R : Type 0) : Type 0 where
  pub send : Text → MasRequest → N → (HttpError ⊎ R) × N
  pub post_basic : Text → Text → Text → List (Text × Text) → N → (HttpError ⊎ R) × N
  pub status : R → ℕ
  pub error_for_status : R → HttpError ⊎ R
  pub json_token : R → N → (HttpError ⊎ TokenResponse) × N
  pub json_user : R → N → (HttpError ⊎ ApiUser) × N
  pub json_sessions : R → N → (HttpError ⊎ List ApiSession) × N
  pub now : N → ℕ × N
  pub percent_encode : Text → Text

pub record MasConfig : Type 0 where
  pub base_url : Text
  pub admin_client_id : Text
  pub admin_client_secret : Text

abbrev pub mas : Text
mas = codes "mas"

unfoldable pub session_of : ApiSession → MasSession
session_of r = record {
  id = r.id;
  session_type = r.resource_type;
  created_at = r.created_at;
  last_active_at = r.last_active_at;
  user_agent = r.user_agent;
  ip_address = r.last_active_ip;
  finished_at = r.finished_at;
}

abbrev pub mas_user : ApiUser → MasUser
mas_user u = record { id = u.id; username = u.username; deactivated_at = u.deactivated_at }

-- The path that finishes a session, by its type.
unfoldable pub finish_path : Text → Text → Result Text
finish_path id type =
    if text_eq type (codes "compat")
    then ok (codes "/api/admin/v1/compat-sessions/" ++ (id ++ codes "/finish"))
    else if text_eq type (codes "oauth2")
    then ok (codes "/api/admin/v1/oauth2-sessions/" ++ (id ++ codes "/finish"))
    else err (AppError.validation (codes "Unknown MAS session type: " ++ type))

-- What a failed fetch adds to the warnings.
abbrev pub fetch_warning : Text → Result (List MasSession) → List Text
fetch_warning what (ok s) = []
fetch_warning what (err e) = (what ++ error_text e) ∷ []

abbrev pub or_none : Result (List MasSession) → List MasSession
or_none (ok s) = s
or_none (err e) = []

unfoldable pub merged : Result (List MasSession) → Result (List MasSession) → SessionListResult
merged compat oauth2 = record {
  sessions = or_none compat ++ or_none oauth2;
  warnings =
      fetch_warning (codes "Failed to fetch compat sessions: ") compat
      ++ fetch_warning (codes "Failed to fetch OAuth2 sessions: ") oauth2;
}

module _ {N R : Type 0} (http : MasHttp N R) (config : MasConfig) where
  unfoldable pub mas_url : Text → Text
  mas_url path = config.base_url ++ path

  unfoldable pub cache_mas_token : TokenResponse → Reply (Client N) Text
  cache_mas_token t c =
      let (now, n) = http.now c.network in
      (
        ok t.access_token,
        record {
          network = n;
          token_cache = some (record {
            access_token = t.access_token;
            expires_at = now + (t.expires_in - 30) * 1000000000;
          });
        },
      )

  unfoldable pub fetch_mas_token : Reply (Client N) Text
  fetch_mas_token = do
    sent ← over mas (
        http.post_basic (mas_url (codes "/oauth2/token")) config.admin_client_id
          config.admin_client_secret
          ((codes "grant_type", codes "client_credentials")
            ∷ (codes "scope", codes "urn:mas:admin")
            ∷ []))
    good ← answer (or_upstream mas (http.error_for_status sent))
    token ← over mas (http.json_token good)
    cache_mas_token token

  abbrev pub cached_or_fetched_mas : Option Text → Reply (Client N) Text
  cached_or_fetched_mas none = fetch_mas_token
  cached_or_fetched_mas (some token) = answer (ok token)

  unfoldable pub mas_admin_token : Reply (Client N) Text
  mas_admin_token c = elim c.token_cache [
    | none ↦ fetch_mas_token c
    | some t ↦
        let (now, n) = http.now c.network in
        cached_or_fetched_mas (if ltb now t.expires_at then some t.access_token else none)
          (record c { network = n })
  ]

  abbrev pub send_mas : Text → Method → Text → List (Text × Text) → Reply (Client N) R
  send_mas token method path query =
      over mas (http.send token (record { method = method; url = mas_url path; query = query }))

  unfoldable pub post_done : Text → Text → Reply (Client N) (Unit {0})
  post_done token path = do
    response ← send_mas token Method.post path []
    good ← answer (or_upstream mas (http.error_for_status response))
    answer (ok tt)

  unfoldable pub read_user : R → Reply (Client N) (Option MasUser)
  read_user response = if http.status response == 404 then answer (ok none) else do
    good ← answer (or_upstream mas (http.error_for_status response))
    user ← over mas (http.json_user good)
    answer (ok (some (mas_user user)))

  unfoldable pub get_user_by_username : Text → Reply (Client N) (Option MasUser)
  get_user_by_username username = do
    token ← mas_admin_token
    response ←
        send_mas token Method.get
          (codes "/api/admin/v1/users/by-username/" ++ http.percent_encode username) []
    read_user response

  -- At most 50 active sessions of one kind.
  unfoldable pub fetch_sessions : Text → Text → Reply (Client N) (List MasSession)
  fetch_sessions endpoint id = do
    token ← mas_admin_token
    response ← send_mas token Method.get (codes "/api/admin/v1/" ++ endpoint) (
        (codes "filter[user]", id)
        ∷ (codes "filter[status]", codes "active")
        ∷ (codes "page[first]", codes "50")
        ∷ [])
    good ← answer (or_upstream mas (http.error_for_status response))
    sessions ← over mas (http.json_sessions good)
    answer (ok (map session_of sessions))

  -- The two fetches, joined in the code, one after the other.
  unfoldable pub list_sessions : Text → Reply (Client N) SessionListResult
  list_sessions id c =
      let compat = fetch_sessions (codes "compat-sessions") id c in
      let oauth2 = fetch_sessions (codes "oauth2-sessions") id compat.1 in
      (ok (merged compat.0 oauth2.0), oauth2.1)

  unfoldable pub finish_session : Text → Text → Reply (Client N) (Unit {0})
  finish_session id type = do
    token ← mas_admin_token
    path ← answer (finish_path id type)
    post_done token path

  unfoldable pub change_user : Text → Text → Reply (Client N) (Unit {0})
  change_user id what = do
    token ← mas_admin_token
    post_done token (codes "/api/admin/v1/users/" ++ (id ++ what))

  unfoldable pub mas_client : AuthService (Client N)
  mas_client = record {
    get_user_by_username = λ username. get_user_by_username username;
    list_sessions = λ id. list_sessions id;
    finish_session = λ id type. finish_session id type;
    deactivate_user = λ id. change_user id (codes "/deactivate");
    reactivate_user = λ id. change_user id (codes "/reactivate");
  }
