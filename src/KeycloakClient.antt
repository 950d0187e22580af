-- ===== src/KeycloakClient.antt =====
-- src/clients/keycloak.rs: the client that implements the trait over HTTP. The crate reqwest is a
-- parameter; of what it sends and receives, the requests are written out, and a response is
-- whatever the network makes of it. One request is followed at a time. An Instant is in
-- nanoseconds.
pub mod Methods
pub mod Retry
use matrix_identity_admin.Prelude.{
  ℕ, ◌+◌, ◌-◌, ◌*◌, List, [], ◌∷◌, ◌++◌, Option, none, some, Bool, true, false, not, ltb, ◌==◌, ◌⊎◌,
  inl, inr, is_empty, if◌then◌else◌,
}
use matrix_identity_admin.Text.{Text, codes, show_nat}
use matrix_identity_admin.Models.Error.{AppError, Result, ok, err}
use matrix_identity_admin.Models.Accounts.{KeycloakUser, KeycloakGroup, KeycloakRole}
use matrix_identity_admin.Effects.Clients.{KeycloakIdentityProvider, Reply}

-- `reqwest::Error`, of which the code reads the display of the status, if it has one.
pub record HttpError : Type 0 where
  pub status : Option Text

-- `upstream_error` of src/error.rs
unfoldable pub upstream_error : Text → HttpError → AppError
upstream_error service e =
    AppError.upstream service
      (elim e.status [ some s ↦ codes "HTTP " ++ s | none ↦ codes "request failed" ])

pub data Method : Type 0 where
  get post put delete : Method

pub data Body : Type 0 where
  empty : Body
  create_user : Text → Text → Bool → Bool → List Text → Body
  enabled : Bool → Body
  actions : List Text → Body
  roles : List KeycloakRole → Body

pub record Request : Type 0 where
  pub method : Method
  pub url : Text
  pub query : List (Text × Text)
  pub body : Body

pub record TokenResponse : Type 0 where
  pub access_token : Text
  pub expires_in : ℕ

-- reqwest over a network N, with responses R.
pub record Http (N R : Type 0) : Type 0 where
  pub send : Text → Request → N → (HttpError ⊎ R) × N
  pub post_form : Text → List (Text × Text) → N → (HttpError ⊎ R) × N
  pub status : R → ℕ
  pub error_for_status : R → HttpError ⊎ R
  pub location : R → Option Text
  pub json_token : R → N → (HttpError ⊎ TokenResponse) × N
  pub json_users : R → N → (HttpError ⊎ List KeycloakUser) × N
  pub json_user : R → N → (HttpError ⊎ KeycloakUser) × N
  pub json_groups : R → N → (HttpError ⊎ List KeycloakGroup) × N
  pub json_roles : R → N → (HttpError ⊎ List KeycloakRole) × N
  pub json_count : R → N → (HttpError ⊎ ℕ) × N
  pub now : N → ℕ × N

pub record KeycloakConfig : Type 0 where
  pub base_url : Text
  pub realm : Text
  pub admin_client_id : Text
  pub admin_client_secret : Text

pub record CachedToken : Type 0 where
  pub access_token : Text
  pub expires_at : ℕ

-- The network and `token_cache`.
pub record Client (N : Type 0) : Type 0 where
  pub network : N
  pub token_cache : Option CachedToken

unfoldable pub or_upstream {ℓ} : {A : Type ℓ} → Text → HttpError ⊎ A → Result A
or_upstream service (inl e) = err (upstream_error service e)
or_upstream service (inr a) = ok a

module _ {W A B : Type 0} where
  unfoldable pub on_ok : (A → Reply W B) → Result A → Reply W B
  on_ok f (ok a) w = f a w
  on_ok f (err e) w = (err e, w)

  infixl 5 ◌>>=◌
  -- `?` on the answer.
  unfoldable pub ◌>>=◌ : Reply W A → (A → Reply W B) → Reply W B
  ◌>>=◌ m f w = let r = m w in on_ok f r.0 r.1

unfoldable pub answer : {W A : Type 0} → Result A → Reply W A
answer r w = (r, w)

-- An answer of the network.
unfoldable pub over : {N A : Type 0} → Text → (N → (HttpError ⊎ A) × N) → Reply (Client N) A
over service f c = let r = f c.network in (or_upstream service r.0, record c { network = r.1 })

-- The part of a text after its last slash.
unfoldable pub after_last_slash : Text → Text → Text
after_last_slash [] sofar = sofar
after_last_slash (c ∷ cs) sofar = after_last_slash cs (if c == 47 then [] else sofar ++ c ∷ [])

unfoldable pub clear_cached_token : {N : Type 0} → Client N → Client N
clear_cached_token c = record c { token_cache = none }

abbrev pub keycloak : Text
keycloak = codes "keycloak"

module _ {N R : Type 0} (http : Http N R) (config : KeycloakConfig) where
  -- The token of the cache, if it has not expired.
  unfoldable pub unexpired : Option CachedToken → ℕ → Option Text
  unexpired none now = none
  unexpired (some t) now = if ltb now t.expires_at then some t.access_token else none

  unfoldable pub token_url : Text
  token_url =
      config.base_url
      ++ (codes "/realms/" ++ (config.realm ++ codes "/protocol/openid-connect/token"))

  -- The cache afterwards holds the token until 30 seconds before it expires.
  unfoldable pub cache_token : TokenResponse → Reply (Client N) Text
  cache_token t c =
      let (now, n) = http.now c.network in
      (
        ok t.access_token,
        record {
          network = n;
          token_cache = some (record {
            access_token = t.access_token;
            expires_at = now + (t.expires_in - 30) * 1000000000;
          });
        },
      )

  unfoldable pub fetch_token : Reply (Client N) Text
  fetch_token = do
    sent ← over keycloak (
        http.post_form token_url (
          (codes "grant_type", codes "client_credentials")
          ∷ (codes "client_id", config.admin_client_id)
          ∷ (codes "client_secret", config.admin_client_secret)
          ∷ []))
    good ← answer (or_upstream keycloak (http.error_for_status sent))
    token ← over keycloak (http.json_token good)
    cache_token token

  abbrev pub cached_or_fetched : Option Text → Reply (Client N) Text
  cached_or_fetched none = fetch_token
  cached_or_fetched (some token) = answer (ok token)

  -- The clock is read if there is a cached token.
  unfoldable pub admin_token : Reply (Client N) Text
  admin_token c = elim c.token_cache [
    | none ↦ fetch_token c
    | some t ↦
        let (now, n) = http.now c.network in
        cached_or_fetched (unexpired (some t) now) (record c { network = n })
  ]

  unfoldable pub send_admin_request_once : Request → Reply (Client N) R
  send_admin_request_once request = do token ← admin_token; over keycloak (http.send token request)

  -- What follows the first response.
  unfoldable pub retry_unauthorized : Request → R → Reply (Client N) R
  retry_unauthorized request response c =
      if not (http.status response == 401)
      then (ok response, c)
      else send_admin_request_once request (clear_cached_token c)

  unfoldable pub send_admin_request : Request → Reply (Client N) R
  send_admin_request request = do
    response ← send_admin_request_once request
    retry_unauthorized request response

  unfoldable pub admin_url : Text → Text
  admin_url path = config.base_url ++ (codes "/admin/realms/" ++ (config.realm ++ path))

  abbrev pub request : Method → Text → List (Text × Text) → Body → Request
  request method path query body = record {
    method = method;
    url = admin_url path;
    query = query;
    body = body;
  }

  abbrev pub user_url : Text → Text → Text
  user_url id rest = codes "/users/" ++ (id ++ rest)

  -- `send_admin_request(..).await?.error_for_status()?`
  unfoldable pub sent : Request → Reply (Client N) R
  sent r = do
    response ← send_admin_request r
    answer (or_upstream keycloak (http.error_for_status response))

  unfoldable pub done : Request → Reply (Client N) (Unit {0})
  done r = do response ← sent r; answer (ok tt)

  unfoldable pub fetched :
      {A : Type 0} → (R → N → (HttpError ⊎ A) × N) → Request → Reply (Client N) A
  fetched json r = do response ← sent r; over keycloak (json response)
