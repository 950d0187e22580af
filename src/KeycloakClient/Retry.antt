-- ===== src/KeycloakClient/Retry.antt =====
-- src/clients/keycloak.rs: a request whose cached token Keycloak no longer accepts.
use matrix_identity_admin.Prelude.{none, false, ◌==◌, ◌⊎◌, inl, inr, Bool-cases, ◌≡◌, refl}
use matrix_identity_admin.Text.{Text}
use matrix_identity_admin.Models.Error.{Result, ok, err}
use matrix_identity_admin.Effects.Clients.{Reply}
use matrix_identity_admin.KeycloakClient.{
  keycloak, Http, Request, TokenResponse, HttpError, KeycloakConfig, Client, or_upstream, on_ok,
  ◌>>=◌, over, cache_token, fetch_token, admin_token, clear_cached_token, send_admin_request_once,
  retry_unauthorized, send_admin_request,
}

module _ {N R : Type 0} (http : Http N R) (config : KeycloakConfig)
    (Accepts : N → Text → Type 0) where
  -- What is read of a response to the token request is a token that Keycloak accepts then.
  abbrev pub Issued : (HttpError ⊎ TokenResponse) × N → Type 0
  Issued (inl e, n) = Unit
  Issued (inr t, n) = Accepts n t.access_token

  abbrev pub Issues : Type 0
  Issues = (r : R) (n : N) → Issued (http.json_token r n)

  -- Reading the clock takes no token away.
  abbrev pub KeepsAccepting : Type 0
  KeepsAccepting = (n : N) (token : Text) → Accepts n token → Accepts (http.now n).1 token

  abbrev pub NotUnauthorized : HttpError ⊎ R → Type 0
  NotUnauthorized (inl e) = Unit
  NotUnauthorized (inr r) = (http.status r == 401) ≡ false

  -- A request with a token that Keycloak accepts is not answered with 401.
  abbrev pub Authorizes : Type 0
  Authorizes =
      (n : N) (token : Text) (request : Request)
      → Accepts n token
      → NotUnauthorized (http.send token request n).0

  abbrev pub Authorized : Result R → Type 0
  Authorized (err e) = Unit
  Authorized (ok r) = (http.status r == 401) ≡ false

  abbrev Fresh : Result Text × Client N → Type 0
  Fresh (err e, c) = Unit
  Fresh (ok token, c) = Accepts c.network token

  over-Authorized : (x : HttpError ⊎ R) → NotUnauthorized x → Authorized (or_upstream keycloak x)
  unfolding or_upstream
  over-Authorized (inl e) h = tt
  over-Authorized (inr r) h = h

  on_ok-Fresh :
      {A : Type 0} (f : A → Reply (Client N) Text) (r : Result A) (c : Client N)
      → ((a : A) (d : Client N) → Fresh (f a d))
      → Fresh (on_ok f r c)
  unfolding on_ok
  on_ok-Fresh f (ok a) c h = h a c
  on_ok-Fresh f (err e) c h = tt

  token-Fresh :
      (r : R) (c : Client N)
      → Issues
      → KeepsAccepting
      → Fresh ((over keycloak (http.json_token r) >>= cache_token http config) c)
  unfolding over or_upstream ◌>>=◌ on_ok cache_token
  token-Fresh r c issues keeps = read (http.json_token r c.network) (issues r c.network)
    where
      read :
          (x : (HttpError ⊎ TokenResponse) × N)
          → Issued x
          → Fresh (
              on_ok
                (cache_token http config)
                (or_upstream keycloak x.0)
                (record c { network = x.1 }))
      read (inl e, n) h = tt
      read (inr t, n) h = keeps n t.access_token h

  fetch_token-Fresh : (c : Client N) → Issues → KeepsAccepting → Fresh (fetch_token http config c)
  unfolding fetch_token ◌>>=◌
  fetch_token-Fresh c issues keeps =
      on_ok-Fresh _ _ _ λ sent d. on_ok-Fresh _ _ _ λ good e. token-Fresh good e issues keeps

  send-Authorized :
      (r : Result Text) (c : Client N) (request : Request)
      → Authorizes
      → Fresh (r, c)
      → Authorized (on_ok (λ token. over keycloak (http.send token request)) r c).0
  unfolding on_ok over
  send-Authorized (err e) c request authorizes h = tt
  send-Authorized (ok token) c request authorizes h =
      over-Authorized (http.send token request c.network).0 (authorizes c.network token request h)

  cleared-Authorized :
      (request : Request) (c : Client N)
      → Issues
      → KeepsAccepting
      → Authorizes
      → Authorized (send_admin_request_once http config request (clear_cached_token c)).0
  unfolding send_admin_request_once admin_token clear_cached_token ◌>>=◌
  cleared-Authorized request c issues keeps authorizes =
      let r = fetch_token http config (record c { token_cache = none }) in
      send-Authorized r.0 r.1 request authorizes
        (fetch_token-Fresh (record c { token_cache = none }) issues keeps)

  retry-Authorized :
      (request : Request) (first : Result R) (c : Client N)
      → Issues
      → KeepsAccepting
      → Authorizes
      → Authorized (on_ok (retry_unauthorized http config request) first c).0
  unfolding on_ok retry_unauthorized
  retry-Authorized request (err e) c issues keeps authorizes = tt
  retry-Authorized request (ok r) c issues keeps authorizes =
      elim (Bool-cases (http.status r == 401)) [
        | inl refused ↦ rw refused (cleared-Authorized request c issues keeps authorizes)
        | inr fine ↦ rw fine (rw fine refl)
      ]

  -- If a token that Keycloak issues is accepted, reading the clock takes none away, and a request
  -- with a token that is accepted is not answered with 401, then no request of the client ends
  -- with a response of status 401, whatever token the cache holds, one that was revoked or has
  -- expired at Keycloak included.
  pub send_admin_request-Authorized :
      (request : Request) (c : Client N)
      → Issues
      → KeepsAccepting
      → Authorizes
      → Authorized (send_admin_request http config request c).0
  unfolding send_admin_request ◌>>=◌
  send_admin_request-Authorized request c issues keeps authorizes =
      let first = send_admin_request_once http config request c in
      retry-Authorized request first.0 first.1 issues keeps authorizes
