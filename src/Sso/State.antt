-- ===== src/Sso/State.antt =====
-- The state of a login between its start and its callback: loadIdentityProvider, startSSO and
-- consumeSSOState of internal/app/sso.go. Redis is a table of states, one for each kind of key; that
-- entries expire is not modelled.
use netriun_nexus.Prelude.{
  ℕ, String, Bool, true, not, List, ◌∷◌, ◌&&◌, ◌||◌, ◌==◌, str_eq, if◌then◌else◌, find, drop_where,
  Option, some, none, Result, ok, problem, Handler, pure, fail, require, ◌>>=◌, ◌>>◌,
}
use netriun_nexus.Store.{Protocol, oidc, saml, IdentityProvider, Db}
use netriun_nexus.Sessions.{Web}
use netriun_nexus.Sso.ProviderConfig.{
  IdentityProviderConfig, SsoOps, ServiceProvider, saml_service_provider, loaded, refused, panicked,
  decrypt_identity_provider_config, sso_path,
}
use netriun_nexus.Sso.Providers.{is_protocol}
use netriun_nexus.Sso.Login.{failed_status, failed_page}

-- `ssoState`.
pub record SsoState : Type 0 where
  pub provider_id : ℕ
  pub nonce : String
  pub verifier : String
  pub request_id : String

pub record Pending : Type 0 where
  pub key : String
  pub state : SsoState

-- `states` has the keys "sso-state:…", `logouts` the keys "sso-logout:…".
pub record SsoWeb : Type 0 where
  pub web : Web
  pub states : List Pending
  pub logouts : List Pending

abbrev pub sso_failure : {A : Type 0} → SsoWeb → Result A × SsoWeb
sso_failure = fail failed_status failed_page

-- What the browser is sent to: oauth2.Config.AuthCodeURL under the S256 challenge, and
-- MakeAuthenticationRequest with its id and Redirect.
pub record StartOps : Type 0 where
  pub endpoint : (issuer : String) → Option String
  pub challenge : (verifier : String) → String
  pub auth_code_url :
      (endpoint : String)
      → IdentityProviderConfig
      → (redirect state nonce challenge : String) → String
  pub make_request : ServiceProvider → Option String
  pub redirect_url : ServiceProvider → (request relay : String) → Option String

abbrev pub unavailable_page : String
unavailable_page = "/?sso=unavailable"

abbrev unavailable : {A : Type 0} → Result A
unavailable = problem 303 unavailable_page

-- GETDEL.
abbrev pub take_state : (redis_down : Bool) → String → Handler SsoWeb SsoState
take_state redis_down key s =
    if redis_down
    then (problem failed_status failed_page, s)
    else elim (find (λ x. str_eq x.key key) s.states) [
      | none ↦ (problem failed_status failed_page, s)
      | some x ↦ (ok x.state, record s { states = drop_where (λ y. str_eq y.key key) s.states })
    ]

-- What the callback of a login goes on with.
pub record Resumed : Type 0 where
  pub provider : IdentityProvider
  pub config : IdentityProviderConfig
  pub state : SsoState

abbrev pub is_expected :
    Protocol → (path : String) → IdentityProvider × IdentityProviderConfig → Bool
is_expected protocol path (p, cfg) = is_protocol p.protocol protocol && str_eq p.public_id path

abbrev expected :
    Protocol
    → (path : String) → SsoState
    → Option (IdentityProvider × IdentityProviderConfig)
    → Handler SsoWeb Resumed
expected protocol path state none = sso_failure
expected protocol path state (some found) =
    require (is_expected protocol path found) failed_status failed_page
    >> pure (record { provider = found.0; config = found.1; state = state })

module _ (ops : SsoOps) where
  abbrev pub is_public : String → (enabled_only : Bool) → IdentityProvider → Bool
  is_public public_id enabled_only p =
      str_eq p.public_id public_id && (not enabled_only || p.enabled)

  abbrev pub with_config : IdentityProvider → Option (IdentityProvider × IdentityProviderConfig)
  with_config p = elim (decrypt_identity_provider_config ops p.config_encrypted) [
    | none ↦ none
    | some cfg ↦ some (p, cfg)
  ]

  unfoldable pub load_identity_provider :
      (down : Bool)
      → (public_id : String) → (enabled_only : Bool) → Db
      → Option (IdentityProvider × IdentityProviderConfig)
  load_identity_provider down public_id enabled_only db =
      if down then none else elim (find (is_public public_id enabled_only) db.identity_providers) [
        | none ↦ none
        | some p ↦ with_config p
      ]

  abbrev provider_with_id :
      (down : ℕ → Bool) → ℕ → Db → Option (IdentityProvider × IdentityProviderConfig)
  provider_with_id down id db =
      if down 0
      then none
      else elim (find (λ (p : IdentityProvider). p.id == id) db.identity_providers) [
        | none ↦ none
        | some p ↦ load_identity_provider (down 1) p.public_id true db
      ]

module _ (ops : SsoOps) (start : StartOps) (digest : String → String) where
  -- What `startSSO` keeps, and where it sends the browser. `nonce` and `verifier` are random. A
  -- panic ends the request without an answer, which is status 0 here.
  unfoldable pub destination :
      (origin token nonce verifier : String)
      → IdentityProvider × IdentityProviderConfig
      → Result (SsoState × String)
  destination origin token nonce verifier (p, cfg) = elim p.protocol [
    | oidc ↦ elim (start.endpoint cfg.issuer_url) [
      | none ↦ unavailable
      | some endpoint ↦ ok (
        record { provider_id = p.id; nonce = nonce; verifier = verifier; request_id = "" },
        start.auth_code_url endpoint cfg (sso_path origin p.public_id "/callback") token nonce
            (start.challenge verifier),
      )
    ]
    | saml ↦ elim (saml_service_provider ops origin p.public_id cfg) [
      | refused ↦ unavailable
      | panicked ↦ problem 0 ""
      | loaded sp ↦ elim (start.make_request sp) [
        | none ↦ unavailable
        | some request ↦ elim (start.redirect_url sp request token) [
          | none ↦ unavailable
          | some url ↦
              ok (
                record { provider_id = p.id; nonce = ""; verifier = ""; request_id = request },
                url,
              )
        ]
      ]
    ]
  ]

  abbrev keep_state :
      (redis_down : Bool) → String → Result (SsoState × String) → Handler SsoWeb String
  keep_state redis_down key (problem status page) s = (problem status page, s)
  keep_state redis_down key (ok (state, url)) s = if redis_down then (unavailable, s) else (
    ok url,
    record s {
      states = record { key = key; state = state } ∷ drop_where (λ x. str_eq x.key key) s.states;
    },
  )

  unfoldable pub start_sso :
      (db_down redis_down : Bool) (origin token nonce verifier provider : String)
      → Handler SsoWeb String
  start_sso db_down redis_down origin token nonce verifier provider s =
      elim (load_identity_provider ops db_down provider true s.web.db) [
        | none ↦ (unavailable, s)
        | some found ↦
            keep_state redis_down (digest token) (destination origin token nonce verifier found) s
      ]

module _ (ops : SsoOps) (digest : String → String) where
  unfoldable pub consume_sso_state :
      (redis_down : Bool) (down : ℕ → Bool) (token : String)
      → Protocol
      → (path : String) → Handler SsoWeb Resumed
  consume_sso_state redis_down down token protocol path = do
    require (not (str_eq token "")) failed_status failed_page
    state ← take_state redis_down (digest token)
    λ s. expected protocol path state (provider_with_id ops down state.provider_id s.web.db) s
