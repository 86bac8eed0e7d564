-- ===== src/Sso/Callback.antt =====
-- The callbacks of a login: oidcCallback and samlCallback of internal/app/sso.go.
use netriun_nexus.Prelude.{
  ℕ, String, Bool, true, List, [], ◌∷◌, ◌&&◌, str_eq, if◌then◌else◌, Option, some, none, ok,
  Handler, fail, require, row_or, ◌>>=◌, ◌>>◌,
}
use netriun_nexus.Store.{oidc, saml, IdentityProvider, User}
use netriun_nexus.Credentials.{UnicodeOps}
use netriun_nexus.Sessions.{Web}
use netriun_nexus.Sso.ProviderConfig.{
  IdentityProviderConfig, SsoOps, ServiceProvider, Loaded, saml_service_provider, loaded, refused,
  panicked, sso_path,
}
use netriun_nexus.Sso.Providers.{is_protocol}
use netriun_nexus.Sso.Claims.{
  Fields, none_left, ClaimOps, first_claim, claim_values, claim_bool, Attribute, attribute_fields,
}
use netriun_nexus.Sso.Names.{NameOps}
use netriun_nexus.Sso.Links.{SsoIdentity}
use netriun_nexus.Sso.Login.{failed_status, failed_page, finish_sso}
use netriun_nexus.Sso.State.{
  SsoWeb, SsoState, Resumed, consume_sso_state, load_identity_provider, sso_failure,
}

-- A verified ID token; `claims` is what its JSON decodes to.
pub record IdToken : Type 0 where
  pub subject : String
  pub nonce : String
  pub claims : Option Fields

-- What the OpenID Connect libraries answer: the exchange of a code under a verifier, with the
-- id_token of its answer, and the verification of that.
pub record OidcOps : Type 0 where
  pub exchange : IdentityProviderConfig → (redirect code verifier : String) → Option (Option String)
  pub verify : IdentityProviderConfig → (raw : String) → Option IdToken

pub record NameId : Type 0 where
  pub format : String
  pub value : String

-- A SAML assertion that ParseResponse accepted.
pub record Assertion : Type 0 where
  pub name_id : Option NameId
  pub attributes : List Attribute

abbrev pub persistent_format : String
persistent_format = "urn:oasis:names:tc:SAML:2.0:nameid-format:persistent"

-- What a login needs of the world around it, its database and Redis, and of the new session.
pub record Surroundings : Type 0 where
  pub down_before : ℕ → Bool
  pub down : ℕ → Bool
  pub free : ℕ → Bool
  pub now : ℕ
  pub hash : Option String
  pub key : String

abbrev pub request_ids : SsoState → List String
request_ids state = if str_eq state.request_id "" then [] else state.request_id ∷ []

abbrev on_web : {A : Type 0} → Handler Web A → Handler SsoWeb A
on_web m s = let (r, web) = m s.web in (r, record s { web = web })

module _ (ops : SsoOps) (claims : ClaimOps) (uni : UnicodeOps) (names : NameOps)
    (digest : String → String) where
  unfoldable pub finish_identity :
      Surroundings → IdentityProvider → SsoIdentity → Handler SsoWeb User
  finish_identity w p identity =
      on_web (finish_sso ops.text uni names w.down w.free w.now w.hash w.key p identity)

  abbrev pub oidc_identity : IdentityProviderConfig → IdToken → Fields → SsoIdentity
  oidc_identity cfg token fields = record {
    subject = token.subject;
    email = first_claim claims fields cfg.email_claim;
    email_verified = claim_bool claims fields "email_verified";
    username = first_claim claims fields cfg.username_claim;
    groups = claim_values claims fields cfg.groups_claim;
  }

  module _ (remote : OidcOps) where
    -- The part of `oidcCallback` after the state.
    unfoldable pub exchange_code :
        Surroundings → (origin code : String) → Resumed → Handler SsoWeb User
    exchange_code w origin code r = do
      require (ops.discovers r.config.issuer_url) failed_status failed_page
      token ←
          row_or
            (remote.exchange r.config (sso_path origin r.provider.public_id "/callback") code
              r.state.verifier)
            failed_status failed_page
      raw ← row_or token failed_status failed_page
      id ← row_or (remote.verify r.config raw) failed_status failed_page
      require (str_eq id.nonce r.state.nonce) failed_status failed_page
      fields ← row_or id.claims failed_status failed_page
      finish_identity w r.provider (oidc_identity r.config id fields)

    -- `path` is the provider of the URL.
    unfoldable pub oidc_callback :
        Surroundings → (redis_down : Bool) (origin path token code : String) → Handler SsoWeb User
    oidc_callback w redis_down origin path token code =
        consume_sso_state ops digest redis_down w.down_before token oidc path
        >>= exchange_code w origin code

  abbrev pub saml_identity : IdentityProviderConfig → Assertion → NameId → SsoIdentity
  saml_identity cfg assertion name =
      let fields = attribute_fields claims assertion.attributes none_left in
      record {
        subject = ops.text.trim_space name.value;
        email = first_claim claims fields cfg.email_attribute;
        email_verified = true;
        username = first_claim claims fields cfg.username_attribute;
        groups = claim_values claims fields cfg.groups_attribute;
      }

  -- Without RelayState the provider itself started the login, where that is allowed.
  abbrev unsolicited : (down : Bool) → (path : String) → Handler SsoWeb Resumed
  unsolicited down path s = elim (load_identity_provider ops down path true s.web.db) [
    | none ↦ sso_failure s
    | some (p, cfg) ↦
        if is_protocol p.protocol saml && cfg.allow_idp_initiated
        then (
          ok (record {
            provider = p;
            config = cfg;
            state = record { provider_id = 0; nonce = ""; verifier = ""; request_id = "" };
          }),
          s,
        )
        else sso_failure s
  ]

  module _
      -- ServiceProvider.ParseResponse of the request.
      (parse_response : ServiceProvider → (request_ids : List String) → Option Assertion) where
    abbrev pub asserted : Surroundings → Resumed → ServiceProvider → Handler SsoWeb User
    asserted w r sp = do
      assertion ← row_or (parse_response sp (request_ids r.state)) failed_status failed_page
      name ← row_or assertion.name_id failed_status failed_page
      require (str_eq name.format persistent_format) failed_status failed_page
      finish_identity w r.provider (saml_identity r.config assertion name)

    abbrev pub accepted : Surroundings → Resumed → Loaded → Handler SsoWeb User
    accepted w r refused = sso_failure
    accepted w r panicked = fail 0 ""
    accepted w r (loaded sp) = asserted w r sp

    unfoldable pub accept_assertion :
        Surroundings → (origin : String) → Resumed → Handler SsoWeb User
    accept_assertion w origin r =
        accepted w r (saml_service_provider ops origin r.provider.public_id r.config)

    -- `form` is the RelayState of a form that could be read.
    unfoldable pub saml_callback :
        Surroundings
        → (redis_down : Bool) (origin path : String) → (form : Option String) → Handler SsoWeb User
    saml_callback w redis_down origin path form = do
      token ← row_or form failed_status failed_page
      r ←
          if str_eq token ""
          then unsolicited (w.down_before 0) path
          else consume_sso_state ops digest redis_down w.down_before token saml path
      accept_assertion w origin r
