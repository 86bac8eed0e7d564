-- ===== src/Sso/ProviderConfig.antt =====
-- The configuration of an identity provider: mergeIdentityProviderSecrets,
-- normalizeIdentityProviderConfig, defaultString, samlServiceProvider and
-- decryptIdentityProviderConfig of internal/app/sso.go.
use Prim.Native.String.{◌++◌ as joined}
use netriun_nexus.Prelude.{
  String, Bool, false, not, List, [], ◌∷◌, ◌&&◌, ◌||◌, str_eq, any, is_empty, if◌then◌else◌, Option,
  some, none, Result, ok, problem,
}
use netriun_nexus.Store.{Protocol, oidc, saml}
use netriun_nexus.Text.{TextOps}

-- `identityProviderConfig`.
pub record IdentityProviderConfig : Type 0 where
  pub issuer_url : String
  pub client_id : String
  pub client_secret : String
  pub scopes : List String
  pub email_claim : String
  pub username_claim : String
  pub groups_claim : String
  pub idp_metadata : String
  pub email_attribute : String
  pub username_attribute : String
  pub groups_attribute : String
  pub sp_certificate : String
  pub sp_private_key : String
  pub allow_idp_initiated : Bool

pub record Url : Type 0 where
  pub scheme : String
  pub host : String

-- What tls.X509KeyPair and x509.ParseCertificate make of a certificate and a key. The program uses
-- the key as an RSA key: with another kind the request panics.
pub data KeyPair : Type 0 where
  bad_pair rsa_pair other_pair : KeyPair

-- What the component calls of other libraries: operations on text, strings.TrimRight(_, "/"), url.Parse,
-- samlsp.ParseMetadata up to the entity id, the key generation of crypto/rsa and crypto/x509,
-- oidc.NewProvider, encoding/json and the AEAD behind the vault, under a nonce.
pub record SsoOps : Type 0 where
  pub text : TextOps
  pub trim_slashes : String → String
  pub parse_url : String → Option Url
  pub entity_id : String → Option String
  pub key_pair : (certificate key : String) → KeyPair
  pub generate_key_pair : (common_name : String) → Option (String × String)
  pub discovers : (issuer : String) → Bool
  pub encode : IdentityProviderConfig → Option String
  pub decode : String → Option IdentityProviderConfig
  pub encrypt : (nonce plain : String) → String
  pub decrypt : String → Option String

abbrev kept_text : (current previous : String) → String
kept_text current previous = if str_eq current "" then previous else current

-- mergeIdentityProviderSecrets: the console does not send the secrets that it cannot read.
unfoldable pub merge_identity_provider_secrets :
    (current previous : IdentityProviderConfig) → IdentityProviderConfig
merge_identity_provider_secrets current previous = record current {
  client_secret = kept_text current.client_secret previous.client_secret;
  idp_metadata = kept_text current.idp_metadata previous.idp_metadata;
  sp_certificate = kept_text current.sp_certificate previous.sp_certificate;
  sp_private_key = kept_text current.sp_private_key previous.sp_private_key;
}

abbrev email_uri : String
email_uri = "http://schemas.xmlsoap.org/ws/2005/05/identity/claims/emailaddress"

abbrev name_uri : String
name_uri = "http://schemas.xmlsoap.org/ws/2005/05/identity/claims/name"

abbrev groups_uri : String
groups_uri = "http://schemas.microsoft.com/ws/2008/06/identity/claims/groups"

abbrev default_scopes : List String
default_scopes = "openid" ∷ "profile" ∷ "email" ∷ "groups" ∷ []

unfoldable pub with_openid : List String → List String
with_openid scopes =
    let given = if is_empty scopes then default_scopes else scopes in
    if any (λ s. str_eq s "openid") given then given else "openid" ∷ given

-- origin + "/sso/" + publicID + end.
abbrev pub sso_path : (origin public_id end : String) → String
sso_path origin public_id end = joined origin (joined "/sso/" (joined public_id end))

-- What the handlers use of the service provider.
pub record ServiceProvider : Type 0 where
  pub entity : String
  pub acs_url : String
  pub slo_url : String
  pub idp_entity : String
  pub idp_initiated : Bool
  pub default_redirect : String

pub data Loaded : Type 0 where
  loaded : ServiceProvider → Loaded
  refused : Loaded
  panicked : Loaded

module _ (ops : SsoOps) where
  open ops use {
    text, trim_slashes, parse_url, entity_id, key_pair, generate_key_pair, decode, decrypt,
  }

  unfoldable pub default_string : (value fallback : String) → String
  default_string value fallback =
      let trimmed = text.trim_space value in if str_eq trimmed "" then fallback else trimmed

  abbrev pub is_https : Option Url → Bool
  is_https none = false
  is_https (some u) = str_eq u.scheme "https" && not (str_eq u.host "")

  abbrev pub trimmed_issuer : String → String
  trimmed_issuer issuer = trim_slashes (text.trim_space issuer)

  -- The branch of OIDC. An error is answered with 400.
  unfoldable pub normalize_oidc : IdentityProviderConfig → Result IdentityProviderConfig
  normalize_oidc cfg =
      let issuer = trimmed_issuer cfg.issuer_url in
      if not (is_https (parse_url issuer)) || str_eq cfg.client_id "" || str_eq cfg.client_secret ""
      then problem 400 "OIDC requires an HTTPS issuer URL, client ID, and client secret"
      else ok (record cfg {
        issuer_url = issuer;
        email_claim = default_string cfg.email_claim "email";
        username_claim = default_string cfg.username_claim "preferred_username";
        groups_claim = default_string cfg.groups_claim "groups";
        scopes = with_openid cfg.scopes;
      })

  abbrev named_attributes : IdentityProviderConfig → IdentityProviderConfig
  named_attributes cfg = record cfg {
    email_attribute = default_string cfg.email_attribute email_uri;
    username_attribute = default_string cfg.username_attribute name_uri;
    groups_attribute = default_string cfg.groups_attribute groups_uri;
  }

  abbrev with_keys :
      IdentityProviderConfig → Option (String × String) → Result IdentityProviderConfig
  with_keys cfg none = problem 400 "could not generate the SAML service-provider certificate"
  with_keys cfg (some (certificate, key)) =
      ok (record cfg { sp_certificate = certificate; sp_private_key = key })

  unfoldable pub normalize_saml :
      (origin public_id : String) → IdentityProviderConfig → Result IdentityProviderConfig
  normalize_saml origin public_id cfg =
      if str_eq cfg.idp_metadata ""
      then problem 400 "SAML requires IdP metadata XML"
      else elim (entity_id cfg.idp_metadata) [
        | none ↦ problem 400 "SAML IdP metadata is invalid"
        | some _ ↦
            if str_eq cfg.sp_certificate "" || str_eq cfg.sp_private_key ""
            then with_keys (named_attributes cfg) (generate_key_pair (sso_path origin public_id ""))
            else ok (named_attributes cfg)
      ]

  unfoldable pub normalize_identity_provider_config :
      Protocol
      → (origin public_id : String) → IdentityProviderConfig
      → Result IdentityProviderConfig
  normalize_identity_provider_config oidc origin public_id cfg = normalize_oidc cfg
  normalize_identity_provider_config saml origin public_id cfg = normalize_saml origin public_id cfg

  unfoldable pub saml_service_provider :
      (origin public_id : String) → IdentityProviderConfig → Loaded
  saml_service_provider origin public_id cfg = elim (entity_id cfg.idp_metadata) [
    | none ↦ refused
    | some idp ↦ elim (key_pair cfg.sp_certificate cfg.sp_private_key) [
      | bad_pair ↦ refused
      | other_pair ↦ panicked
      | rsa_pair ↦ loaded (record {
        entity = sso_path origin public_id "/metadata";
        acs_url = sso_path origin public_id "/acs";
        slo_url = sso_path origin public_id "/slo";
        idp_entity = idp;
        idp_initiated = cfg.allow_idp_initiated;
        default_redirect = origin;
      })
    ]
  ]

  unfoldable pub decrypt_identity_provider_config : String → Option IdentityProviderConfig
  decrypt_identity_provider_config cipher = elim (decrypt cipher) [
    | none ↦ none
    | some plain ↦ decode plain
  ]
