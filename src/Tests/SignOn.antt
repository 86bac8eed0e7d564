-- ===== src/Tests/SignOn.antt =====
-- Single sign-on at concrete workspaces: providers, logins and callbacks.
use netriun_nexus.Prelude.{
  ℕ, true, false, [], ◌∷◌, ◌≡◌, ◌≢◌, refl, str_eq, if◌then◌else◌, arith, some, ok, problem,
}
use netriun_nexus.Store.{user, oidc, saml, operator, IdentityProvider, User, Db}
use netriun_nexus.Request.{json, positive}
use netriun_nexus.Sessions.{Web, user_with_id}
use netriun_nexus.Sso.ProviderConfig.{
  IdentityProviderConfig, SsoOps, rsa_pair, decrypt_identity_provider_config,
}
use netriun_nexus.Sso.Providers.{
  IdentityProviderInput, save_identity_provider, delete_identity_provider, save_sso_settings,
}
use netriun_nexus.Sso.Enforced.{Enforced}
use netriun_nexus.Sso.Enforced.Requests.{
  save_identity_provider-Enforced, delete_identity_provider-Enforced, save_sso_settings-Enforced,
}
use netriun_nexus.Sso.Claims.{
  first_claim, claim_values, claim_bool, walk, member, texts_of, item_texts, ClaimOps, none_left,
  field, text,
}
use netriun_nexus.Credentials.{normalize_email}
use netriun_nexus.Sso.Names.{NameOps, base_name, first_free, available_sso_username}
use netriun_nexus.Sso.Links.{
  SsoIdentity, linked_user, user_by_email, insert_sso_user, provision, insert_identity,
  or_provisioned, new_link, or_linked, find_or_link, touch_identity,
}
use netriun_nexus.Sso.Grants.{drop_user_grants, insert_grants, sync_grants}
use netriun_nexus.Sso.Login.{
  finish_sso, failed_status, failed_page, protocol_name, establish_sso_session, open_session,
  settle, signed_user, trimmed_identity,
}
use netriun_nexus.Sso.Mapped.{Synced}
use netriun_nexus.Sso.Finished.{finish_sso-Synced}
use netriun_nexus.Sso.Stable.{Attempt, attempted, finish_sso-stable}
use netriun_nexus.Sso.State.{consume_sso_state, load_identity_provider, SsoWeb, Resumed}
use netriun_nexus.Sso.Callback.{
  oidc_callback, exchange_code, finish_identity, OidcOps, Surroundings, Assertion, accept_assertion,
}
use netriun_nexus.Sso.Replay.{Callback, called, oidc_callback-once}
use netriun_nexus.Sso.Dotted.{accept_assertion-dotted}
use netriun_nexus.Tests.Sample.{plain, runes_of, up, alice, sample}

abbrev blank_config : IdentityProviderConfig
blank_config = record {
  issuer_url = "https://idp.example.com";
  client_id = "nexus";
  client_secret = "s";
  scopes = [];
  email_claim = "email";
  username_claim = "name";
  groups_claim = "groups";
  idp_metadata = "";
  email_attribute = "http://schemas.xmlsoap.org";
  username_attribute = "";
  groups_attribute = "";
  sp_certificate = "";
  sp_private_key = "";
  allow_idp_initiated = false;
}

-- A vault that hides nothing, and a codec that knows one configuration.
abbrev trusting : SsoOps
trusting = record {
  text = plain;
  trim_slashes = λ s. s;
  parse_url = λ s. some (record { scheme = "https"; host = "idp.example.com" });
  entity_id = λ s. some "idp";
  key_pair = λ c k. rsa_pair;
  generate_key_pair = λ n. some ("cert", "key");
  discovers = λ s. true;
  encode = λ c. some "config";
  decode = λ s. some blank_config;
  encrypt = λ n s. s;
  decrypt = λ s. some s;
}

abbrev provider_row : IdentityProvider
provider_row = record {
  id = 40;
  workspace_id = 1;
  public_id = "idp";
  name = "corporate";
  protocol = oidc;
  enabled = true;
  jit_provisioning = true;
  config_encrypted = "config";
}

-- The workspace requires single sign-on, and has one provider, with a mapping to its team.
abbrev required_db : Db
required_db = record sample {
  workspaces =
      record { id = 1; name = "acme"; slug = "ws-acme"; user_limit = 6; sso_required = true } ∷ [];
  identity_providers = provider_row ∷ [];
  group_mappings =
      record {
        id = 41;
        workspace_id = 1;
        provider_id = 40;
        external_group = "devs";
        group_id = 5;
        role = operator;
      }
      ∷ [];
  next_id = 50;
}

required_db-Enforced : Enforced required_db
required_db-Enforced = record {
  old = (omega arith, tt);
  unique = λ id. (λ e. refl, tt);
  holds = λ w r. ground arith;
}

abbrev disabling : IdentityProviderInput
disabling = record {
  name = "corporate";
  protocol = "oidc";
  enabled = false;
  jit_provisioning = true;
  config = blank_config;
}

save_identity_provider-Enforced_example :
    Enforced
      (save_identity_provider trusting up "https://nexus" "token" "nonce" alice false
        (positive 40)
        (json disabling)
        required_db).1
save_identity_provider-Enforced_example =
    save_identity_provider-Enforced trusting up "https://nexus" "token" "nonce" alice false
      (positive 40) (json disabling) required_db required_db-Enforced

delete_identity_provider-Enforced_example :
    Enforced (delete_identity_provider up alice (positive 40) required_db).1
delete_identity_provider-Enforced_example =
    delete_identity_provider-Enforced up alice (positive 40) required_db required_db-Enforced

save_sso_settings-Enforced_example : Enforced (save_sso_settings up alice (json true) required_db).1
save_sso_settings-Enforced_example =
    save_sso_settings-Enforced up alice (json true) required_db required_db-Enforced

abbrev plain_names : NameOps
plain_names = record {
  before_at = λ s. s;
  replace_unsafe = λ s. s;
  trim_marks = λ s. s;
  first_bytes = λ n s. s;
  numbered = λ s n. s;
  fallback = λ s. s;
}

abbrev carol : SsoIdentity
carol = record {
  subject = "c-1";
  email = "carol@example.com";
  email_verified = true;
  username = "carol";
  groups = "devs" ∷ "all" ∷ [];
}

abbrev quiet : Web
quiet = record { db = required_db; sessions = []; counters = [] }

abbrev carol_user : User
carol_user = record {
  id = 50;
  workspace_id = 1;
  name = "carol";
  role = user;
  is_owner = false;
  version = 1;
}

abbrev first_login : Attempt plain runes_of plain_names provider_row
first_login = record {
  down = up;
  free = up;
  now = 100;
  hash = some "random";
  key = "session";
  identity = carol;
}

signed_in : (attempted plain runes_of plain_names provider_row first_login quiet).0 ≡ ok carol_user
unfolding finish_sso trimmed_identity normalize_email signed_user find_or_link or_linked linked_user
    new_link or_provisioned user_by_email provision insert_sso_user available_sso_username
    first_free base_name insert_identity settle sync_grants user_with_id drop_user_grants
    insert_grants touch_identity establish_sso_session open_session protocol_name
signed_in = refl

finish_sso-Synced_example :
    Synced 1 40 50
      ("devs" ∷ "all" ∷ [])
      required_db
      (attempted plain runes_of plain_names provider_row first_login quiet).1.db
finish_sso-Synced_example =
    finish_sso-Synced plain runes_of plain_names up up 100 (some "random") provider_row "session"
      carol carol_user quiet signed_in

-- The provider sends another address and other groups for the subject.
abbrev second_login : Attempt plain runes_of plain_names provider_row
second_login = record first_login {
  identity = record carol { email = "c.new@example.com"; groups = [] };
}

signed_in_again :
    (attempted plain runes_of plain_names provider_row second_login
      (attempted plain runes_of plain_names provider_row first_login quiet).1).0
    ≡ ok carol_user
unfolding finish_sso trimmed_identity normalize_email signed_user find_or_link or_linked linked_user
    new_link or_provisioned user_by_email provision insert_sso_user available_sso_username
    first_free base_name insert_identity settle sync_grants user_with_id drop_user_grants
    insert_grants touch_identity establish_sso_session open_session protocol_name
signed_in_again = refl

same_subject :
    (trimmed_identity plain runes_of plain_names carol).subject
    ≡ (trimmed_identity plain runes_of plain_names second_login.identity).subject
unfolding trimmed_identity
same_subject = refl

finish_sso-stable_example : ◌≡◌ {A = ℕ} 50 50
finish_sso-stable_example =
    finish_sso-stable plain runes_of plain_names provider_row first_login second_login carol_user
      carol_user quiet same_subject signed_in signed_in_again

-- "a.b" stands for a name with a dot.
abbrev splitting : ClaimOps
splitting = record {
  trim_space = λ s. s;
  split = λ s.
      if str_eq s "http://schemas.xmlsoap.org"
      then "http://schemas" ∷ "xmlsoap" ∷ "org" ∷ []
      else s ∷ [];
  equal_fold = λ s t. str_eq s t;
  print = λ c. "";
}

abbrev around : Surroundings
around = record {
  down_before = up;
  down = up;
  free = up;
  now = 100;
  hash = some "random";
  key = "session";
}

abbrev google : OidcOps
google = record {
  exchange = λ cfg redirect code verifier. some (some "jwt");
  verify = λ cfg raw. some (record {
    subject = "c-1";
    nonce = "n";
    claims =
        some (
          field "email" (text "carol@example.com")
            (field "email_verified" (text "true") none_left));
  });
}

abbrev started : SsoWeb
started = record {
  web = quiet;
  states =
      record {
        key = "t";
        state = record { provider_id = 40; nonce = "n"; verifier = "v"; request_id = "" };
      }
      ∷ [];
  logouts = [];
}

abbrev call : Callback trusting splitting runes_of plain_names (λ s. s) google
call = record {
  around = around;
  redis_down = false;
  origin = "https://nexus";
  path = "idp";
  code = "code";
}

oidc_callback-once_example :
    called trusting splitting runes_of plain_names
      (λ s. s)
      google
      call
      "t"
      (called trusting splitting runes_of plain_names (λ s. s) google call "t" started).1
    ≡ (
      problem failed_status failed_page,
      (called trusting splitting runes_of plain_names (λ s. s) google call "t" started).1,
    )
oidc_callback-once_example =
    oidc_callback-once trusting splitting runes_of plain_names (λ s. s) google call call "t" started
      refl

-- The first of the two calls does sign in.
first_callback :
    (called trusting splitting runes_of plain_names (λ s. s) google call "t" started).0
    ≡ ok (record carol_user { name = "carol@example.com" })
unfolding oidc_callback consume_sso_state load_identity_provider decrypt_identity_provider_config
    exchange_code finish_identity first_claim claim_values claim_bool walk member texts_of
    item_texts finish_sso trimmed_identity normalize_email signed_user find_or_link or_linked
    linked_user new_link or_provisioned user_by_email provision insert_sso_user
    available_sso_username first_free base_name insert_identity settle sync_grants user_with_id
    drop_user_grants insert_grants touch_identity establish_sso_session open_session protocol_name
first_callback = refl

abbrev saml_resumed : Resumed
saml_resumed = record {
  provider = record provider_row { protocol = saml };
  config = blank_config;
  state = record { provider_id = 40; nonce = ""; verifier = ""; request_id = "r" };
}

abbrev assertion : Assertion
assertion = record {
  name_id =
      some
        (record { format = "urn:oasis:names:tc:SAML:2.0:nameid-format:persistent"; value = "c-1" });
  attributes =
      record {
        name = "http://schemas.xmlsoap.org";
        friendly_name = "";
        values = "carol@example.com" ∷ [];
      }
      ∷ [];
}

accept_assertion-dotted_example :
    (accept_assertion trusting splitting runes_of plain_names
      (λ s. s)
      (λ sp ids. some assertion)
      around
      "https://nexus"
      saml_resumed
      started).0
    ≢ ok carol_user
accept_assertion-dotted_example =
    accept_assertion-dotted trusting splitting runes_of plain_names (λ s. s)
      (λ sp ids. some assertion) around "https://nexus" saml_resumed started carol_user
      "http://schemas" "xmlsoap" ("org" ∷ []) refl refl
