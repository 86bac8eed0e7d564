-- ===== src/Sso/Providers.antt =====
-- The identity providers of a workspace and whether it requires them: saveIdentityProvider,
-- deleteIdentityProvider and saveSSOSettings of internal/app/sso.go.
use netriun_nexus.Prelude.{
  ℕ, String, Bool, true, false, not, [], ◌∷◌, ◌++◌, ◌+◌, ◌&&◌, ◌||◌, ◌==◌, str_eq, ltb,
  if◌then◌else◌, any, find, change, drop_where, Option, some, none, Result, ok, problem, Handler,
  pure, fail, require, row_or, ◌>>=◌, ◌>>◌,
}
use netriun_nexus.Store.{
  Protocol, oidc, saml, IdentityProvider, ExternalIdentity, GroupMapping, SsoGrant, Workspace, User,
  numbered, named, Db,
}
use netriun_nexus.Text.{TextOps}
use netriun_nexus.Request.{
  Body, Parsed, decode, require_admin, path_id, query_row, available, exec, audit, db_message,
  no_rows,
}
use netriun_nexus.Sso.ProviderConfig.{
  IdentityProviderConfig, SsoOps, merge_identity_provider_secrets,
  normalize_identity_provider_config, saml_service_provider, loaded, refused, panicked,
  decrypt_identity_provider_config,
}

-- `identityProviderInput`.
pub record IdentityProviderInput : Type 0 where
  pub name : String
  pub protocol : String
  pub enabled : Bool
  pub jit_provisioning : Bool
  pub config : IdentityProviderConfig

abbrev protocol_of : String → Option Protocol
protocol_of text =
    if str_eq text "oidc" then some oidc else if str_eq text "saml" then some saml else none

abbrev pub is_protocol : (p q : Protocol) → Bool
is_protocol oidc oidc = true
is_protocol saml saml = true
is_protocol _ _ = false

abbrev pub is_provider : ℕ → ℕ → IdentityProvider → Bool
is_provider workspace id p = p.id == id && p.workspace_id == workspace

abbrev pub is_enabled : ℕ → IdentityProvider → Bool
is_enabled workspace p = p.workspace_id == workspace && p.enabled

abbrev pub is_other : ℕ → ℕ → IdentityProvider → Bool
is_other workspace id p = is_enabled workspace p && not (p.id == id)

-- SELECT w.sso_required,EXISTS(… other …) FROM workspaces w WHERE w.id=$1.
abbrev pub enforcement : ℕ → ℕ → Db → Option (Bool × Bool)
enforcement workspace id db = elim (find (λ (w : Workspace). w.id == workspace) db.workspaces) [
  | none ↦ none
  | some w ↦ some (w.sso_required, any (is_other workspace id) db.identity_providers)
]

-- The provider that a request is about, with the configuration that it asks for.
pub record Draft : Type 0 where
  pub id : ℕ
  pub public_id : String
  pub config : IdentityProviderConfig

-- The values of a row that a request sets.
pub record Values : Type 0 where
  pub name : String
  pub enabled : Bool
  pub jit_provisioning : Bool
  pub config_encrypted : String

abbrev pub new_provider : ℕ → (workspace : ℕ) → String → Protocol → Values → IdentityProvider
new_provider id workspace public_id protocol v = record {
  id = id;
  workspace_id = workspace;
  public_id = public_id;
  name = v.name;
  protocol = protocol;
  enabled = v.enabled;
  jit_provisioning = v.jit_provisioning;
  config_encrypted = v.config_encrypted;
}

abbrev pub edited_provider : Values → IdentityProvider → IdentityProvider
edited_provider v p = record p {
  name = v.name;
  enabled = v.enabled;
  jit_provisioning = v.jit_provisioning;
  config_encrypted = v.config_encrypted;
}

-- An UPDATE of a workspace that still requires its providers keeps one enabled.
unfoldable pub keep_enforcement : (down : Bool) → ℕ → ℕ → Handler Db (Unit {0})
keep_enforcement down workspace id =
    query_row down (enforcement workspace id) >>= λ (required, another).
    require (not (required && not another)) 409
      "Disable SSO enforcement before disabling the last identity provider"

module _ (text : TextOps) where
  open text use {rune_count}

  -- CHECK(length(name)) and UNIQUE(workspace_id,name).
  abbrev pub is_refused : ℕ → ℕ → Values → Db → Bool
  is_refused workspace self v db =
      ltb (rune_count v.name) 1
      || ltb 100 (rune_count v.name)
      || any
          (λ (p : IdentityProvider).
            not (p.id == self) && p.workspace_id == workspace && str_eq p.name v.name)
          db.identity_providers

  -- CHECK(length(public_id)) and UNIQUE(public_id).
  abbrev pub is_bad_public_id : String → Db → Bool
  is_bad_public_id public_id db =
      ltb (rune_count public_id) 20
      || ltb 100 (rune_count public_id)
      || any (λ (p : IdentityProvider). str_eq p.public_id public_id) db.identity_providers

  abbrev pub insert_provider : ℕ → String → Protocol → Values → Handler Db ℕ
  insert_provider workspace public_id protocol v db =
      if is_refused workspace db.next_id v db || is_bad_public_id public_id db
      then (problem 409 db_message, db)
      else (
        ok db.next_id,
        record db {
          identity_providers =
              db.identity_providers ++ new_provider db.next_id workspace public_id protocol v ∷ [];
          next_id = db.next_id + 1;
        },
      )

  abbrev pub update_provider : ℕ → ℕ → Values → Handler Db ℕ
  update_provider workspace id v db =
      if any (is_provider workspace id) db.identity_providers
      then if is_refused workspace id v db then (problem 409 db_message, db) else (
        ok id,
        record db {
          identity_providers =
              change (is_provider workspace id) (edited_provider v) db.identity_providers;
        },
      )
      else (problem 404 no_rows, db)

  abbrev pub store_provider : (post : Bool) → ℕ → Draft → Protocol → Values → Handler Db ℕ
  store_provider post workspace draft protocol v =
      if post
      then insert_provider workspace draft.public_id protocol v
      else update_provider workspace draft.id v

module _ (ops : SsoOps) where
  open ops use {text, trim_slashes, entity_id, discovers, encode, encrypt}

  abbrev pub same_issuer : Protocol → (previous current : IdentityProviderConfig) → Bool
  same_issuer saml previous current = true
  same_issuer oidc previous current =
      str_eq (trim_slashes (text.trim_space previous.issuer_url))
        (trim_slashes (text.trim_space current.issuer_url))

  abbrev same_text : (o p : Option String) → Bool
  same_text (some s) (some t) = str_eq s t
  same_text _ _ = false

  abbrev pub same_entity : Protocol → (previous current : IdentityProviderConfig) → Bool
  same_entity oidc previous current = true
  same_entity saml previous current =
      str_eq current.idp_metadata previous.idp_metadata
      || same_text (entity_id previous.idp_metadata) (entity_id current.idp_metadata)

  -- The branch of PUT up to the normal form.
  unfoldable pub edited_draft :
      (down : ℕ → Bool)
      → ℕ
      → Parsed
      → Protocol
      → (enabled : Bool) → IdentityProviderConfig
      → Handler Db Draft
  edited_draft down workspace path protocol enabled config = do
    id ← path_id path
    p ← query_row (down 0) (λ (db : Db). find (is_provider workspace id) db.identity_providers)
    require (is_protocol p.protocol protocol) 400 "Create a new provider to change the SSO protocol"
    previous ← row_or (decrypt_identity_provider_config ops p.config_encrypted) 409 db_message
    let current = merge_identity_provider_secrets config previous
    require (same_issuer protocol previous current) 400
        "Create a new provider to change the OIDC issuer"
    require (same_entity protocol previous current) 400
        "Create a new provider to change the SAML IdP entity ID"
    if enabled then pure tt else keep_enforcement (down 1) workspace id
    pure (record { id = id; public_id = p.public_id; config = current })

  -- An enabled provider must answer, or load. A panic ends the request without an answer, which is
  -- status 0 here.
  abbrev pub reachable :
      Protocol → (origin public_id : String) → IdentityProviderConfig → Handler Db (Unit {0})
  reachable oidc origin public_id cfg =
      require (discovers cfg.issuer_url) 400
        "OIDC discovery failed; verify the HTTPS issuer and try again"
  reachable saml origin public_id cfg = elim (saml_service_provider ops origin public_id cfg) [
    | loaded _ ↦ pure tt
    | refused ↦ fail 400 "SAML metadata or service-provider certificate validation failed"
    | panicked ↦ fail 0 ""
  ]

  abbrev pub answered : {A : Type 0} → Result A → Handler Db A
  answered r db = (r, db)

  -- The normal form, tried and encoded.
  unfoldable pub prepare_config :
      (origin public_id : String)
      → Protocol
      → (enabled : Bool) → IdentityProviderConfig
      → Handler Db String
  prepare_config origin public_id protocol enabled draft = do
    config ← answered (normalize_identity_provider_config ops protocol origin public_id draft)
    if enabled then reachable protocol origin public_id config else pure tt
    row_or (encode config) 500 "Could not encode identity-provider configuration"

  abbrev pub values_of : IdentityProviderInput → (cipher : String) → Values
  values_of inp cipher = record {
    name = inp.name;
    enabled = inp.enabled;
    jit_provisioning = inp.jit_provisioning;
    config_encrypted = cipher;
  }

  unfoldable pub write_draft :
      (down : ℕ → Bool) (nonce : String)
      → User
      → (post : Bool) → Protocol
      → IdentityProviderInput
      → Draft
      → (encoded : String) → Handler Db ℕ
  write_draft down nonce u post protocol inp draft encoded = do
    available (down 2)
    id ←
        store_provider text post u.workspace_id draft protocol
          (values_of inp (encrypt nonce encoded))
    audit (down 3) u "identity_provider.saved" (numbered id)
    pure id

  -- The rest of the handler, from the normal form on.
  unfoldable pub store_draft :
      (down : ℕ → Bool) (origin nonce : String)
      → User
      → (post : Bool) → Protocol
      → IdentityProviderInput
      → Draft
      → Handler Db ℕ
  store_draft down origin nonce u post protocol inp draft =
      prepare_config origin draft.public_id protocol inp.enabled draft.config
      >>= write_draft down nonce u post protocol inp draft

  -- The provider that the request is about.
  unfoldable pub draft_of :
      (down : ℕ → Bool) (token : String)
      → ℕ
      → (post : Bool) → Parsed
      → Protocol
      → IdentityProviderInput
      → Handler Db Draft
  draft_of down token workspace post path protocol inp =
      if post
      then pure (record { id = 0; public_id = token; config = inp.config })
      else edited_draft down workspace path protocol inp.enabled inp.config

  -- `token` is the public id of a new provider.
  unfoldable pub save_identity_provider :
      (down : ℕ → Bool) (origin token nonce : String)
      → User
      → (post : Bool) → Parsed
      → Body IdentityProviderInput
      → Handler Db ℕ
  save_identity_provider down origin token nonce u post path body = do
    require_admin u
    raw ← decode body
    let inp = record raw { name = text.trim_space raw.name }
    require (not (ltb (text.len inp.name) 1 || ltb 100 (text.len inp.name))) 400
        "Provide a name and choose OIDC or SAML"
    protocol ←
        row_or (protocol_of (text.to_lower (text.trim_space raw.protocol))) 400
          "Provide a name and choose OIDC or SAML"
    draft_of down token u.workspace_id post path protocol inp
        >>= store_draft down origin nonce u post protocol inp

-- DELETE FROM identity_providers, with what the foreign keys delete.
unfoldable pub remove_provider : ℕ → ℕ → Db → Db
remove_provider workspace id db = record db {
  identity_providers = drop_where (is_provider workspace id) db.identity_providers;
  external_identities =
      drop_where (λ (e : ExternalIdentity). e.provider_id == id) db.external_identities;
  group_mappings = drop_where (λ (m : GroupMapping). m.provider_id == id) db.group_mappings;
  sso_grants = drop_where (λ (g : SsoGrant). g.provider_id == id) db.sso_grants;
}

unfoldable pub delete_provider_rows : ℕ → ℕ → Handler Db (Unit {0})
delete_provider_rows workspace id db =
    if any (is_provider workspace id) db.identity_providers
    then (ok tt, remove_provider workspace id db)
    else (problem 404 "Identity provider not found", db)

-- SELECT w.sso_required,p.enabled,EXISTS(… other …) FROM identity_providers p JOIN workspaces w.
abbrev pub deletion : ℕ → ℕ → Db → Option (Bool × Bool × Bool)
deletion workspace id db = elim (find (is_provider workspace id) db.identity_providers) [
  | none ↦ none
  | some p ↦ elim (enforcement workspace id db) [
    | none ↦ none
    | some (required, another) ↦ some (required, p.enabled, another)
  ]
]

unfoldable pub check_deletion : (down : Bool) → ℕ → ℕ → Handler Db (Unit {0})
check_deletion down workspace id =
    query_row down (deletion workspace id) >>= λ (required, deleting, another).
    require (not (required && deleting && not another)) 409
      "Disable SSO enforcement before deleting the last identity provider"

unfoldable pub delete_identity_provider : (down : ℕ → Bool) → User → Parsed → Handler Db (Unit {0})
delete_identity_provider down u path = do
  require_admin u
  id ← path_id path
  check_deletion (down 0) u.workspace_id id
  available (down 1)
  delete_provider_rows u.workspace_id id
  audit (down 2) u "identity_provider.deleted" (numbered id)

abbrev pub set_required : ℕ → Bool → Db → Db
set_required workspace required db = record db {
  workspaces =
      change (λ (w : Workspace). w.id == workspace)
        (λ (w : Workspace). record w { sso_required = required }) db.workspaces;
}

unfoldable pub some_enabled : (down : Bool) → ℕ → Handler Db (Unit {0})
some_enabled down workspace =
    query_row down (λ (db : Db). some (any (is_enabled workspace) db.identity_providers))
    >>= λ enabled. require enabled 400 "Enable at least one identity provider before requiring SSO"

unfoldable pub allow_enforcement : (down : Bool) → ℕ → (required : Bool) → Handler Db (Unit {0})
allow_enforcement down workspace required =
    if required then some_enabled down workspace else pure tt

-- The body is the field sso_required.
unfoldable pub save_sso_settings : (down : ℕ → Bool) → User → Body Bool → Handler Db (Unit {0})
save_sso_settings down u body = do
  require_admin u
  required ← decode body
  allow_enforcement (down 0) u.workspace_id required
  exec (down 1) (set_required u.workspace_id required)
  audit (down 2) u "sso.enforcement_updated" (named "")
