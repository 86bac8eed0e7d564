-- ===== src/Sso/Login.antt =====
-- What a verified identity leads to: finishSSO and establishSSOSession of internal/app/sso.go.
use netriun_nexus.Prelude.{
  ℕ, String, Bool, true, false, not, ◌∷◌, ◌||◌, str_eq, if◌then◌else◌, drop_where, Option, some,
  none, Result, ok, problem, Handler, pure, require, transaction, ◌>>=◌, ◌>>◌,
}
use netriun_nexus.Store.{Protocol, oidc, saml, IdentityProvider, User, numbered, Db}
use netriun_nexus.Text.{TextOps}
use netriun_nexus.Credentials.{UnicodeOps, normalize_email}
use netriun_nexus.Users.{answering}
use netriun_nexus.Sessions.{Web}
use netriun_nexus.Request.{available, exec, entry, append_entry}
use netriun_nexus.Sso.Names.{NameOps}
use netriun_nexus.Sso.Links.{SsoIdentity, find_or_link, touch_identity}
use netriun_nexus.Sso.Grants.{sync_grants}

-- Every failure sends the browser to the same page.
abbrev pub failed_status : ℕ
failed_status = 303

abbrev pub failed_page : String
failed_page = "/?sso=failed"

abbrev pub is_complete : SsoIdentity → Bool
is_complete identity =
    not (str_eq identity.subject "" || str_eq identity.email "" || not identity.email_verified)

abbrev pub is_address : Option String → Bool
is_address none = false
is_address (some _) = true

unfoldable pub protocol_name : Protocol → String
protocol_name oidc = "oidc"
protocol_name saml = "saml"

unfoldable pub establish_sso_session :
    (redis_down : Bool) (key : String)
    → User
    → IdentityProvider
    → (subject : String) → Handler Web (Unit {0})
establish_sso_session redis_down key u p subject web =
    if redis_down then (problem 503 "Authentication service unavailable", web) else (
      ok tt,
      record web {
        sessions =
            record {
              key = key;
              user_id = u.id;
              version = u.version;
              sso_provider = p.public_id;
              sso_protocol = protocol_name p.protocol;
              sso_subject = subject;
            }
            ∷ drop_where (λ s. str_eq s.key key) web.sessions;
      },
    )

abbrev in_db : {A : Type 0} → Result A × Db → Web → Result A × Web
in_db (r, db) web = (r, record web { db = db })

abbrev pub on_db : {A : Type 0} → Handler Db A → Handler Web A
on_db m web = in_db (m web.db) web

abbrev noted : (down : Bool) → User → ℕ → Handler Web (Unit {0})
noted down u provider web = (
  ok tt,
  if down
      then web
      else record web { db = append_entry (entry u "auth.sso_login" (numbered provider)) web.db },
)

-- What follows once the user is known.
unfoldable pub settle : (down : ℕ → Bool) → IdentityProvider → SsoIdentity → User → Handler Db User
settle down p identity u = do
  exec (down 7) (touch_identity p.id identity)
  sync_grants down p.workspace_id p.id u.id identity.groups
  available (down 10)
  pure u

unfoldable pub open_session :
    (down : ℕ → Bool) (key : String)
    → IdentityProvider
    → (subject : String) → User
    → Handler Web User
open_session down key p subject u = do
  noted (down 11) u p.id
  establish_sso_session (down 12) key u p subject
  pure u

module _ (text : TextOps) (uni : UnicodeOps) (names : NameOps) where
  open text use {trim_space, to_lower}

  -- The transaction, under the advisory lock of the workspace.
  unfoldable pub signed_user :
      (down free : ℕ → Bool) (now : ℕ) (hash : Option String)
      → IdentityProvider
      → SsoIdentity
      → Handler Db User
  signed_user down free now hash p identity = transaction (do
    available (down 0)
    u ← find_or_link text uni names down free now hash p identity
    settle down p identity u)

  unfoldable pub trimmed_identity : SsoIdentity → SsoIdentity
  trimmed_identity identity = record identity {
    subject = trim_space identity.subject;
    email = to_lower (trim_space identity.email);
    username = trim_space identity.username;
  }

  -- `key` is the digest of the new session's token.
  unfoldable pub finish_sso :
      (down free : ℕ → Bool) (now : ℕ) (hash : Option String) (key : String)
      → IdentityProvider
      → SsoIdentity
      → Handler Web User
  finish_sso down free now hash key p raw =
      let identity = trimmed_identity raw in
      require (is_complete identity) failed_status failed_page
      >> (require (is_address (normalize_email text uni identity.email)) failed_status failed_page
          >> (on_db
                (answering failed_status failed_page (signed_user down free now hash p identity))
              >>= open_session down key p identity.subject))
