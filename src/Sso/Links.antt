-- ===== src/Sso/Links.antt =====
-- The user that the subject of an identity provider is linked to, found or created: the queries of
-- finishSSO in internal/app/sso.go. The claims that are stored with a link are left out; nothing
-- reads them.
use netriun_nexus.Prelude.{
  gets, ℕ, String, Bool, false, not, List, [], ◌∷◌, ◌++◌, ◌+◌, ◌&&◌, ◌||◌, ◌==◌, str_eq, ltb, leb,
  if◌then◌else◌, any, find, change, Option, some, none, ok, problem, Handler, pure, fail, require,
  row_or, ◌>>=◌, ◌>>◌,
}
use netriun_nexus.Store.{IdentityProvider, ExternalIdentity, Account, User, user, Db}
use netriun_nexus.Text.{TextOps}
use netriun_nexus.Credentials.{UnicodeOps}
use netriun_nexus.Users.{Profile, is_refused, seats}
use netriun_nexus.Sessions.{user_row, user_with_id}
use netriun_nexus.Request.{available, query, db_message}
use netriun_nexus.Sso.Names.{NameOps, available_sso_username}

-- `ssoIdentity`.
pub record SsoIdentity : Type 0 where
  pub subject : String
  pub email : String
  pub email_verified : Bool
  pub username : String
  pub groups : List String

-- FROM external_identities e JOIN users u … WHERE e.provider_id=$1 AND e.subject=$2.
abbrev pub is_identity : ℕ → String → ExternalIdentity → Bool
is_identity provider subject e = e.provider_id == provider && str_eq e.subject subject

unfoldable pub linked_user : ℕ → String → Db → Option User
linked_user provider subject db =
    elim (find (is_identity provider subject) db.external_identities) [
      | none ↦ none
      | some e ↦ user_with_id e.user_id db
    ]

unfoldable pub touch_identity : ℕ → SsoIdentity → Db → Db
touch_identity provider identity db = record db {
  external_identities =
      change (is_identity provider identity.subject)
        (λ (e : ExternalIdentity). record e { email = identity.email }) db.external_identities;
}

module _ (text : TextOps) (uni : UnicodeOps) (names : NameOps) where
  open text use {rune_count}
  open uni use {sql_lower}

  abbrev pub has_email : ℕ → String → Account → Bool
  has_email workspace email x = x.workspace_id == workspace && str_eq (sql_lower x.email) email

  unfoldable pub user_by_email : ℕ → String → Db → Option User
  user_by_email workspace email db = elim (find (has_email workspace email) db.users) [
    | none ↦ none
    | some x ↦ user_row x db
  ]

  abbrev sso_account : ℕ → (now workspace : ℕ) → String → Profile → Account
  sso_account id now workspace hash p = record {
    id = id;
    workspace_id = workspace;
    username = p.username;
    email = p.email;
    email_verified_at = some now;
    password_hash = hash;
    role = user;
    is_owner = false;
    session_version = 1;
  }

  unfoldable pub insert_sso_user : (now workspace : ℕ) → String → Profile → Handler Db User
  insert_sso_user now workspace hash p db =
      if is_refused text uni db.next_id p db then (problem 409 db_message, db) else (
        ok (record {
          id = db.next_id;
          workspace_id = workspace;
          name = p.username;
          role = user;
          is_owner = false;
          version = 1;
        }),
        record db {
          users = db.users ++ sso_account db.next_id now workspace hash p ∷ [];
          next_id = db.next_id + 1;
        },
      )

  -- A first login creates the user where the provider may: `hash` is what bcrypt makes of a random
  -- password.
  unfoldable pub provision :
      (down free : ℕ → Bool) (now : ℕ) (hash : Option String) → ℕ → SsoIdentity → Handler Db User
  provision down free now hash workspace identity = do
    seat ← query (down 3) (seats workspace)
    (members, limit) ← row_or seat 404 ""
    require (not (leb limit members)) 403 "workspace user limit reached"
    available (down 4)
    name ← gets (available_sso_username text uni names free identity.username identity.email)
    hashed ← row_or hash 500 ""
    available (down 5)
    insert_sso_user now workspace hashed
        (record { username = name; email = identity.email; role = user })

  -- UNIQUE(provider_id,subject), UNIQUE(provider_id,user_id) and CHECK(length(subject)).
  abbrev pub is_refused_identity : ExternalIdentity → Db → Bool
  is_refused_identity e db =
      ltb (rune_count e.subject) 1
      || ltb 2048 (rune_count e.subject)
      || any
          (λ (x : ExternalIdentity).
            x.provider_id == e.provider_id
            && (str_eq x.subject e.subject || x.user_id == e.user_id))
          db.external_identities

  unfoldable pub insert_identity : ExternalIdentity → Handler Db (Unit {0})
  insert_identity e db =
      if is_refused_identity e db
      then (problem 409 db_message, db)
      else (ok tt, record db { external_identities = db.external_identities ++ e ∷ [] })

  -- The workspace's user of the address, or a new one.
  unfoldable pub or_provisioned :
      (down free : ℕ → Bool) (now : ℕ) (hash : Option String)
      → IdentityProvider
      → SsoIdentity
      → Option User
      → Handler Db User
  or_provisioned down free now hash p identity (some u) = pure u
  or_provisioned down free now hash p identity none =
      if p.jit_provisioning
      then provision down free now hash p.workspace_id identity
      else fail 404 ""

  abbrev pub new_identity : IdentityProvider → SsoIdentity → User → ExternalIdentity
  new_identity p identity u = record {
    workspace_id = p.workspace_id;
    provider_id = p.id;
    user_id = u.id;
    subject = identity.subject;
    email = identity.email;
  }

  -- A subject without a link gets one.
  unfoldable pub new_link :
      (down free : ℕ → Bool) (now : ℕ) (hash : Option String)
      → IdentityProvider
      → SsoIdentity
      → Handler Db User
  new_link down free now hash p identity = do
    found ← query (down 2) (user_by_email p.workspace_id identity.email)
    u ← or_provisioned down free now hash p identity found
    available (down 6)
    insert_identity (new_identity p identity u)
    pure u

  unfoldable pub or_linked :
      (down free : ℕ → Bool) (now : ℕ) (hash : Option String)
      → IdentityProvider
      → SsoIdentity
      → Option User
      → Handler Db User
  or_linked down free now hash p identity (some u) = pure u
  or_linked down free now hash p identity none = new_link down free now hash p identity

  unfoldable pub find_or_link :
      (down free : ℕ → Bool) (now : ℕ) (hash : Option String)
      → IdentityProvider
      → SsoIdentity
      → Handler Db User
  find_or_link down free now hash p identity =
      query (down 1) (linked_user p.id identity.subject) >>= or_linked down free now hash p identity
