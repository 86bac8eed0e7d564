-- ===== src/Signup.antt =====
-- signup and verifyEmail of internal/app/auth.go. The model of signup begins after its count of
-- attempts; an answer other than an error is `ok`.
pub mod Owners
pub mod Resend
pub mod Tokens
use netriun_nexus.Prelude.{
  ℕ, String, Bool, true, false, not, List, [], ◌∷◌, ◌++◌, ◌+◌, ◌&&◌, ◌||◌, ◌==◌, str_eq, ltb,
  if◌then◌else◌, any, find, change, Option, some, none, Result, ok, problem, Handler, pure, fail,
  require, row_or, transaction, ◌>>=◌, ◌>>◌,
}
use netriun_nexus.Store.{
  Capability, AccessRole, account_view, account_manage, compute_view, compute_operate, eds_view,
  eds_operate, eds_manage, billing_view, billing_sync, admin, User, Account, Workspace, Settings,
  VerificationToken, named, Db,
}
use netriun_nexus.Text.{TextOps}
use netriun_nexus.Credentials.{UnicodeOps, normalize_email, strong_password}
use netriun_nexus.Users.{Profile, is_open, is_refused, use_tokens, add_token, answering}
use netriun_nexus.Request.{Body, decode, available, exec, query_row, audit, db_message}

pub record SignupInput : Type 0 where
  pub workspace : String
  pub username : String
  pub email : String
  pub password : String

-- What the random tokens are: the slug of the workspace and the digest of the verification token.
pub record Fresh : Type 0 where
  pub slug : String
  pub digest : String

-- `t.token_digest=$1 AND t.used_at IS NULL AND t.expires_at>now()`.
abbrev pub is_valid_token : ℕ → String → VerificationToken → Bool
is_valid_token now digest t =
    str_eq t.token_digest digest
    && elim t.used_at [ none ↦ true | some _ ↦ false ]
    && ltb now t.expires_at

-- The token's user, through the join with users.
unfoldable pub token_user : ℕ → String → Db → Option Account
token_user now digest db = elim (find (is_valid_token now digest) db.tokens) [
  | none ↦ none
  | some t ↦ find (λ x. x.id == t.user_id) db.users
]

abbrev pub verified : ℕ → Account → Account
verified now x = record x {
  email_verified_at = elim x.email_verified_at [ some t ↦ some t | none ↦ some now ];
}

unfoldable pub mark_verified : ℕ → ℕ → Db → Db
mark_verified now id db = record db { users = change (λ x. x.id == id) (verified now) db.users }

abbrev as_user : Account → User
as_user x = record {
  id = x.id;
  workspace_id = x.workspace_id;
  name = x.username;
  role = x.role;
  is_owner = x.is_owner;
  version = x.session_version;
}

-- INSERT INTO settings(workspace_id); the default retention is that of the table.
unfoldable pub add_settings : ℕ → Handler Db (Unit {0})
add_settings workspace db =
    if any (λ (s : Settings). s.workspace_id == workspace) db.settings
    then (problem 409 db_message, db)
    else (
      ok tt,
      record db {
        settings =
            db.settings ++ record { workspace_id = workspace; audit_retention_days = 90 } ∷ [];
      },
    )

module _ (ops : TextOps) (uni : UnicodeOps) (hash : String → Option String) where
  open ops use {trim_space, rune_count, len}
  open uni use {valid_string}

  abbrev owner : ℕ → ℕ → String → String → String → Account
  owner id workspace username email hashed = record {
    id = id;
    workspace_id = workspace;
    username = username;
    email = email;
    email_verified_at = none;
    password_hash = hashed;
    role = admin;
    is_owner = true;
    session_version = 1;
  }

  abbrev new_workspace : ℕ → String → String → Workspace
  new_workspace id name slug = record {
    id = id;
    name = name;
    slug = slug;
    user_limit = 6;
    sso_required = false;
  }

  -- The error of strongPassword.
  abbrev password_message : String → String
  password_message value =
      if ltb (len value) 10 || ltb 72 (len value) || not (valid_string value)
      then "password must be 10–72 bytes"
      else "password must include uppercase, lowercase, number, and symbol"

  -- slug is UNIQUE; the ids are those that the two statements return.
  -- The trigger workspaces_seed_access_roles, which gives a new workspace its built-in roles.
  abbrev pub seeded :
      (workspace id : ℕ) (key name description : String)
      → List Capability
      → List AccessRole
      → List AccessRole
  seeded workspace id key name description permissions roles =
      if any (λ (r : AccessRole). r.workspace_id == workspace && str_eq r.key key) roles
      then roles
      else roles
        ++ record {
          id = id;
          workspace_id = workspace;
          key = key;
          name = name;
          description = description;
          permissions = permissions;
          built_in = true;
        }
          ∷ []

  abbrev pub seed_roles : (workspace : ℕ) → List AccessRole → List AccessRole
  seed_roles workspace roles =
      seeded workspace (workspace + 3) "account_manager" "Account Manager"
        "Operate resources, manage the cloud connection, and synchronize billing"
        (account_view ∷ account_manage ∷ compute_view ∷ compute_operate ∷ eds_view ∷ eds_operate
          ∷ eds_manage ∷ billing_view ∷ billing_sync ∷ [])
        (seeded workspace (workspace + 2) "operator" "Operator"
          "Viewer access plus compute and desktop lifecycle operations"
          (account_view ∷ compute_view ∷ compute_operate ∷ eds_view ∷ eds_operate ∷ billing_view
            ∷ [])
          (seeded workspace (workspace + 1) "viewer" "Viewer"
            "Read cloud inventory, service details, and stored billing reports"
            (account_view ∷ compute_view ∷ eds_view ∷ billing_view ∷ []) roles))

  unfoldable pub insert_workspace : String → String → Handler Db ℕ
  insert_workspace name slug db =
      if any (λ (w : Workspace). str_eq w.slug slug) db.workspaces
      then (problem 409 db_message, db)
      else (
        ok db.next_id,
        record db {
          workspaces = db.workspaces ++ new_workspace db.next_id name slug ∷ [];
          access_roles = seed_roles db.next_id db.access_roles;
          next_id = db.next_id + 4;
        },
      )

  unfoldable pub insert_owner : ℕ → String → String → String → Handler Db Account
  insert_owner workspace username email hashed db =
      let x = owner db.next_id workspace username email hashed in
      if is_refused ops uni db.next_id (record { username = username; email = email; role = admin })
        db
      then (problem 409 db_message, db)
      else (ok x, record db { users = db.users ++ x ∷ []; next_id = db.next_id + 1 })

  unfoldable pub open_workspace :
      (down : ℕ → Bool)
      → (now : ℕ) → Fresh
      → (workspace username email hashed : String) → Handler Db Account
  unfolding insert_workspace insert_owner
  open_workspace down now fresh workspace username email hashed = transaction (do
    available (down 1)
    ws ← insert_workspace workspace fresh.slug
    available (down 2)
    x ← insert_owner ws username email hashed
    available (down 3)
    add_settings ws
    available (down 4)
    add_token now x.id fresh.digest
    available (down 5)
    pure x)

  unfoldable pub signup :
      (down : ℕ → Bool) (sent : Bool) → (now : ℕ) → Fresh → Body SignupInput → Handler Db (Unit {0})
  unfolding open_workspace
  signup down sent now fresh body = do
    raw ← decode body
    let workspace = trim_space raw.workspace
    let username = trim_space raw.username
    require (not (ltb (rune_count workspace) 2 || ltb 100 (rune_count workspace))) 400
        "Workspace name must be 2–100 characters"
    require (not (ltb (rune_count username) 3 || ltb 100 (rune_count username))) 400
        "Owner username must be 3–100 characters"
    email ← row_or (normalize_email ops uni raw.email) 400 "Enter a valid email address"
    require (strong_password ops uni raw.password) 400 (password_message raw.password)
    hashed ← row_or (hash raw.password) 500 "Could not create account"
    require (not (down 0)) 503 "Account service unavailable"
    x ←
        answering 409 "Email or username is already in use"
          (open_workspace down now fresh workspace username email hashed)
    audit (down 6) (as_user x) "workspace.created" (named fresh.slug)
    require sent 503
        "Account created, but the verification email could not be sent; use resend verification"

unfoldable pub confirm : (down : ℕ → Bool) → ℕ → String → Handler Db Account
confirm down now digest = transaction (do
  available (down 0)
  x ← query_row (down 1) (token_user now digest)
  exec (down 2) (mark_verified now x.id)
  exec (down 3) (use_tokens now x.id)
  available (down 4)
  pure x)

-- verifyEmail: every problem is the redirection to verification=invalid. The target of the entry is
-- the id of the token, which the model's tokens have not.
unfoldable pub verify_email :
    (ops : TextOps) (digest : String → String) (down : ℕ → Bool)
    → (now : ℕ) → String
    → Handler Db (Unit {0})
verify_email ops digest down now raw = do
  require (not (str_eq (ops.trim_space raw) "")) 303 "/?verification=invalid"
  x ← confirm down now (digest (ops.trim_space raw))
  audit (down 5) (as_user x) "auth.email_verified" (named (digest (ops.trim_space raw)))
