-- ===== src/Users.antt =====
-- The users of a workspace: saveUser and deleteUser of internal/app/admin.go, with the verification
-- mail that internal/app/auth.go sends.
pub mod Owners
use netriun_nexus.Prelude.{
  ℕ, String, Bool, true, false, not, List, [], ◌∷◌, ◌++◌, ◌+◌, ◌&&◌, ◌||◌, ◌==◌, str_eq, ltb, leb,
  if◌then◌else◌, any, find, change, drop_where, count_where, Option, some, none, Result, ok,
  problem, Handler, pure, fail, require, row_or, gets, transaction, ◌>>=◌, ◌>>◌,
}
use netriun_nexus.Store.{
  UserRole, admin, user, User, Account, Workspace, Membership, SsoGrant, ExternalIdentity,
  Assignment, VerificationToken, AuditEntry, Principal, person, team, numbered, Db,
}
use netriun_nexus.Text.{TextOps}
use netriun_nexus.Credentials.{UnicodeOps, normalize_email, strong_password}
use netriun_nexus.Request.{
  Body, Parsed, decode, require_admin, path_id, query, query_row, available, exec, audit,
  db_message, no_rows,
}

pub record UserInput : Type 0 where
  pub username : String
  pub email : String
  pub password : String
  pub role : String

abbrev pub user_role : String → Option UserRole
user_role text =
    if str_eq text "admin" then some admin else if str_eq text "user" then some user else none

abbrev pub is_admin_role : UserRole → Bool
is_admin_role admin = true
is_admin_role user = false

-- What the check of name, address and role lets through.
pub record Profile : Type 0 where
  pub username : String
  pub email : String
  pub role : UserRole

abbrev pub is_row : ℕ → ℕ → Account → Bool
is_row workspace id x = x.id == id && x.workspace_id == workspace

abbrev pub is_member : ℕ → Account → Bool
is_member workspace x = x.workspace_id == workspace

-- SELECT count(*),max(w.user_limit): of no row the maximum is NULL, which Scan refuses.
abbrev pub seats : ℕ → Db → Option (ℕ × ℕ)
seats workspace db = elim (find (λ w. w.id == workspace) db.workspaces) [
  | none ↦ none
  | some w ↦
      let members = count_where (is_member workspace) db.users in
      if members == 0 then none else some (members, w.user_limit)
]

-- The changes that end an answer of another status: `problem(w, status, message)` on any error.
abbrev answer {ℓ} : {S A : Type ℓ} → ℕ → String → Result A × S → Result A × S
answer status message (ok a, s) = (ok a, s)
answer status message (problem c t, s) = (problem status message, s)

abbrev pub answering {ℓ} : {S A : Type ℓ} → ℕ → String → (S → Result A × S) → S → Result A × S
answering status message m s = answer status message (m s)

-- UPDATE email_verification_tokens SET used_at=now() WHERE user_id=$1 AND used_at IS NULL.
abbrev pub is_open : ℕ → VerificationToken → Bool
is_open id t = t.user_id == id && elim t.used_at [ none ↦ true | some _ ↦ false ]

unfoldable pub use_tokens : ℕ → ℕ → Db → Db
use_tokens now id db = record db {
  tokens = change (is_open id) (λ t. record t { used_at = some now }) db.tokens;
}

-- now()+interval '24 hours', in seconds.
abbrev pub token_life : ℕ
token_life = 86400

unfoldable pub add_token : ℕ → ℕ → String → Handler Db (Unit {0})
add_token now id digest db =
    if any (λ t. str_eq t.token_digest digest) db.tokens then (problem 409 db_message, db) else (
      ok tt,
      record db {
        tokens =
            db.tokens
            ++ record {
              user_id = id;
              token_digest = digest;
              expires_at = now + token_life;
              used_at = none;
            }
              ∷ [];
      },
    )

-- sendNewVerification: `sent` is what the mail server makes of the message.
unfoldable pub send_new_verification :
    (down : ℕ → Bool) (sent : Bool) → ℕ → String → ℕ → Handler Db (Unit {0})
unfolding use_tokens add_token
send_new_verification down sent now digest id = do
  exec (down 0) (use_tokens now id)
  available (down 1)
  add_token now id digest
  require sent 503 "mail"

unfoldable pub notify :
    (down : ℕ → Bool) (sent : Bool) → ℕ → String → ℕ → (changed : Bool) → Handler Db (Unit {0})
unfolding send_new_verification
notify down sent now digest id changed =
    if changed
    then answering 503
        "User saved, but the verification email could not be sent; try saving the address again"
        (send_new_verification down sent now digest id)
    else pure tt

module _ (ops : TextOps) (uni : UnicodeOps) where
  open ops use {trim_space, len, rune_count}
  open uni use {equal_fold, sql_lower}

  -- The unique indexes on lower(username) and lower(email), which span all workspaces, and the
  -- CHECK on the length of a name.
  abbrev pub is_refused : ℕ → Profile → Db → Bool
  is_refused self p db =
      ltb (rune_count p.username) 3
      || ltb 100 (rune_count p.username)
      || any
          (λ x.
            not (x.id == self)
            && (str_eq (sql_lower x.username) (sql_lower p.username)
                || str_eq (sql_lower x.email) (sql_lower p.email)))
          db.users

  abbrev pub check_profile : UserInput → Option Profile
  check_profile inp =
      let name = trim_space inp.username in
      if ltb (len name) 3 || ltb 100 (len name)
      then none
      else elim (normalize_email ops uni inp.email) [
        | none ↦ none
        | some email ↦ elim (user_role inp.role) [
          | none ↦ none
          | some role ↦ some (record { username = name; email = email; role = role })
        ]
      ]

  abbrev pub new_account : ℕ → ℕ → String → Profile → Account
  new_account id workspace hash p = record {
    id = id;
    workspace_id = workspace;
    username = p.username;
    email = p.email;
    email_verified_at = none;
    password_hash = hash;
    role = p.role;
    is_owner = false;
    session_version = 1;
  }

  unfoldable pub insert_user : ℕ → String → Profile → Handler Db ℕ
  insert_user workspace hash p db =
      if is_refused db.next_id p db then (problem 409 db_message, db) else (
        ok db.next_id,
        record db {
          users = db.users ++ new_account db.next_id workspace hash p ∷ [];
          next_id = db.next_id + 1;
        },
      )

  -- The branch of POST, a transaction under the advisory lock of the workspace.
  unfoldable pub create_user : (down : ℕ → Bool) → ℕ → String → Profile → Handler Db (ℕ × Bool)
  unfolding insert_user
  create_user down workspace hash p = transaction (do
    available (down 0)
    available (down 1)
    counted ← query (down 2) (seats workspace)
    seat ← row_or counted 409 db_message
    require (ltb seat.0 seat.1) 409 "Community workspaces can add up to five team members"
    available (down 3)
    id ← insert_user workspace hash p
    available (down 4)
    pure (id, true))

  abbrev pub edited : String → Profile → Account → Account
  edited hash p x = record x {
    username = p.username;
    email = p.email;
    email_verified_at =
        if str_eq (sql_lower x.email) (sql_lower p.email) then x.email_verified_at else none;
    password_hash = if str_eq hash "" then x.password_hash else hash;
    role = p.role;
    session_version = x.session_version + 1;
  }

  unfoldable pub update_user : ℕ → ℕ → String → Profile → Handler Db (Unit {0})
  update_user workspace id hash p db =
      if any (is_row workspace id) db.users
      then if is_refused id p db
        then (problem 409 db_message, db)
        else (ok tt, record db { users = change (is_row workspace id) (edited hash p) db.users })
      else (problem 404 no_rows, db)

  abbrev email_changed : Account → String → Bool
  email_changed old email =
      not (equal_fold old.email email)
      || elim old.email_verified_at [ none ↦ true | some _ ↦ false ]

  -- The branch of PUT.
  unfoldable pub change_user :
      (down : ℕ → Bool) → User → Parsed → String → Profile → Handler Db (ℕ × Bool)
  unfolding update_user
  change_user down u path hash p = do
    id ← path_id path
    old ← query_row (down 0) (λ (db : Db). find (is_row u.workspace_id id) db.users)
    require (not old.is_owner || is_admin_role p.role) 400
        "The workspace owner must remain an administrator"
    require (not (id == u.id) || is_admin_role p.role) 400
        "You cannot demote your own administrator account"
    available (down 1)
    update_user u.workspace_id id hash p
    pure (id, email_changed old p.email)

  unfoldable pub store_user :
      (down : ℕ → Bool) → User → (post : Bool) → Parsed → String → Profile → Handler Db (ℕ × Bool)
  unfolding create_user change_user
  store_user down u post path hash p =
      if post then create_user down u.workspace_id hash p else change_user down u path hash p

  abbrev or_problem : {A : Type 0} → Option A → ℕ → String → Handler Db A
  or_problem o status message = row_or o status message

  -- `hashed` is what bcrypt makes of the password; `digest` that of the new token.
  unfoldable pub save_user :
      (down : ℕ → Bool) (sent : Bool) (hash : String → Option String) (now : ℕ) (digest : String)
      → User
      → (post : Bool) → Parsed
      → Body UserInput
      → Handler Db ℕ
  unfolding store_user notify
  save_user down sent hash now digest u post path body = do
    require_admin u
    raw ← decode body
    p ←
        or_problem (check_profile raw) 400
          "A valid email, a 3–100 character username, and an admin or user role are required"
    require (not (post || not (str_eq raw.password "")) || strong_password ops uni raw.password) 400
        "Password must be 10–72 bytes and include uppercase, lowercase, a number, and a symbol"
    hashed ←
        or_problem (if str_eq raw.password "" then some "" else hash raw.password) 409 db_message
    saved ← store_user down u post path hashed p
    audit (down 5) u "user.saved" (numbered saved.0)
    notify (λ k. down (6 + k)) sent now digest saved.0 saved.1
    pure saved.0

-- DELETE FROM users … AND NOT is_owner, with what the foreign keys delete or clear.
abbrev pub is_deleted : ℕ → ℕ → Account → Bool
is_deleted workspace id x = is_row workspace id x && not x.is_owner

abbrev pub is_person : ℕ → Principal → Bool
is_person id (person n) = n == id
is_person id (team n) = false

abbrev is_author : ℕ → AuditEntry → Bool
is_author id e = elim e.user_id [ none ↦ false | some n ↦ n == id ]

unfoldable pub remove_user : ℕ → ℕ → Db → Db
remove_user workspace id db = record db {
  users = drop_where (is_deleted workspace id) db.users;
  user_groups = drop_where (λ (m : Membership). m.user_id == id) db.user_groups;
  external_identities =
      drop_where (λ (e : ExternalIdentity). e.user_id == id) db.external_identities;
  sso_grants = drop_where (λ (g : SsoGrant). g.user_id == id) db.sso_grants;
  assignments = drop_where (λ (x : Assignment). is_person id x.principal) db.assignments;
  tokens = drop_where (λ (t : VerificationToken). t.user_id == id) db.tokens;
  audit_log = change (is_author id) (λ e. record e { user_id = none }) db.audit_log;
}

unfoldable pub delete_rows : ℕ → ℕ → Handler Db (Unit {0})
unfolding remove_user
delete_rows workspace id db =
    if any (is_deleted workspace id) db.users
    then (ok tt, remove_user workspace id db)
    else (problem 404 "User not found", db)

unfoldable pub delete_user : (down : ℕ → Bool) → User → Parsed → Handler Db (Unit {0})
unfolding delete_rows
delete_user down u path = do
  require_admin u
  id ← path_id path
  require (not (id == u.id)) 400 "You cannot delete your own account"
  available (down 0)
  delete_rows u.workspace_id id
  audit (down 1) u "user.deleted" (numbered id)
