-- ===== src/Sessions.antt =====
-- Sessions of internal/app/auth.go: sessionToken, auth, login, allowAttempt, startSession,
-- establishSession and logout. Redis is two tables, the sessions and the counters of attempts with the
-- second at which each expires; that sessions expire is not modelled.
pub mod Revocation
pub mod Limit
pub mod Login
use netriun_nexus.Prelude.{
  ℕ, String, Bool, true, false, not, List, [], ◌∷◌, ◌+◌, ◌&&◌, ◌||◌, ◌==◌, str_eq, ltb, leb,
  if◌then◌else◌, any, find, drop_where, Option, some, none, Result, ok, problem, Handler, pure,
  fail, require, modify, ◌>>=◌, ◌>>◌,
}
use netriun_nexus.Store.{User, Account, Workspace, Db, named}
use netriun_nexus.Text.{TextOps}
use netriun_nexus.Credentials.{UnicodeOps, normalize_email}
use netriun_nexus.Request.{Body, decode, append_entry, entry}

-- `session` with its key. The three texts of single sign-on are empty after a login by password.
pub record Session : Type 0 where
  pub key : String
  pub user_id : ℕ
  pub version : ℕ
  pub sso_provider : String
  pub sso_protocol : String
  pub sso_subject : String

pub record Counter : Type 0 where
  pub key : String
  pub count : ℕ
  pub expires_at : ℕ

pub record Web : Type 0 where
  pub db : Db
  pub sessions : List Session
  pub counters : List Counter

-- Where a request may carry its token: the Authorization header without "Bearer ", the two cookies.
pub record Carried : Type 0 where
  pub bearer : Option String
  pub cookie : Option String
  pub legacy_cookie : Option String

abbrev pub session_token : Carried → String
session_token c = elim c.bearer [
  | some t ↦ t
  | none ↦ elim c.cookie [ some t ↦ t | none ↦ elim c.legacy_cookie [ some t ↦ t | none ↦ "" ] ]
]

-- FROM users u JOIN workspaces w ON w.id=u.workspace_id.
abbrev pub user_row : Account → Db → Option User
user_row x db =
    if any (λ (w : Workspace). w.id == x.workspace_id) db.workspaces
    then some (record {
      id = x.id;
      workspace_id = x.workspace_id;
      name = x.username;
      role = x.role;
      is_owner = x.is_owner;
      version = x.session_version;
    })
    else none

unfoldable pub user_with_id : ℕ → Db → Option User
user_with_id id db = elim (find (λ x. x.id == id) db.users) [ none ↦ none | some x ↦ user_row x db ]

-- A Redis key: "session:" or "login:" before the digest. The two tables keep the kinds apart.
abbrev pub read_session : String → List Session → Option Session
read_session key sessions = find (λ s. str_eq s.key key) sessions

abbrev pub expired : String
expired = "Session expired; sign in again"

abbrev matched : Session → Option User → Result User
matched s none = problem 401 expired
matched s (some u) = if u.version == s.version then ok u else problem 401 expired

-- `auth`, up to the call of the next handler.
unfoldable pub authenticate :
    (digest : String → String) (redis_down db_down : Bool) → Carried → Web → Result User
authenticate digest redis_down db_down c web =
    if str_eq (session_token c) ""
    then problem 401 "Sign in to continue"
    else elim (read_session (digest (session_token c)) web.sessions) [
      | none ↦ problem 401 expired
      | some s ↦
          if redis_down
          then problem 401 expired
          else matched s (if db_down then none else user_with_id s.user_id web.db)
    ]

-- The counter of a key, unless its time is over.
abbrev pub live_counter : (key : String) (now : ℕ) → List Counter → Option Counter
live_counter key now counters = find (λ c. str_eq c.key key && ltb now c.expires_at) counters

abbrev pub counted : Option Counter → ℕ
counted none = 0
counted (some c) = c.count

abbrev pub count_of : (key : String) (now : ℕ) → List Counter → ℕ
count_of key now counters = counted (live_counter key now counters)

-- INCR, and EXPIRE where the counter is new.
abbrev pub attempted : (key : String) (now : ℕ) → Option Counter → Counter
attempted key now none = record { key = key; count = 1; expires_at = now + 300 }
attempted key now (some c) = record { key = key; count = c.count + 1; expires_at = c.expires_at }

unfoldable pub bump : (key : String) (now : ℕ) → Web → Web
bump key now web = record web {
  counters =
      attempted key now (live_counter key now web.counters)
      ∷ drop_where (λ c. str_eq c.key key) web.counters;
}

-- allowAttempt: a count that Redis does not give is a refusal.
unfoldable pub allow_attempt : (redis_down : Bool) (key : String) (now limit : ℕ) → Web → Bool × Web
unfolding bump
allow_attempt redis_down key now limit web =
    if redis_down
    then (false, web)
    else (leb (count_of key now (bump key now web).counters) limit, bump key now web)

unfoldable pub establish_session : (redis_down : Bool) → String → User → Handler Web (Unit {0})
establish_session redis_down key u web =
    if redis_down then (problem 503 "Authentication service unavailable", web) else (
      ok tt,
      record web {
        sessions =
            record {
              key = key;
              user_id = u.id;
              version = u.version;
              sso_provider = "";
              sso_protocol = "";
              sso_subject = "";
            }
            ∷ drop_where (λ s. str_eq s.key key) web.sessions;
      },
    )

-- `record` of an audit entry; its error is dropped.
abbrev pub record_entry : (down : Bool) → User → String → Handler Web (Unit {0})
record_entry down u action web = (
  ok tt,
  if down then web else record web { db = append_entry (entry u action (named "")) web.db },
)

unfoldable pub start_session :
    (redis_down db_down : Bool) → String → User → String → Handler Web User
unfolding establish_session
start_session redis_down db_down key u action = do
  establish_session redis_down key u
  record_entry db_down u action
  pure u

pub record LoginInput : Type 0 where
  pub email : String
  pub password : String

-- What the query of `login` reads of a user.
pub record Found : Type 0 where
  pub signed : User
  pub password_hash : String
  pub verified : Bool
  pub sso_required : Bool

module _ (ops : TextOps) (uni : UnicodeOps) (digest : String → String)
    -- bcrypt.CompareHashAndPassword.
    (compare_hash : (hash password : String) → Bool) where
  abbrev pub found_row : Account → Db → Option Found
  found_row x db = elim (find (λ (w : Workspace). w.id == x.workspace_id) db.workspaces) [
    | none ↦ none
    | some w ↦ elim (user_row x db) [
      | none ↦ none
      | some u ↦ some (record {
        signed = u;
        password_hash = x.password_hash;
        verified = elim x.email_verified_at [ none ↦ false | some _ ↦ true ];
        sso_required = w.sso_required;
      })
    ]
  ]

  unfoldable pub user_with_email : String → Db → Option Found
  user_with_email email db = elim (find (λ x. str_eq (uni.sql_lower x.email) email) db.users) [
    | none ↦ none
    | some x ↦ found_row x db
  ]

  abbrev pub candidate : (db_down : Bool) → String → Db → Option Found
  candidate db_down raw db = elim (normalize_email ops uni raw) [
    | none ↦ none
    | some email ↦ if db_down then none else user_with_email email db
  ]

  -- Without a user the password is compared with a fixed hash, and refused whatever the outcome.
  abbrev pub checked : Option Found → String → Handler Web Found
  checked none password = fail 401 "Invalid email or password"
  checked (some f) password =
      require (compare_hash f.password_hash password) 401 "Invalid email or password" >> pure f

  -- The part of `login` after the count.
  unfoldable pub sign_in : (down : ℕ → Bool) → String → Body LoginInput → Handler Web User
  unfolding start_session user_with_email
  sign_in down token body = do
    inp ← decode body
    f ← (λ (web : Web). checked (candidate (down 1) inp.email web.db) inp.password web)
    require f.verified 403 "Verify your email before signing in"
    require (not (f.sso_required && not f.signed.is_owner)) 403
        "This workspace requires SSO; use its identity provider to sign in"
    start_session (down 2) (down 3) (digest token) f.signed "auth.login"

  unfoldable pub login :
      (down : ℕ → Bool) (now : ℕ) (ip token : String) → Body LoginInput → Handler Web User
  unfolding bump sign_in
  login down now ip token body web =
      if down 0
      then (problem 503 "Authentication service unavailable", web)
      else (let attempt = bump (digest ip) now web in
          if ltb 20 (count_of (digest ip) now attempt.counters)
          then (problem 429 "Too many attempts; try again in five minutes", attempt)
          else sign_in down token body attempt)

-- logout, without the address of the identity provider that it may answer with.
unfoldable pub logout :
    (digest : String → String) (redis_down : Bool) → Carried → Handler Web (Unit {0})
logout digest redis_down c web =
    if redis_down then (problem 503 "Could not revoke session", web) else (
      ok tt,
      record web {
        sessions = drop_where (λ s. str_eq s.key (digest (session_token c))) web.sessions;
      },
    )
