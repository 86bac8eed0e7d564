-- ===== src/Request.antt =====
-- The plumbing that the handlers of internal/app share: app.go (decode, dbError, audit, record) and
-- auth.go (admin, pathID). A handler works on the database; whether a statement reaches it is an
-- argument `down`, one truth value for each statement, so that a theorem about a handler covers
-- every pattern of database failures.
use netriun_nexus.Prelude.{
  ℕ, String, Bool, true, false, not, Option, none, some, List, [], ◌∷◌, ◌++◌, ltb, leb, ◌||◌, ◌-◌,
  if◌then◌else◌, Result, ok, problem, Handler, pure, fail, modify, require, row_or, ◌>>=◌, ◌>>◌,
  gets, Keeps, Keeps-row_or, keeps_rules, Ends, Ends-row_or, ◌≡◌, refl, arith, Bool-cases, inl, inr,
}
use netriun_nexus.Store.{admin, user, User, Target, AuditEntry, Db}

-- What strconv.ParseInt and strconv.Atoi read: a number, or an error.
pub data Parsed : Type 0 where
  positive : ℕ → Parsed
  negative : ℕ → Parsed
  malformed : Parsed

-- A request body as `decode` meets it: the Content-Type and what the JSON decoder makes of the text
-- (encoding/json with unknown fields refused and 1 MiB read at most).
pub data Body (A : Type 0) : Type 0 where
  not_json : Body A
  invalid : Body A
  trailing : Body A
  json : A → Body A

abbrev pub decode : {S A : Type 0} → Body A → S → Result A × S
decode not_json = fail 415 "Content-Type must be application/json"
decode invalid = fail 400 "Invalid JSON request"
decode trailing = fail 400 "Expected one JSON object"
decode (json a) = pure a

abbrev pub require_admin : {S : Type 0} → User → S → Result (Unit {0}) × S
require_admin u =
    require (elim u.role [ admin ↦ true | user ↦ false ]) 403 "Administrator access required"

-- pathID: an id is at least 1.
abbrev pub path_id : {S : Type 0} → Parsed → S → Result ℕ × S
path_id (positive n) = if ltb n 1 then fail 400 "Invalid resource ID" else pure n
path_id (negative n) = fail 400 "Invalid resource ID"
path_id malformed = fail 400 "Invalid resource ID"

-- The two answers of dbError.
abbrev pub db_message : String
db_message = "Operation could not be completed; check references and unique names"

abbrev pub no_rows : String
no_rows = "Resource not found"

abbrev pub available : {S : Type 0} → Bool → S → Result (Unit {0}) × S
available down = require (not down) 409 db_message

abbrev pub query : {S A : Type 0} → Bool → (S → A) → S → Result A × S
query down f s = if down then (problem 409 db_message, s) else (ok (f s), s)

-- QueryRow(…).Scan: the first row, or pgx.ErrNoRows.
abbrev pub query_row : {S A : Type 0} → Bool → (S → Option A) → S → Result A × S
query_row down f s = if down then (problem 409 db_message, s) else row_or (f s) 404 no_rows s

abbrev pub exec : {S : Type 0} → Bool → (S → S) → S → Result (Unit {0}) × S
exec down f s = if down then (problem 409 db_message, s) else (ok tt, f s)

abbrev pub append_entry : AuditEntry → Db → Db
append_entry e db = record db { audit_log = db.audit_log ++ e ∷ [] }

-- record: user_id is NULL for uid 0. The answer says whether the entry was stored.
abbrev pub entry : User → String → Target → AuditEntry
entry u action target = record {
  workspace_id = u.workspace_id;
  user_id = if ltb 0 u.id then some u.id else none;
  username = u.name;
  action = action;
  target = target;
}

-- audit: a failed write is logged and otherwise ignored.
abbrev pub audit : Bool → User → String → Target → Db → Result (Unit {0}) × Db
audit down u action target db =
    (ok tt, if down then db else append_entry (entry u action target) db)

abbrev within : ℕ → ℕ → ℕ → ℕ → ℕ
within lo hi default n = if ltb n lo || ltb hi n then default else n

-- pagination. strconv.Atoi answers 0 with its error for a text that is no number (`malformed`), and
-- the nearest int for a number out of range, which the caller gives here as that number.
unfoldable pub pagination : Parsed → Parsed → ℕ × ℕ
pagination limit offset = (page_limit limit, page_offset offset)
  where
    page_limit : Parsed → ℕ
    page_limit (positive n) = within 1 200 50 n
    page_limit _ = 50

    page_offset : Parsed → ℕ
    page_offset (positive n) = n
    page_offset _ = 0

pub available-reads : {S : Type 0} (down : Bool) (s : S) → (available down s).1 ≡ s
available-reads true s = refl
available-reads false s = refl

-- The rules of the shared steps.
module _ {P : Db → Type 0} where
  pub Keeps-decode : {A : Type 0} (body : Body A) → Keeps P (decode {S = Db} body)
  Keeps-decode not_json = record { after = λ s h. h }
  Keeps-decode _ = record { after = λ s h. h }

  pub Keeps-path_id : (path : Parsed) → Keeps P (path_id {S = Db} path)
  Keeps-path_id (positive n) = search keeps_rules
  Keeps-path_id (negative n) = record { after = λ s h. h }
  Keeps-path_id malformed = record { after = λ s h. h }

  pub Keeps-query : {A : Type 0} (down : Bool) (f : Db → A) → Keeps P (query down f)
  Keeps-query true f = record { after = λ s h. h }
  Keeps-query false f = record { after = λ s h. h }

  pub Keeps-query_row : {A : Type 0} (down : Bool) (f : Db → Option A) → Keeps P (query_row down f)
  Keeps-query_row true f = record { after = λ s h. h }
  Keeps-query_row false f = record {
    after = λ s h. (Keeps-row_or {P = P} (f s) 404 no_rows).after s h;
  }

  pub Keeps-exec :
      (down : Bool) (f : Db → Db) → ((db : Db) → P db → P (f db)) → Keeps P (exec down f)
  Keeps-exec true f k = record { after = λ s h. h }
  Keeps-exec false f k = record { after = k }

  pub Keeps-audit :
      (down : Bool) (u : User) (action : String) (target : Target)
      → ((e : AuditEntry) (db : Db) → P db → P (append_entry e db))
      → Keeps P (audit down u action target)
  Keeps-audit true u action target k = record { after = λ s h. h }
  Keeps-audit false u action target k = record { after = k (entry u action target) }

pub ruleset request_rules = (
  keeps_rules, Keeps-decode, Keeps-path_id, Keeps-query, Keeps-query_row, Keeps-exec, Keeps-audit,
)

-- The same at one state, where the rest may use what was read.
module _ {A B : Type 0} {P : Db → Type 0} (db : Db) (h : P db) where
  pub Ends-query :
      (down : Bool) (f : Db → A) (k : A → Db → Result B × Db)
      → Ends P db (k (f db))
      → Ends P db (query down f >>= k)
  Ends-query true f k e = record { after = h }
  Ends-query false f k e = record { after = e.after }

  pub Ends-query_row :
      (down : Bool) (f : Db → Option A) (k : A → Db → Result B × Db)
      → ((a : A) → f db ≡ some a → Ends P db (k a))
      → Ends P db (query_row down f >>= k)
  Ends-query_row true f k e = record { after = h }
  Ends-query_row false f k e = record {
    after = (Ends-row_or {P = P} db h (f db) 404 no_rows k e).after;
  }

module _ {B : Type 0} {P : Db → Type 0} (db : Db) (h : P db) where
  pub Ends-available :
      (down : Bool) (k : Db → Result B × Db) → Ends P db k → Ends P db (available down >> k)
  Ends-available true k e = record { after = h }
  Ends-available false k e = record { after = e.after }

  pub Ends-path_id :
      (path : Parsed) (k : ℕ → Db → Result B × Db)
      → ((id : ℕ) → Ends P db (k id))
      → Ends P db (path_id path >>= k)
  Ends-path_id (positive n) k e = elim (Bool-cases (ltb n 1)) [
    | inl q ↦ record { after = rw q h }
    | inr q ↦ record { after = rw q (e n).after }
  ]
  Ends-path_id (negative n) k e = record { after = h }
  Ends-path_id malformed k e = record { after = h }

module _ {P : Db → Type 0} (db : Db) (h : P db) where
  pub Ends-exec : (down : Bool) (f : Db → Db) → P (f db) → Ends P db (exec down f)
  Ends-exec true f k = record { after = h }
  Ends-exec false f k = record { after = k }

-- What an answer without a problem says of a query, or of a connection, before it.
module _ {S A B : Type 0} where
  pub query_ok :
      (down : Bool) (f : S → A) (k : A → S → Result B × S) (s : S) (b : B)
      → ((query down f >>= k) s).0 ≡ ok b
      → ((k (f s) s).0 ≡ ok b) × (((query down f >>= k) s).1 ≡ (k (f s) s).1)
  query_ok false f k s b h = (h, refl)
  query_ok true f k s b h = ground arith

module _ {S B : Type 0} where
  pub available_ok :
      (down : Bool) (k : S → Result B × S) (s : S) (b : B)
      → ((available down >> k) s).0 ≡ ok b
      → ((k s).0 ≡ ok b) × (((available down >> k) s).1 ≡ (k s).1)
  available_ok false k s b h = (h, refl)
  available_ok true k s b h = ground arith
