-- ===== src/Services/Snapshots.antt =====
-- internal/app/snapshots.go: the last answer of a provider for an account, a service and a region.
-- `marshal` and `unmarshal` are those of encoding/json, of what is saved and of what is read.
use netriun_nexus.Prelude.{
  ℕ, String, Bool, true, false, not, [], ◌∷◌, ◌++◌, ◌&&◌, ◌==◌, str_eq, any, find, change,
  if◌then◌else◌, Option, some, none, Result, ok, problem, Handler,
}
use netriun_nexus.Store.{Db, Snapshot, CloudAccount}
use netriun_nexus.Request.{db_message}

-- What a page shows: the payload, whether there is a snapshot, and of when.
pub record View (M : Type 0) : Type 0 where
  pub payload : M
  pub snapshot : Bool
  pub fetched_at : Option ℕ

-- UNIQUE(account_id,service_key,region).
abbrev pub is_snapshot : (account : ℕ) (service region : String) → Snapshot → Bool
is_snapshot account service region s =
    s.account_id == account && str_eq s.service_key service && str_eq s.region region

abbrev pub is_own : (workspace account : ℕ) (service region : String) → Snapshot → Bool
is_own workspace account service region s =
    s.workspace_id == workspace && is_snapshot account service region s

-- The foreign key of an account.
abbrev pub has_account : (workspace account : ℕ) → Db → Bool
has_account workspace account db =
    any (λ (a : CloudAccount). a.id == account && a.workspace_id == workspace) db.cloud_accounts

abbrev pub replaced : (now : ℕ) (raw : String) → Snapshot → Snapshot
replaced now raw s = record s { payload = raw; fetched_at = now }

-- INSERT … ON CONFLICT DO UPDATE, and whether it wrote.
unfoldable pub upsert : (now workspace account : ℕ) (service region raw : String) → Db → Bool × Db
upsert now workspace account service region raw db =
    if any (is_snapshot account service region) db.service_snapshots
    then (
      true,
      record db {
        service_snapshots =
            change (is_snapshot account service region) (replaced now raw) db.service_snapshots;
      },
    )
    else if has_account workspace account db
    then (
      true,
      record db {
        service_snapshots =
            db.service_snapshots
            ++ record {
              workspace_id = workspace;
              account_id = account;
              service_key = service;
              region = region;
              payload = raw;
              fetched_at = now;
            }
              ∷ [];
      },
    )
    else (false, db)

-- `is_key` is the CHECK of service_key.
module _ {A : Type 0} (is_key : String → Bool) (marshal : A → Option String) where
  abbrev stored :
      (down : Bool) (now workspace account : ℕ) (service region : String)
      → Option String
      → Db
      → Bool × Db
  stored down now workspace account service region none db = (false, db)
  stored down now workspace account service region (some raw) db =
      if not down && is_key service
      then upsert now workspace account service region raw db
      else (false, db)

  -- saveServiceSnapshot.
  unfoldable pub save_service_snapshot :
      (down : Bool) (now workspace account : ℕ) (service region : String) → A → Db → Bool × Db
  save_service_snapshot down now workspace account service region payload db =
      stored down now workspace account service region (marshal payload) db

module _ {M : Type 0} (unmarshal : String → Option M) (no_data : M) where
  abbrev read_payload : (fetched_at : ℕ) → Option M → Result (View M)
  read_payload fetched_at none = problem 409 db_message
  read_payload fetched_at (some m) =
      ok (record { payload = m; snapshot = true; fetched_at = some fetched_at })

  abbrev pub viewed : Option Snapshot → Result (View M)
  viewed none = ok (record { payload = no_data; snapshot = false; fetched_at = none })
  viewed (some s) = read_payload s.fetched_at (unmarshal s.payload)

  -- serviceSnapshot, with the answer of dbError to its error; `no_data` is an empty list of data.
  unfoldable pub service_snapshot :
      (down : Bool) (workspace account : ℕ) (service region : String) → Handler Db (View M)
  service_snapshot down workspace account service region db =
      if down
      then (problem 409 db_message, db)
      else (viewed (find (is_own workspace account service region) db.service_snapshots), db)
