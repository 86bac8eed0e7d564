-- ===== src/Refresh.antt =====
-- internal/app/refresh_jobs.go: the background refreshes of the inventory. Redis is two tables, the
-- jobs and, for each set of accounts, the job that refreshes it; expiry is not modelled, nor are
-- times. A goroutine is an element of `spawned`, which `run_inventory_refresh` runs.
pub mod Jobs
use netriun_nexus.Prelude.{
  ℕ, String, Bool, true, false, not, List, [], ◌∷◌, ◌++◌, ◌+◌, ◌&&◌, ◌||◌, ◌==◌, str_eq, ltb,
  if◌then◌else◌, any, all, find, keep, drop_where, map, contains, is_empty, length, Option, some,
  none, Result, ok, problem, Handler, pure, fail, require, ◌>>=◌, ◌>>◌,
}
use netriun_nexus.Store.{user, User, CloudAccount, Db, account_view, named, AuditEntry}
use netriun_nexus.Policy.{accessible_account_ids, order_ids}
use netriun_nexus.Request.{db_message, append_entry, entry}

pub data Status : Type 0 where
  queued running completed partial_ failed : Status

pub record Failure : Type 0 where
  pub id : ℕ
  pub message : String
  pub code : String

-- `inventoryRefreshJob`. A job that is read again has lost the fields that JSON leaves out; nothing
-- reads them of such a job.
pub record Job : Type 0 where
  pub id : String
  pub workspace_id : ℕ
  pub requested_by : ℕ
  pub requested_name : String
  pub account_ids : List ℕ
  pub status : Status
  pub failed_accounts : List Failure
  pub error : String

-- refreshJobKey and refreshScopeKey: the parts that the printed keys are made of.
pub record ScopeKey : Type 0 where
  pub workspace : ℕ
  pub ids : List ℕ

pub record Scope : Type 0 where
  pub key : ScopeKey
  pub job : String

pub record Stored : Type 0 where
  pub workspace : ℕ
  pub job : Job

pub record Queue : Type 0 where
  pub db : Db
  pub scopes : List Scope
  pub jobs : List Stored
  pub spawned : List Job

abbrev pub ids_eq : List ℕ → List ℕ → Bool
ids_eq [] [] = true
ids_eq (x ∷ xs) (y ∷ ys) = x == y && ids_eq xs ys
ids_eq _ _ = false

abbrev pub key_eq : ScopeKey → ScopeKey → Bool
key_eq k l = k.workspace == l.workspace && ids_eq k.ids l.ids

unfoldable pub refresh_scope_key : ℕ → List ℕ → ScopeKey
refresh_scope_key workspace ids = record { workspace = workspace; ids = order_ids ids }

-- validRefreshJobID: `letter` and `digit` are those of package unicode.
module _ (len : String → ℕ) (runes : String → List ℕ) (letter digit : ℕ → Bool) where
  unfoldable pub valid_refresh_job_id : String → Bool
  valid_refresh_job_id value =
      if ltb (len value) 20 || ltb 100 (len value)
      then false
      else all (λ r. letter r || digit r || r == 45 || r == 95) (runes value)

abbrev is_stored : ℕ → String → Stored → Bool
is_stored workspace id s = s.workspace == workspace && str_eq s.job.id id

-- SET and GET of a job; Set replaces.
unfoldable pub save_refresh_job : (down : Bool) → Job → Queue → Queue
save_refresh_job down job q = if down then q else record q {
  jobs =
      record { workspace = job.workspace_id; job = job }
      ∷ drop_where (is_stored job.workspace_id job.id) q.jobs;
}

unfoldable pub load_refresh_job : (down : Bool) → ℕ → String → Queue → Option Job
load_refresh_job down workspace id q =
    if down
    then none
    else elim (find (is_stored workspace id) q.jobs) [ none ↦ none | some s ↦ some s.job ]

unfoldable pub scope_job : (down : Bool) → ScopeKey → Queue → Option String
scope_job down key q =
    if down
    then none
    else elim (find (λ s. key_eq s.key key) q.scopes) [ none ↦ none | some s ↦ some s.job ]

-- if redis.call('GET',KEYS[1])==ARGV[1] then return redis.call('DEL',KEYS[1]).
unfoldable pub release_scope : (down : Bool) → ScopeKey → String → Queue → Queue
release_scope down key id q =
    if down
    then q
    else record q { scopes = drop_where (λ s. key_eq s.key key && str_eq s.job id) q.scopes }

-- The script that claims a scope: the id that holds it then.
unfoldable pub claim_scope : ScopeKey → Job → Queue → String × Queue
claim_scope key job q = elim (scope_job false key q) [
  | some id ↦ (id, q)
  | none ↦ (
    job.id,
    save_refresh_job false job
        (record q { scopes = record { key = key; job = job.id } ∷ q.scopes }),
  )
]

unfoldable pub is_active : Job → Bool
is_active job = elim job.status [ queued ↦ true | running ↦ true | _ ↦ false ]

-- The answers of `refreshInventory`.
pub data Answer : Type 0 where
  current : Answer
  joined : Job → Answer
  started : Job → Answer

abbrev pub new_job : String → User → List ℕ → Job
new_job id u ids = record {
  id = id;
  workspace_id = u.workspace_id;
  requested_by = u.id;
  requested_name = u.name;
  account_ids = ids;
  status = queued;
  failed_accounts = [];
  error = "";
}

abbrev note : (down : Bool) → User → String → String → Queue → Queue
note down u action target q =
    if down then q else record q { db = append_entry (entry u action (named target)) q.db }

-- The job of a scope that a request may wait for.
unfoldable pub waiting : (down : ℕ → Bool) → ℕ → ScopeKey → Queue → Option Job
waiting down workspace key q = elim (scope_job (down 0) key q) [
  | none ↦ none
  | some id ↦ elim (load_refresh_job (down 1) workspace id q) [
    | none ↦ none
    | some job ↦ if is_active job then some job else none
  ]
]

unfoldable pub clear_stale : (down : ℕ → Bool) → ScopeKey → Queue → Queue
clear_stale down key q = elim (scope_job (down 0) key q) [
  | none ↦ q
  | some id ↦ release_scope (down 2) key id q
]

abbrev begun : (down : ℕ → Bool) → User → Job → Queue → Result Answer × Queue
begun down u job q = (
  ok (started job),
  note (down 5) u "inventory.refresh_queued" job.id (record q { spawned = job ∷ q.spawned }),
)

abbrev claimed : (down : ℕ → Bool) → User → Job → String × Queue → Result Answer × Queue
claimed down u job (id, q) =
    if str_eq id job.id
    then begun down u job q
    else elim (load_refresh_job (down 4) u.workspace_id id q) [
      | none ↦ (problem 409 "A live refresh is already being queued", q)
      | some existing ↦ (ok (joined existing), q)
    ]

unfoldable pub queue_job : (down : ℕ → Bool) → User → ScopeKey → Job → Queue → Result Answer × Queue
queue_job down u key job q =
    if down 3
    then (problem 503 "Could not queue live refresh", q)
    else claimed down u job (claim_scope key job q)

-- `refreshInventory` after the selection of the accounts; `token` is the id of the new job.
unfoldable pub refresh_inventory :
    (down : ℕ → Bool) → User → (token : String) → List ℕ → Handler Queue Answer
refresh_inventory down u token ids q =
    if is_empty ids
    then (ok current, q)
    else (let key = refresh_scope_key u.workspace_id ids in
        elim (waiting down u.workspace_id key q) [
          | some existing ↦ (ok (joined existing), q)
          | none ↦ queue_job down u key (new_job token u ids) (clear_stale down key q)
        ])

-- failedRefreshAccounts.
unfoldable pub failed_refresh_accounts : (down : Bool) → ℕ → List ℕ → Db → Option (List Failure)
failed_refresh_accounts down workspace ids db =
    if down
    then none
    else some (
        map
          (λ (a : CloudAccount). record {
            id = a.id;
            message = a.sync_error;
            code = a.sync_error_code;
          })
          (keep
            (λ (a : CloudAccount).
              a.workspace_id == workspace && contains ids a.id && not (str_eq a.sync_error ""))
            db.cloud_accounts))

-- `runner` is what the collection answers: an error, or nothing.
abbrev finished : Job → (runner : Option String) → Option (List Failure) → Job
finished job (some message) failures = record job { status = failed; error = message }
finished job none none = record job {
  status = failed;
  failed_accounts = [];
  error = "Could not read refresh results";
}
finished job none (some failures) = record job {
  status = if is_empty failures then completed else partial_;
  failed_accounts = failures;
}

abbrev requester : Job → User
requester job = record {
  id = job.requested_by;
  workspace_id = job.workspace_id;
  name = job.requested_name;
  role = user;
  is_owner = false;
  version = 0;
}

-- runInventoryRefresh: `collect` is what the collection makes of the database.
unfoldable pub run_inventory_refresh :
    (down : ℕ → Bool) (collect : Db → Option String × Db) → Job → Queue → Queue
run_inventory_refresh down collect job q =
    let begun_job = record job { status = running } in
    let saved = save_refresh_job (down 0) begun_job q in
    let collected = collect saved.db in
    let done =
      finished begun_job collected.0
        (failed_refresh_accounts (down 1) job.workspace_id job.account_ids collected.1) in
    let stored = save_refresh_job (down 2) done (record saved { db = collected.1 }) in
    let released =
      release_scope (down 3) (refresh_scope_key job.workspace_id job.account_ids) job.id stored in
    note (down 4) (requester job) "inventory.refresh_completed" job.id released

-- `inventoryRefreshStatus`.
unfoldable pub inventory_refresh_status :
    (valid : String → Bool) (down : ℕ → Bool) → User → String → Handler Queue Job
inventory_refresh_status valid down u id q =
    if not (valid id)
    then (problem 400 "Invalid refresh job ID", q)
    else elim (load_refresh_job (down 0) u.workspace_id id q) [
      | none ↦ (problem 404 "Refresh job not found", q)
      | some job ↦
          if down 1
          then (problem 409 db_message, q)
          else if all (contains (accessible_account_ids q.db u account_view)) job.account_ids
          then (ok job, q)
          else (problem 403 "Cloud account access required", q)
    ]
