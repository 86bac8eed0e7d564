-- ===== src/Services.antt =====
-- The services of an Alibaba account that are refreshed in the background: the jobs of
-- internal/app/eds_refresh.go, security_groups.go and oss.go, which have one shape. Redis is two
-- tables, the jobs and, for each scope, the job that refreshes it; expiry and times are left out.
-- A goroutine is an element of `spawned`.
pub mod Answers
pub mod Audited
pub mod Buckets
pub mod Handlers
pub mod Histories
pub mod Jobs
pub mod Restored
pub mod Snapshots
use netriun_nexus.Prelude.{
  ℕ, String, Bool, true, false, not, List, [], ◌∷◌, ◌+◌, ◌&&◌, ◌||◌, ◌==◌, str_eq, if◌then◌else◌,
  find, drop_where, Option, some, none, Result, ok, problem, Handler, pure, require, row_or, ◌>>=◌,
  ◌>>◌,
}
use netriun_nexus.Store.{user, User, CloudAccount, Provider, alibaba, Db, named}
use netriun_nexus.Text.{TextOps}
use netriun_nexus.Policy.{account_access}
use netriun_nexus.Request.{Parsed, path_id, db_message, no_rows, append_entry, entry}
use netriun_nexus.Refresh.{Status, queued, running, completed, failed}

pub data Kind : Type 0 where
  eds security_groups oss : Kind

abbrev pub same_kind : Kind → Kind → Bool
same_kind eds eds = true
same_kind security_groups security_groups = true
same_kind oss oss = true
same_kind _ _ = false

-- edsRefreshJob, securityGroupRefreshJob and ossRefreshJob; the latter two have no service and no
-- region, which are empty here. A job that is read again has lost the fields that JSON leaves out;
-- nothing reads them of such a job.
pub record Job : Type 0 where
  pub id : String
  pub workspace_id : ℕ
  pub requested_by : ℕ
  pub requested_name : String
  pub account_id : ℕ
  pub service : String
  pub region : String
  pub status : Status
  pub error : String

-- The parts that the printed keys of scopes are made of.
pub record ScopeKey : Type 0 where
  pub kind : Kind
  pub workspace : ℕ
  pub account : ℕ
  pub service : String
  pub region : String

pub record Scope : Type 0 where
  pub key : ScopeKey
  pub job : String

-- A job under its key, which is made of the kind, the workspace and the id.
pub record Stored : Type 0 where
  pub kind : Kind
  pub workspace : ℕ
  pub job : Job

pub record Spawned : Type 0 where
  pub key : ScopeKey
  pub job : Job

-- cloud.OSSCreateBucketInput, and the account whose credentials sign the call.
pub record Bucket : Type 0 where
  pub account : ℕ
  pub name : String
  pub region : String
  pub storage_class : String
  pub redundancy_type : String

-- `sent` lists the buckets that the provider was asked for.
pub record Services : Type 0 where
  pub db : Db
  pub scopes : List Scope
  pub jobs : List Stored
  pub spawned : List Spawned
  pub sent : List Bucket

abbrev pub key_eq : ScopeKey → ScopeKey → Bool
key_eq k l =
    same_kind k.kind l.kind
    && k.workspace == l.workspace
    && k.account == l.account
    && str_eq k.service l.service
    && str_eq k.region l.region

abbrev pub is_stored : Kind → ℕ → String → Stored → Bool
is_stored kind workspace id s =
    same_kind s.kind kind && s.workspace == workspace && str_eq s.job.id id

abbrev pub put_job : Kind → Job → List Stored → List Stored
put_job kind job jobs =
    record { kind = kind; workspace = job.workspace_id; job = job }
    ∷ drop_where (is_stored kind job.workspace_id job.id) jobs

-- SET and GET of a job.
unfoldable pub save_job : (redis_down : Bool) → Kind → Job → Services → Services
save_job redis_down kind job q =
    if redis_down then q else record q { jobs = put_job kind job q.jobs }

abbrev stored_job : Option Stored → Option Job
stored_job none = none
stored_job (some s) = some s.job

unfoldable pub load_job : (redis_down : Bool) → Kind → ℕ → String → Services → Option Job
load_job redis_down kind workspace id q =
    if redis_down then none else stored_job (find (is_stored kind workspace id) q.jobs)

abbrev held_by : Option Scope → Option String
held_by none = none
held_by (some s) = some s.job

unfoldable pub scope_job : (redis_down : Bool) → ScopeKey → Services → Option String
scope_job redis_down key q =
    if redis_down then none else held_by (find (λ s. key_eq s.key key) q.scopes)

abbrev pub is_active : Status → Bool
is_active queued = true
is_active running = true
is_active _ = false

-- The job of a scope that a request waits for, where there is one: it is queued or running.
abbrev active_job : Option Job → Option Job
active_job none = none
active_job (some job) = if is_active job.status then some job else none

abbrev job_of : (redis_down : Bool) → Kind → ℕ → Option String → Services → Option Job
job_of redis_down kind workspace none q = none
job_of redis_down kind workspace (some id) q = active_job (load_job redis_down kind workspace id q)

unfoldable pub waiting : (down : ℕ → Bool) → ScopeKey → Services → Option Job
waiting down key q = job_of (down 3) key.kind key.workspace (scope_job (down 2) key q) q

abbrev claimed : ScopeKey → Job → Services → Option String → String × Services
claimed key job q (some id) = (id, q)
claimed key job q none = (
  job.id,
  record q {
    scopes = record { key = key; job = job.id } ∷ q.scopes;
    jobs = put_job key.kind job q.jobs;
  },
)

-- The script that claims a scope: the id that holds it then.
unfoldable pub claim_scope : ScopeKey → Job → Services → String × Services
claim_scope key job q = claimed key job q (scope_job false key q)

-- if redis.call('GET',KEYS[1])==ARGV[1] then return redis.call('DEL',KEYS[1]) else return 0 end.
unfoldable pub release_scope : (redis_down : Bool) → ScopeKey → String → Services → Services
release_scope redis_down key id q =
    if redis_down
    then q
    else record q { scopes = drop_where (λ s. key_eq s.key key && str_eq s.job id) q.scopes }

abbrev pub note : (down : Bool) → User → String → String → Services → Services
note down u action target q =
    if down then q else record q { db = append_entry (entry u action (named target)) q.db }

abbrev pub queue_failed : Kind → String
queue_failed eds = "Could not queue EDS refresh"
queue_failed security_groups = "Could not queue security group refresh"
queue_failed oss = "Could not queue OSS refresh"

abbrev pub queueing : Kind → String
queueing eds = "An EDS refresh is already being queued"
queueing security_groups = "A security group refresh is already being queued"
queueing oss = "An OSS refresh is already being queued"

abbrev pub queued_action : Kind → String
queued_action eds = "eds.refresh_queued"
queued_action security_groups = "ecs.security_groups.refresh_queued"
queued_action oss = "oss.refresh_queued"

abbrev pub completed_action : Kind → String
completed_action eds = "eds.refresh_completed"
completed_action security_groups = "ecs.security_groups.refresh_completed"
completed_action oss = "oss.refresh_completed"

abbrev pub new_job : (token : String) → User → ScopeKey → Job
new_job token u key = record {
  id = token;
  workspace_id = u.workspace_id;
  requested_by = u.id;
  requested_name = u.name;
  account_id = key.account;
  service = key.service;
  region = key.region;
  status = queued;
  error = "";
}

abbrev pub joined : Kind → Option Job → Handler Services Job
joined kind none q = (problem 409 (queueing kind), q)
joined kind (some existing) q = (ok existing, q)

abbrev settled :
    (down : ℕ → Bool) → User → ScopeKey → Job → String × Services → Result Job × Services
settled down u key job (id, q) =
    if str_eq id job.id
    then (
      ok job,
      note (down 6) u (queued_action key.kind) job.id
          (record q { spawned = record { key = key; job = job } ∷ q.spawned }),
    )
    else joined key.kind (load_job (down 5) key.kind u.workspace_id id q) q

unfoldable pub queue_job : (down : ℕ → Bool) → User → ScopeKey → Job → Handler Services Job
queue_job down u key job q =
    if down 4
    then (problem 503 (queue_failed key.kind), q)
    else settled down u key job (claim_scope key job q)

abbrev queued_unless :
    (down : ℕ → Bool) → User → ScopeKey → (token : String) → Option Job → Handler Services Job
queued_unless down u key token (some existing) q = (ok existing, q)
queued_unless down u key token none q = queue_job down u key (new_job token u key) q

-- A refresh from its scope on; it is answered with a job, new or not. `token` is the id of a new job.
unfoldable pub refresh_scope :
    (down : ℕ → Bool) → User → (token : String) → ScopeKey → Handler Services Job
refresh_scope down u token key q = queued_unless down u key token (waiting down key q) q

-- What the three runs make of the error of a collection.
abbrev pub failure : Kind → (message : String) → String
failure eds message = message
failure security_groups message =
    "Alibaba ECS security group refresh failed; check RAM permissions and selected regions"
failure oss message = "Alibaba OSS refresh failed; check RAM permissions and account access"

abbrev pub finished : Kind → Job → Option String → Job
finished kind job none = record job { status = completed }
finished kind job (some message) = record job { status = failed; error = failure kind message }

abbrev pub requester : Job → User
requester job = record {
  id = job.requested_by;
  workspace_id = job.workspace_id;
  name = job.requested_name;
  role = user;
  is_owner = false;
  version = 0;
}

-- runEDSRefresh, runSecurityGroupRefresh and runOSSRefresh: `collect` is what the collection under
-- the lease answers, and what it makes of the database.
unfoldable pub run_refresh :
    (down : ℕ → Bool) (collect : Db → Option String × Db) → Spawned → Services → Services
run_refresh down collect r q =
    let begun = record r.job { status = running } in
    let saved = save_job (down 0) r.key.kind begun q in
    let collected = collect saved.db in
    let done = finished r.key.kind begun collected.0 in
    let stored = save_job (down 1) r.key.kind done (record saved { db = collected.1 }) in
    let released = release_scope (down 2) r.key r.job.id stored in
    note (down 3) (requester r.job) (completed_action r.key.kind) r.job.id released

abbrev pub run_eds_refresh :
    (down : ℕ → Bool) (collect : Db → Option String × Db) → Job → ScopeKey → Services → Services
run_eds_refresh down collect job key = run_refresh down collect (record { key = key; job = job })

abbrev pub run_security_group_refresh :
    (down : ℕ → Bool) (collect : Db → Option String × Db) → Job → ScopeKey → Services → Services
run_security_group_refresh down collect job key =
    run_refresh down collect (record { key = key; job = job })

abbrev pub run_oss_refresh :
    (down : ℕ → Bool) (collect : Db → Option String × Db) → Job → ScopeKey → Services → Services
run_oss_refresh down collect job key = run_refresh down collect (record { key = key; job = job })
