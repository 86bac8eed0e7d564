-- ===== src/Services/Jobs.antt =====
-- How a refresh of a service ends, and who may see it.
use mathlib.Core.Bool.{false≢true}
use netriun_nexus.Prelude.{
  ℕ, String, Bool, true, false, ◌≡◌, ◌≢◌, refl, sym, subst, ap, ◌∙◌, List, [], ◌∷◌, ◌&&◌, arith,
  str_eq, str_eq_refl, ==_refl, find, drop_where, Bool-cases, inl, inr, Option, some, none, ok,
  Option-cases, bind_ok,
}
use netriun_nexus.Store.{User, Db}
use netriun_nexus.Text.{TextOps}
use netriun_nexus.Policy.{account_access}
use netriun_nexus.Request.{Parsed, positive, negative, malformed}
use netriun_nexus.Refresh.{running, completed, failed}
use netriun_nexus.Services.{
  Kind, eds, security_groups, oss, same_kind, Job, ScopeKey, Scope, Spawned, Services, key_eq,
  save_job, load_job, scope_job, release_scope, finished, run_refresh,
}
use netriun_nexus.Services.Handlers.{
  job_status, refresh_status, service_account, eds_snapshot_account, eds_refresh_status,
}

same_kind_refl : (k : Kind) → same_kind k k ≡ true
same_kind_refl eds = refl
same_kind_refl security_groups = refl
same_kind_refl oss = refl

saved_job :
    (kind : Kind) (job : Job) (q : Services)
    → load_job false kind job.workspace_id job.id (save_job false kind job q) ≡ some job
unfolding load_job save_job
saved_job kind job q = rw (same_kind_refl kind, ==_refl job.workspace_id, str_eq_refl job.id) refl

released :
    (key : ScopeKey) (id : String) (scopes : List Scope) (s : Scope)
    → find
        (λ (s : Scope). key_eq s.key key)
        (drop_where (λ (s : Scope). key_eq s.key key && str_eq s.job id) scopes)
      ≡ some s
    → str_eq s.job id ≡ false
released key id [] s h = ground arith
released key id (x ∷ scopes) s h = elim (Bool-cases (key_eq x.key key && str_eq x.job id)) [
  | inl q ↦ released key id scopes s (rw q at h)
  | inr q ↦ elim (Bool-cases (key_eq x.key key)) [
    | inl k ↦ let here : some x ≡ some s = rw k at (rw q at h) in ground arith
    | inr k ↦ released key id scopes s (rw k at (rw q at h))
  ]
]

released_scope :
    (key : ScopeKey) (id : String) (q : Services)
    → scope_job false key (release_scope false key id q) ≢ some id
unfolding scope_job release_scope
released_scope key id q h =
    elim (Option-cases (
      find (λ (s : Scope). key_eq s.key key)
        (drop_where (λ (s : Scope). key_eq s.key key && str_eq s.job id) q.scopes))) [
          | inl e ↦ let none_left : none ≡ some id = rw e at h in ground arith
          | inr (s, e) ↦
              let held : some s.job ≡ some id = rw e at h in
              let same : s.job ≡ id = ground arith in
              let other : str_eq id id ≡ false =
                ap (λ t. str_eq t id) (sym same) ∙ released key id q.scopes s e in
              false≢true (sym other ∙ str_eq_refl id)
        ]

-- What is left of a refresh that is over: the job as it ended, which holds its scope no more.
abbrev pub Over : Spawned → Job → Services → Type 0
Over r done q =
    (load_job false r.key.kind r.job.workspace_id r.job.id q ≡ some done)
    × (scope_job false r.key q ≢ some r.job.id)

Over-released :
    (r : Spawned) (answer : Option String) (q : Services)
    → Over r (finished r.key.kind (record r.job { status = running }) answer) (
        release_scope false r.key r.job.id (
          save_job false r.key.kind
            (finished r.key.kind (record r.job { status = running }) answer)
            q))
unfolding release_scope load_job
Over-released r none q = (
  saved_job r.key.kind (record r.job { status = completed }) q,
  released_scope r.key r.job.id (save_job false r.key.kind (record r.job { status = completed }) q),
)
Over-released r (some m) q =
    let done : Job = finished r.key.kind (record r.job { status = running }) (some m) in
    (saved_job r.key.kind done q, released_scope r.key r.job.id (save_job false r.key.kind done q))

Over-noted :
    (r : Spawned) (done : Job) (db : Db) (q : Services)
    → Over r done q
    → Over r done (record q { db = db })
unfolding load_job scope_job
Over-noted r done db q o = o

save_job-db :
    (redis_down : Bool) (kind : Kind) (job : Job) (q : Services)
    → (save_job redis_down kind job q).db ≡ q.db
unfolding save_job
save_job-db true kind job q = refl
save_job-db false kind job q = refl

-- How a job ends by the answer of its collection: completed, or failed with a message, which for
-- desktops is the error itself.
abbrev pub Ended : Kind → Option String → Job → Type 0
Ended kind none done = done.status ≡ completed
Ended eds (some message) done = (done.status ≡ failed) × (done.error ≡ message)
Ended security_groups (some message) done =
    (done.status ≡ failed)
    × (done.error
        ≡ "Alibaba ECS security group refresh failed; check RAM permissions and selected regions")
Ended oss (some message) done =
    (done.status ≡ failed)
    × (done.error ≡ "Alibaba OSS refresh failed; check RAM permissions and account access")

-- The job is otherwise the one that was asked for.
pub record SameJob (asked done : Job) : Type 0 where
  pub id : done.id ≡ asked.id
  pub workspace : done.workspace_id ≡ asked.workspace_id
  pub account : done.account_id ≡ asked.account_id
  pub service : done.service ≡ asked.service
  pub region : done.region ≡ asked.region

finished-Ended :
    (kind : Kind) (job : Job) (answer : Option String)
    → Ended kind answer (finished kind job answer)
finished-Ended kind job none = refl
finished-Ended eds job (some m) = (refl, refl)
finished-Ended security_groups job (some m) = (refl, refl)
finished-Ended oss job (some m) = (refl, refl)

finished-SameJob :
    (kind : Kind) (job : Job) (answer : Option String)
    → SameJob job (finished kind (record job { status = running }) answer)
finished-SameJob kind job none = record {
  id = refl;
  workspace = refl;
  account = refl;
  service = refl;
  region = refl;
}
finished-SameJob kind job (some m) = record {
  id = refl;
  workspace = refl;
  account = refl;
  service = refl;
  region = refl;
}

-- A refresh of desktops, buckets or security groups ends: where Redis takes the last two calls of it,
-- the stored job is the one asked for, completed where the collection has no error, and failed where
-- it has one, with that error for desktops and with the fixed message of the service for the others;
-- and the job holds its scope no more.
pub run_refresh-Over :
    (down : ℕ → Bool) (collect : Db → Option String × Db) (r : Spawned) (q : Services)
    → down 1 ≡ false
    → down 2 ≡ false
    → (done : Job) × Ended r.key.kind (collect q.db).0 done
      × SameJob r.job done
      × Over r done (run_refresh down collect r q)
unfolding run_refresh
run_refresh-Over down collect r q saved let_go =
    let begun : Job = record r.job { status = running } in
    let before = save_job (down 0) r.key.kind begun q in
    let answer = (collect before.db).0 in
    let rest = Over-released r answer (record before { db = (collect before.db).1 }) in
    let same = save_job-db (down 0) r.key.kind begun q in
    (
      finished r.key.kind begun answer,
      subst (λ db. Ended r.key.kind (collect db).0 (finished r.key.kind begun answer)) same
          (finished-Ended r.key.kind begun answer),
      finished-SameJob r.key.kind r.job answer,
      elim (Bool-cases (down 3)) [
        | inl e ↦ rw (saved, let_go, e) rest
        | inr e ↦ rw (saved, let_go, e) (Over-noted r (finished r.key.kind begun answer) _ _ rest)
      ],
    )

pub viewed :
    (down : ℕ → Bool) (u : User) (path : Parsed) (mode : String) (q : Services) (id : ℕ)
    → (service_account down u path mode q).0 ≡ ok id
    → (account_access q.db u id mode ≡ true) × ((service_account down u path mode q).1 ≡ q)
unfolding service_account
viewed down u (positive n) mode q id h = (ground arith, ground arith)
viewed down u (negative n) mode q id h = ground arith
viewed down u malformed mode q id h = ground arith

looked_up :
    (valid : String → Bool) (down : ℕ → Bool) (kind : Kind) (u : User) (account : ℕ) (id : String)
    (q : Services) (job : Job)
    → (job_status valid down kind u account id q).0 ≡ ok job
    → (load_job (down 2) kind u.workspace_id id q ≡ some job) × (job.account_id ≡ account)
unfolding job_status
looked_up valid down kind u account id q job h = ground arith

-- A job of buckets or security groups is shown only to a user of its workspace who may view the
-- account that it refreshes, and as Redis stores it.
pub refresh_status-allowed :
    (valid : String → Bool) (down : ℕ → Bool) (kind : Kind) (u : User) (path : Parsed) (id : String)
    (q : Services) (job : Job)
    → (refresh_status valid down kind u path id q).0 ≡ ok job
    → (load_job (down 2) kind u.workspace_id id q ≡ some job)
      × (account_access q.db u job.account_id "view" ≡ true)
unfolding refresh_status
refresh_status-allowed valid down kind u path id q job h =
    let (account, picked, answered, _) =
      bind_ok (service_account down u path "view")
        (λ account. job_status valid down kind u account id) q job h in
    let (allowed, same) = viewed down u path "view" q account picked in
    let (loaded, own) = looked_up valid down kind u account id q job (rw same at answered) in
    (loaded, rw own allowed)

module _ (ops : TextOps) where
  pub viewed_eds :
      (down : ℕ → Bool) (allow_all require_region : Bool) (u : User) (path : Parsed)
      (region : String) (q : Services) (id : ℕ) (found : String)
      → (eds_snapshot_account ops down allow_all require_region u path region q).0 ≡ ok (id, found)
      → (account_access q.db u id "view" ≡ true)
        × ((eds_snapshot_account ops down allow_all require_region u path region q).1 ≡ q)
  unfolding eds_snapshot_account
  viewed_eds down allow_all require_region u (positive n) region q id found h =
      (ground arith, ground arith)
  viewed_eds down allow_all require_region u (negative n) region q id found h = ground arith
  viewed_eds down allow_all require_region u malformed region q id found h = ground arith

  -- A job of desktops or their users is shown only to a user of its workspace who may view the
  -- account that it refreshes, and as Redis stores it.
  pub eds_refresh_status-allowed :
      (valid : String → Bool) (down : ℕ → Bool) (u : User) (path : Parsed) (region id : String)
      (q : Services) (job : Job)
      → (eds_refresh_status ops valid down u path region id q).0 ≡ ok job
      → (load_job (down 2) eds u.workspace_id id q ≡ some job)
        × (account_access q.db u job.account_id "view" ≡ true)
  unfolding eds_refresh_status
  eds_refresh_status-allowed valid down u path region id q job h =
      let ((account, found), picked, answered, _) =
        bind_ok (eds_snapshot_account ops down false false u path region)
          (λ (p : ℕ × String). job_status valid down eds u p.0 id) q job h in
      let (allowed, same) = viewed_eds down false false u path region q account found picked in
      let (loaded, own) = looked_up valid down eds u account id q job (rw same at answered) in
      (loaded, rw own allowed)
