-- ===== src/Services/Histories.antt =====
-- Any sequence of requests for refreshes, runs of what they started and expiries in Redis; what the
-- scopes and jobs are like after it.
use mathlib.Core.List.{Memᴰ}
use mathlib.Core.Bool.{false≢true}
use netriun_nexus.Prelude.{
  ℕ, String, Bool, true, false, not, ◌≡◌, refl, sym, ap, ◌∙◌, List, [], ◌∷◌, ◌&&◌, ◌||◌, ◌==◌,
  arith, str_eq, any, find, drop_where, Bool-cases, inl, inr, Option, Option-cases, some, none, All,
  str_eq_refl, eq_of_str_eq, mem_of_find, All_of_mem, All-keep, All-mono,
}
use netriun_nexus.Store.{User, Db}
use netriun_nexus.Refresh.{running}
use netriun_nexus.Services.{
  Kind, same_kind, Job, ScopeKey, Scope, Stored, Spawned, Services, key_eq, is_stored, put_job,
  save_job, load_job, scope_job, claim_scope, waiting, queue_job, refresh_scope, new_job, joined,
  release_scope, note, finished, run_refresh, requester,
}

-- No job, scope or goroutine has the token yet.
abbrev pub is_new : String → Services → Bool
is_new token q = not (
    any (λ c. str_eq token c.job) q.scopes
    || any (λ s. str_eq s.job.id token) q.jobs
    || any (λ r. str_eq r.job.id token) q.spawned)

-- Requests draw new tokens; their keys are of the user's workspace. Redis forgets a scope or a job
-- when its time is over.
pub data Step (q : Services) : Services → Type 0 where
  asks :
      (down : ℕ → Bool) (u : User) (token : String) (key : ScopeKey)
      → key.workspace ≡ u.workspace_id
      → is_new token q ≡ true
      → Step q (refresh_scope down u token key q).1
  runs :
      (down : ℕ → Bool) (collect : Db → Option String × Db) (r : Spawned)
      → Memᴰ r q.spawned
      → Step q (run_refresh down collect r q)
  scope_expires :
      (key : ScopeKey) → Step q (record q { scopes = drop_where (λ c. key_eq c.key key) q.scopes })
  job_expires :
      (kind : Kind) (workspace : ℕ) (id : String)
      → Step q (record q { jobs = drop_where (is_stored kind workspace id) q.jobs })

abbrev pub start : Db → Services
start db = record { db = db; scopes = []; jobs = []; spawned = []; sent = [] }

pub data Reach (db : Db) : Services → Type 0 where
  here : Reach db (start db)
  later : {q q' : Services} → Reach db q → Step q q' → Reach db q'

abbrev pub names_job : Scope → Kind → ℕ → Job → Bool
names_job c kind workspace job =
    same_kind c.key.kind kind && c.key.workspace == workspace && str_eq job.id c.job

-- A scope that holds a job has the account of it.
abbrev pub Fits : Kind → ℕ → Job → Scope → Type 0
Fits kind workspace job c = names_job c kind workspace job ≡ true → c.key.account ≡ job.account_id

abbrev pub StoredFits : List Scope → Stored → Type 0
StoredFits scopes s = All (Fits s.kind s.workspace s.job) scopes

abbrev pub SpawnedFits : List Scope → Spawned → Type 0
SpawnedFits scopes r = All (Fits r.key.kind r.job.workspace_id r.job) scopes

pub record Inv (q : Services) : Type 0 where
  pub stored : All (StoredFits q.scopes) q.jobs
  pub spawned : All (SpawnedFits q.scopes) q.spawned

-- Nothing of a new token fits anything else.
new_scope-Fits :
    (key : ScopeKey) (token : String) (kind : Kind) (workspace : ℕ) (job : Job)
    → str_eq job.id token ≡ false
    → Fits kind workspace job (record { key = key; job = token })
new_scope-Fits key token kind workspace job e h = ground arith

new_job-Fits :
    (kind : Kind) (workspace : ℕ) (job : Job) (scopes : List Scope)
    → any (λ c. str_eq job.id c.job) scopes ≡ false
    → All (Fits kind workspace job) scopes
new_job-Fits kind workspace job [] e = tt
new_job-Fits kind workspace job (c ∷ scopes) e =
    ((λ h. ground arith), new_job-Fits kind workspace job scopes (ground arith))

old_stored-Fits :
    (key : ScopeKey) (token : String) (scopes : List Scope) (jobs : List Stored)
    → any (λ s. str_eq s.job.id token) jobs ≡ false
    → All (StoredFits scopes) jobs
    → All (StoredFits (record { key = key; job = token } ∷ scopes)) jobs
old_stored-Fits key token scopes [] e h = tt
old_stored-Fits key token scopes (s ∷ jobs) e (f, h) = (
  (new_scope-Fits key token s.kind s.workspace s.job (ground arith), f),
  old_stored-Fits key token scopes jobs (ground arith) h,
)

old_spawned-Fits :
    (key : ScopeKey) (token : String) (scopes : List Scope) (rs : List Spawned)
    → any (λ r. str_eq r.job.id token) rs ≡ false
    → All (SpawnedFits scopes) rs
    → All (SpawnedFits (record { key = key; job = token } ∷ scopes)) rs
old_spawned-Fits key token scopes [] e h = tt
old_spawned-Fits key token scopes (r ∷ rs) e (f, h) = (
  (new_scope-Fits key token r.key.kind r.job.workspace_id r.job (ground arith), f),
  old_spawned-Fits key token scopes rs (ground arith) h,
)

module _ (q : Services) (v : Inv q) where
  dropped_scopes-Inv : (p : Scope → Bool) → Inv (record q { scopes = drop_where p q.scopes })
  dropped_scopes-Inv p = record {
    stored = All-mono _ _ q.jobs (λ s f. All-keep _ (λ c. not (p c)) q.scopes f) v.stored;
    spawned = All-mono _ _ q.spawned (λ r f. All-keep _ (λ c. not (p c)) q.scopes f) v.spawned;
  }

  dropped_jobs-Inv : (p : Stored → Bool) → Inv (record q { jobs = drop_where p q.jobs })
  dropped_jobs-Inv p = record {
    stored = All-keep _ (λ s. not (p s)) q.jobs v.stored;
    spawned = v.spawned;
  }

  db-Inv : (db : Db) → Inv (record q { db = db })
  db-Inv db = record { stored = v.stored; spawned = v.spawned }

  save_job-Inv :
      (redis_down : Bool) (kind : Kind) (job : Job)
      → All (Fits kind job.workspace_id job) q.scopes
      → Inv (save_job redis_down kind job q)
  unfolding save_job
  save_job-Inv true kind job f = v
  save_job-Inv false kind job f = record {
    stored = (f, All-keep _ (λ s. not (is_stored kind job.workspace_id job.id s)) q.jobs v.stored);
    spawned = v.spawned;
  }

  release_scope-Inv :
      (redis_down : Bool) (key : ScopeKey) (id : String) → Inv (release_scope redis_down key id q)
  unfolding release_scope
  release_scope-Inv true key id = v
  release_scope-Inv false key id = dropped_scopes-Inv (λ s. key_eq s.key key && str_eq s.job id)

  note-Inv : (down : Bool) (u : User) (action target : String) → Inv (note down u action target q)
  note-Inv true u action target = v
  note-Inv false u action target = db-Inv _

-- A scope is claimed with a new token.
started-Inv :
    (q : Services) (u : User) (token : String) (key : ScopeKey)
    → key.workspace ≡ u.workspace_id
    → is_new token q ≡ true
    → Inv q
    → Inv (record q {
      scopes = record { key = key; job = token } ∷ q.scopes;
      jobs = put_job key.kind (new_job token u key) q.jobs;
      spawned = record { key = key; job = new_job token u key } ∷ q.spawned;
    })
started-Inv q u token key own fresh v =
    let job : Job = new_job token u key in
    let unnamed = new_job-Fits key.kind u.workspace_id job q.scopes (ground arith) in
    record {
      stored = (
        ((λ h. refl), unnamed),
        All-keep _ (λ s. not (is_stored key.kind u.workspace_id token s)) q.jobs
            (old_stored-Fits key token q.scopes q.jobs (ground arith) v.stored),
      );
      spawned = (
        ((λ h. refl), unnamed),
        old_spawned-Fits key token q.scopes q.spawned (ground arith) v.spawned,
      );
    }

pub scope_found :
    (redis_down : Bool) (key : ScopeKey) (q : Services) (id : String)
    → scope_job redis_down key q ≡ some id
    → (c : Scope) × (find (λ (s : Scope). key_eq s.key key) q.scopes ≡ some c) × (c.job ≡ id)
unfolding scope_job
scope_found true key q id h = ground arith
scope_found false key q id h =
    elim (Option-cases (find (λ (s : Scope). key_eq s.key key) q.scopes)) [
      | inl e ↦ let none_left : none ≡ some id = rw e at h in ground arith
      | inr (c, e) ↦ let held : some c.job ≡ some id = rw e at h in (c, e, ground arith)
    ]

other_job :
    (token : String) (scopes : List Scope) (c : Scope)
    → any (λ c. str_eq token c.job) scopes ≡ false
    → Memᴰ c scopes
    → str_eq token c.job ≡ false
other_job token [] c h m = elim m [ ]
other_job token (s ∷ scopes) c h (Memᴰ.head e) = rw e (ground arith)
other_job token (s ∷ scopes) c h (Memᴰ.tail m) = other_job token scopes c (ground arith) m

-- A scope that is held is not held by a new token.
held_old :
    (key : ScopeKey) (token : String) (q : Services) (id : String)
    → scope_job false key q ≡ some id
    → is_new token q ≡ true
    → str_eq id token ≡ false
held_old key token q id h fresh =
    let (c, e, same) = scope_found false key q id h in
    let other = other_job token q.scopes c (ground arith) (mem_of_find _ q.scopes c e) in
    elim (Bool-cases (str_eq id token)) [
      | inr k ↦ k
      | inl k ↦
          let own : token ≡ c.job = sym (same ∙ eq_of_str_eq id token k) in
          absurd (false≢true (sym other ∙ ap (str_eq token) (sym own) ∙ str_eq_refl token))
    ]

pub joined-reads : (kind : Kind) (o : Option Job) (q : Services) → (joined kind o q).1 ≡ q
joined-reads kind none q = refl
joined-reads kind (some job) q = refl

queued-Inv :
    (down : ℕ → Bool) (u : User) (token : String) (key : ScopeKey) (q : Services)
    (o : Option String)
    → scope_job false key q ≡ o
    → key.workspace ≡ u.workspace_id
    → is_new token q ≡ true
    → Inv q
    → Inv (queue_job down u key (new_job token u key) q).1
unfolding queue_job claim_scope
queued-Inv down u token key q none free own fresh v = elim (Bool-cases (down 4)) [
  | inl d ↦ rw d v
  | inr d ↦
      rw (d, free, str_eq_refl token)
        (note-Inv _ (started-Inv q u token key own fresh v) (down 6) u _ token)
]
queued-Inv down u token key q (some id) held own fresh v = elim (Bool-cases (down 4)) [
  | inl d ↦ rw d v
  | inr d ↦
      rw
        (
          d,
          held,
          held_old key token q id held fresh,
          joined-reads key.kind (load_job (down 5) key.kind u.workspace_id id q) q,
        )
        v
]

refresh_scope-Inv :
    (down : ℕ → Bool) (u : User) (token : String) (key : ScopeKey) (q : Services)
    → key.workspace ≡ u.workspace_id
    → is_new token q ≡ true
    → Inv q
    → Inv (refresh_scope down u token key q).1
unfolding refresh_scope
refresh_scope-Inv down u token key q own fresh v = elim (Option-cases (waiting down key q)) [
  | inl e ↦ rw e (queued-Inv down u token key q (scope_job false key q) refl own fresh v)
  | inr (job, e) ↦ rw e v
]

save_job-scopes :
    (redis_down : Bool) (kind : Kind) (job : Job) (q : Services)
    → (save_job redis_down kind job q).scopes ≡ q.scopes
unfolding save_job
save_job-scopes true kind job q = refl
save_job-scopes false kind job q = refl

finished-Fits :
    (kind : Kind) (job : Job) (answer : Option String) (scopes : List Scope)
    → All (Fits kind job.workspace_id job) scopes
    → All
        (Fits kind
          (finished kind (record job { status = running }) answer).workspace_id
          (finished kind (record job { status = running }) answer))
        scopes
finished-Fits kind job none scopes f = f
finished-Fits kind job (some message) scopes f = f

run_refresh-Inv :
    (down : ℕ → Bool) (collect : Db → Option String × Db) (r : Spawned) (q : Services)
    → Memᴰ r q.spawned
    → Inv q
    → Inv (run_refresh down collect r q)
unfolding run_refresh
run_refresh-Inv down collect r q m v =
    let begun : Job = record r.job { status = running } in
    let fits = All_of_mem _ q.spawned m v.spawned in
    let before = save_job (down 0) r.key.kind begun q in
    let before_inv = save_job-Inv q v (down 0) r.key.kind begun fits in
    let collected = record before { db = (collect before.db).1 } in
    let done = finished r.key.kind begun (collect before.db).0 in
    let stored = save_job (down 1) r.key.kind done collected in
    let same = save_job-scopes (down 0) r.key.kind begun q in
    let stored_inv =
      save_job-Inv collected (db-Inv before before_inv _) (down 1) r.key.kind done
        (finished-Fits r.key.kind r.job (collect before.db).0 before.scopes (rw same fits)) in
    note-Inv _ (release_scope-Inv stored stored_inv (down 2) r.key r.job.id) (down 3)
      (requester r.job) _ _

Step-Inv : {q q' : Services} → Inv q → Step q q' → Inv q'
Step-Inv {q} v (asks down u token key own fresh) = refresh_scope-Inv down u token key q own fresh v
Step-Inv {q} v (runs down collect r m) = run_refresh-Inv down collect r q m v
Step-Inv {q} v (scope_expires key) = dropped_scopes-Inv q v (λ c. key_eq c.key key)
Step-Inv {q} v (job_expires kind workspace id) = dropped_jobs-Inv q v (is_stored kind workspace id)

pub Reach-Inv : {db : Db} {q : Services} → Reach db q → Inv q
Reach-Inv here = record { stored = tt; spawned = tt }
Reach-Inv (later r s) = Step-Inv (Reach-Inv r) s
