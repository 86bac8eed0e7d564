-- ===== src/Refresh/Jobs.antt =====
-- One refresh at a time for the same accounts; how a refresh ends; who may see it.
use mathlib.Core.Bool.{false≢true}
use netriun_nexus.Prelude.{
  ℕ, String, Bool, true, false, ◌≡◌, ◌≢◌, refl, sym, ap, ◌∙◌, List, [], ◌∷◌, ◌&&◌, ◌==◌, arith,
  str_eq, str_eq_refl, ==_refl, all, find, drop_where, contains, is_empty, Bool-cases, inl, inr,
  Option, some, none, ok, Option-cases,
}
use netriun_nexus.Store.{User, Db, account_view, named}
use netriun_nexus.Request.{append_entry, entry}
use netriun_nexus.Policy.{accessible_account_ids, order_ids}
use netriun_nexus.Refresh.{
  Queue, Job, Scope, ScopeKey, joined, started, ids_eq, key_eq, refresh_scope_key, save_refresh_job,
  load_refresh_job, scope_job, release_scope, claim_scope, is_active, new_job, waiting, clear_stale,
  queue_job, refresh_inventory, run_inventory_refresh, inventory_refresh_status,
  failed_refresh_accounts, Failure, running, finished,
}

ids_eq_refl : (xs : List ℕ) → ids_eq xs xs ≡ true
ids_eq_refl [] = refl
ids_eq_refl (x ∷ xs) = rw (==_refl x, ids_eq_refl xs) refl

key_eq_refl : (k : ScopeKey) → key_eq k k ≡ true
key_eq_refl k = rw (==_refl k.workspace, ids_eq_refl k.ids) refl

-- While a job of the accounts is queued or running, a request for them is answered with that job and
-- changes nothing: no second job is stored or started.
pub refresh_inventory-joins :
    (down : ℕ → Bool) (u : User) (token : String) (ids : List ℕ) (q : Queue) (id : String)
    (job : Job)
    → is_empty ids ≡ false
    → scope_job (down 0) (refresh_scope_key u.workspace_id ids) q ≡ some id
    → load_refresh_job (down 1) u.workspace_id id q ≡ some job
    → is_active job ≡ true
    → refresh_inventory down u token ids q ≡ (ok (joined job), q)
unfolding refresh_inventory waiting
refresh_inventory-joins down u token ids q id job given held stored active =
    rw (given, held, stored, active) refl

-- No statement and no call of Redis fails.
abbrev pub up : ℕ → Bool
up _ = false

abbrev waited : Db → Job → ScopeKey → Queue → Queue
waited db job key q = record q {
  db = db;
  scopes = record { key = key; job = job.id } ∷ q.scopes;
  jobs =
      record { workspace = job.workspace_id; job = job }
      ∷ drop_where (λ s. s.workspace == job.workspace_id && str_eq s.job.id job.id) q.jobs;
  spawned = job ∷ q.spawned;
}

waited-scope :
    (db : Db) (job : Job) (key : ScopeKey) (q : Queue)
    → scope_job false key (waited db job key q) ≡ some job.id
unfolding scope_job
waited-scope db job key q = rw (key_eq_refl key) refl

waited-load :
    (db : Db) (job : Job) (key : ScopeKey) (q : Queue)
    → load_refresh_job false job.workspace_id job.id (waited db job key q) ≡ some job
unfolding load_refresh_job
waited-load db job key q = rw (==_refl job.workspace_id, str_eq_refl job.id) refl

claim_free :
    (key : ScopeKey) (job : Job) (q : Queue)
    → scope_job false key q ≡ none
    → claim_scope key job q ≡ (
      job.id,
      save_refresh_job false job
          (record q { scopes = record { key = key; job = job.id } ∷ q.scopes }),
    )
unfolding claim_scope
claim_free key job q free = rw (claim_scope, free) refl

queue_free :
    (u : User) (key : ScopeKey) (token : String) (ids : List ℕ) (q : Queue)
    → scope_job false key q ≡ none
    → queue_job up u key (new_job token u ids) q ≡ (
      ok (started (new_job token u ids)),
      waited
          (append_entry (entry u "inventory.refresh_queued" (named token)) q.db)
          (new_job token u ids)
          key
          q,
    )
unfolding queue_job save_refresh_job
queue_free u key token ids q free =
    rw (claim_free key (new_job token u ids) q free, str_eq_refl token) refl

nothing_waits :
    (workspace : ℕ) (key : ScopeKey) (q : Queue)
    → scope_job false key q ≡ none
    → (waiting up workspace key q ≡ none) × (clear_stale up key q ≡ q)
unfolding waiting clear_stale
nothing_waits workspace key q free = (rw (waiting, free) refl, rw (clear_stale, free) refl)

-- The start of a job, where none holds its accounts.
starts :
    (u : User) (token : String) (ids : List ℕ) (q : Queue)
    → is_empty ids ≡ false
    → scope_job false (refresh_scope_key u.workspace_id ids) q ≡ none
    → refresh_inventory up u token ids q ≡ (
      ok (started (new_job token u ids)),
      waited
          (append_entry (entry u "inventory.refresh_queued" (named token)) q.db)
          (new_job token u ids)
          (refresh_scope_key u.workspace_id ids)
          q,
    )
unfolding refresh_inventory
starts u token ids q given free =
    let (idle, kept) = nothing_waits u.workspace_id (refresh_scope_key u.workspace_id ids) q free in
    rw (given, idle, kept) (queue_free u (refresh_scope_key u.workspace_id ids) token ids q free)

-- Where no job holds the accounts, and nothing fails, a request starts a job; the next request of
-- the workspace for the same accounts, in whatever order it names them, waits for that job and
-- starts none.
pub refresh_inventory-once :
    (u v : User) (token other : String) (ids same_ids : List ℕ) (q : Queue)
    → is_empty ids ≡ false
    → is_empty same_ids ≡ false
    → scope_job false (refresh_scope_key u.workspace_id ids) q ≡ none
    → v.workspace_id ≡ u.workspace_id
    → order_ids same_ids ≡ order_ids ids
    → ((refresh_inventory up u token ids q).0 ≡ ok (started (new_job token u ids)))
      × (refresh_inventory up v other same_ids (refresh_inventory up u token ids q).1
          ≡ (ok (joined (new_job token u ids)), (refresh_inventory up u token ids q).1))
unfolding refresh_scope_key is_active
refresh_inventory-once u v token other ids same_ids q given also free workspace same =
    let db = append_entry (entry u "inventory.refresh_queued" (named token)) q.db in
    let first = starts u token ids q given free in
    (
      ap (λ r. r.0) first,
      rw first (
          refresh_inventory-joins up v other same_ids
            (waited db (new_job token u ids) (refresh_scope_key u.workspace_id ids) q) token
            (new_job token u ids) also
            (rw (workspace, same)
              (waited-scope db (new_job token u ids) (refresh_scope_key u.workspace_id ids) q))
            (rw workspace
              (waited-load db (new_job token u ids) (refresh_scope_key u.workspace_id ids) q))
            refl),
    )

released :
    (key : ScopeKey) (id : String) (scopes : List Scope) (s : Scope)
    → find
        (λ (s : Scope). key_eq s.key key)
        (drop_where (λ (s : Scope). key_eq s.key key && str_eq s.job id) scopes)
      ≡ some s
    → str_eq s.job id ≡ false
released key id [] s h = ground arith
released key id (x ∷ scopes) s h = elim (Bool-cases (key_eq x.key key && str_eq x.job id)) [
  | inl q ↦ released key id scopes s (rw q at h)
  | inr q ↦ elim (Bool-cases (key_eq x.key key)) [
    | inl k ↦ let here : some x ≡ some s = rw k at (rw q at h) in ground arith
    | inr k ↦ released key id scopes s (rw k at (rw q at h))
  ]
]

released_scope :
    (key : ScopeKey) (id : String) (q : Queue)
    → scope_job false key (release_scope false key id q) ≢ some id
unfolding scope_job release_scope
released_scope key id q h =
    elim (Option-cases (
      find (λ (s : Scope). key_eq s.key key)
        (drop_where (λ (s : Scope). key_eq s.key key && str_eq s.job id) q.scopes))) [
          | inl e ↦ let none_left : none ≡ some id = rw e at h in ground arith
          | inr (s, e) ↦
              let held : some s.job ≡ some id = rw e at h in
              let same : s.job ≡ id = ground arith in
              let other : str_eq id id ≡ false =
                ap (λ t. str_eq t id) (sym same) ∙ released key id q.scopes s e in
              false≢true (sym other ∙ str_eq_refl id)
        ]

saved_job :
    (job : Job) (q : Queue)
    → load_refresh_job false job.workspace_id job.id (save_refresh_job false job q) ≡ some job
unfolding load_refresh_job save_refresh_job
saved_job job q = rw (==_refl job.workspace_id, str_eq_refl job.id) refl

-- What is left of a job that is over.
abbrev pub Over : Job → Queue → Type 0
Over job q =
    ((over : Job) × (load_refresh_job false job.workspace_id job.id q ≡ some over)
      × (is_active over ≡ false))
    × (scope_job false (refresh_scope_key job.workspace_id job.account_ids) q ≢ some job.id)

ended :
    (job : Job) (r : Option String) (failures : Option (List Failure))
    → ((finished job r failures).id ≡ job.id)
      × ((finished job r failures).workspace_id ≡ job.workspace_id)
      × (is_active (finished job r failures) ≡ false)
unfolding is_active
ended job (some m) failures = (refl, refl, refl)
ended job none none = (refl, refl, refl)
ended job none (some []) = (refl, refl, refl)
ended job none (some (f ∷ failures)) = (refl, refl, refl)

load-release :
    (workspace : ℕ) (key : ScopeKey) (id : String) (q : Queue)
    → load_refresh_job false workspace id (release_scope false key id q)
      ≡ load_refresh_job false workspace id q
unfolding load_refresh_job release_scope
load-release workspace key id q = refl

Over-released :
    (job done : Job) (q : Queue)
    → done.id ≡ job.id
    → done.workspace_id ≡ job.workspace_id
    → is_active done ≡ false
    → Over job (
        release_scope false
          (refresh_scope_key job.workspace_id job.account_ids)
          job.id
          (save_refresh_job false done q))
Over-released job done q same workspace over =
    let key = refresh_scope_key job.workspace_id job.account_ids in
    let loaded : load_refresh_job false job.workspace_id job.id (save_refresh_job false done q)
        ≡ some done =
      ap (λ w. load_refresh_job false w job.id (save_refresh_job false done q)) (sym workspace)
      ∙ ap (λ i. load_refresh_job false done.workspace_id i (save_refresh_job false done q))
          (sym same)
      ∙ saved_job done q in
    (
      (
        done,
        load-release job.workspace_id key job.id (save_refresh_job false done q) ∙ loaded,
        over,
      ),
      released_scope key job.id (save_refresh_job false done q),
    )

Over-noted : (job : Job) (db : Db) (q : Queue) → Over job q → Over job (record q { db = db })
unfolding load_refresh_job scope_job
Over-noted job db q o = o

-- A refresh ends: whatever the collection and the database answer, the job that Redis stores at its
-- end is completed, partial or failed, and no longer holds its accounts, where Redis takes these two
-- calls.
pub run_inventory_refresh-Over :
    (down : ℕ → Bool) (collect : Db → Option String × Db) (job : Job) (q : Queue)
    → down 2 ≡ false
    → down 3 ≡ false
    → Over job (run_inventory_refresh down collect job q)
unfolding run_inventory_refresh
run_inventory_refresh-Over down collect job q saved let_go =
    let begun_job : Job = record job { status = running } in
    let before = save_refresh_job (down 0) begun_job q in
    let collected = collect before.db in
    let failures = failed_refresh_accounts (down 1) job.workspace_id job.account_ids collected.1 in
    let (same, workspace, over) = ended begun_job collected.0 failures in
    let rest =
      Over-released job (finished begun_job collected.0 failures)
        (record before { db = collected.1 }) same workspace over in
    elim (Bool-cases (down 4)) [
      | inl e ↦ rw (saved, let_go, e) rest
      | inr e ↦ rw (saved, let_go, e) (Over-noted job _ _ rest)
    ]

-- A job is shown only to users of its workspace who may view every account of it.
pub inventory_refresh_status-allowed :
    (valid : String → Bool) (down : ℕ → Bool) (u : User) (id : String) (q : Queue) (job : Job)
    → (inventory_refresh_status valid down u id q).0 ≡ ok job
    → (load_refresh_job (down 0) u.workspace_id id q ≡ some job)
      × (all (contains (accessible_account_ids q.db u account_view)) job.account_ids ≡ true)
unfolding inventory_refresh_status
inventory_refresh_status-allowed valid down u id q job h = ground arith
