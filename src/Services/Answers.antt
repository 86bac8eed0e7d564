-- ===== src/Services/Answers.antt =====
-- The jobs that requests for refreshes are answered with.
use mathlib.Core.List.{Memᴰ}
use netriun_nexus.Prelude.{
  ℕ, String, Bool, true, false, not, ◌≡◌, refl, sym, ap, ◌∙◌, ◌&&◌, ◌||◌, arith, str_eq, find,
  if◌then◌else◌, Bool-cases, inl, inr, Option, Option-cases, some, none, ok, str_eq_refl, bind_ok,
  gate_ok, ◌&&◌, ◌||◌, not, gate_ok, find_passes, mem_of_find, find_passes, All_of_mem,
}
use netriun_nexus.Store.{User, Db}
use netriun_nexus.Services.{
  Kind, eds, security_groups, oss, same_kind, Job, ScopeKey, Scope, Stored, Services, key_eq,
  is_stored, load_job, scope_job, claim_scope, is_active, waiting, queue_job, refresh_scope,
  new_job, joined,
}
use netriun_nexus.Text.{TextOps}
use netriun_nexus.Policy.{account_access}
use netriun_nexus.Request.{Parsed}
use netriun_nexus.Services.Handlers.{
  refresh_oss, refresh_security_groups, refresh_eds, refresh_region, service_account,
  eds_snapshot_account, oss_scope_key, security_groups_scope_key, eds_scope_key,
}
use netriun_nexus.Services.Histories.{Inv, names_job, Reach, Reach-Inv, scope_found}
use netriun_nexus.Services.Jobs.{viewed, viewed_eds}

loaded_job :
    (redis_down : Bool) (kind : Kind) (workspace : ℕ) (id : String) (q : Services) (job : Job)
    → load_job redis_down kind workspace id q ≡ some job
    → (s : Stored) × Memᴰ s q.jobs × (is_stored kind workspace id s ≡ true) × (s.job ≡ job)
unfolding load_job
loaded_job true kind workspace id q job h = ground arith
loaded_job false kind workspace id q job h =
    elim (Option-cases (find (is_stored kind workspace id) q.jobs)) [
      | inl e ↦ let none_left : none ≡ some job = rw e at h in ground arith
      | inr (s, e) ↦
          let held : some s.job ≡ some job = rw e at h in
          (s, mem_of_find _ q.jobs s e, find_passes _ q.jobs s e, ground arith)
    ]

kind_of_same : (k l : Kind) → same_kind k l ≡ true → k ≡ l
kind_of_same eds eds h = refl
kind_of_same eds security_groups h = ground arith
kind_of_same eds oss h = ground arith
kind_of_same security_groups eds h = ground arith
kind_of_same security_groups security_groups h = refl
kind_of_same security_groups oss h = ground arith
kind_of_same oss eds h = ground arith
kind_of_same oss security_groups h = ground arith
kind_of_same oss oss h = refl

names :
    (key : ScopeKey) (c : Scope) (s : Stored)
    → key_eq c.key key ≡ true
    → is_stored key.kind key.workspace c.job s ≡ true
    → (names_job c s.kind s.workspace s.job ≡ true) × (c.key.account ≡ key.account)
names key c s h k =
    let one = kind_of_same c.key.kind key.kind (ground arith) in
    let two = kind_of_same s.kind key.kind (ground arith) in (ground arith, ground arith)

-- The job that a scope leads to is of the account of the scope.
led_to :
    (scope_down job_down : Bool) (key : ScopeKey) (q : Services) (id : String) (job : Job)
    → Inv q
    → scope_job scope_down key q ≡ some id
    → load_job job_down key.kind key.workspace id q ≡ some job
    → job.account_id ≡ key.account
led_to scope_down job_down key q id job v held stored =
    let (c, e, same) = scope_found scope_down key q id held in
    let keyed = find_passes _ q.scopes c e in
    let (s, m, found, is) = loaded_job job_down key.kind key.workspace id q job stored in
    let fits =
      All_of_mem _ q.scopes (mem_of_find _ q.scopes c e) (All_of_mem _ q.jobs m v.stored) in
    let (named, own) = names key c s keyed (rw same found) in
    sym (ap (λ j. j.account_id) is) ∙ sym (fits named) ∙ own

joined-account :
    (kind : Kind) (o : Option Job) (account : ℕ) (q : Services) (job : Job)
    → ((j : Job) → o ≡ some j → j.account_id ≡ account)
    → (joined kind o q).0 ≡ ok job
    → job.account_id ≡ account
joined-account kind none account q job f h = ground arith
joined-account kind (some j) account q job f h =
    let same : j ≡ job = ground arith in rw (sym same) (f j refl)

waiting-account :
    (down : ℕ → Bool) (key : ScopeKey) (q : Services) (job : Job)
    → Inv q
    → waiting down key q ≡ some job
    → job.account_id ≡ key.account
unfolding waiting
waiting-account down key q job v h = elim (Option-cases (scope_job (down 2) key q)) [
  | inl e ↦ let none_left : none ≡ some job = rw e at h in ground arith
  | inr (id, e) ↦ elim (Option-cases (load_job (down 3) key.kind key.workspace id q)) [
    | inl l ↦ let none_left : none ≡ some job = rw l at (rw e at h) in ground arith
    | inr (j, l) ↦
        let active : (if is_active j.status then some j else none) ≡ some job =
          rw l at (rw e at h) in
        let same : j ≡ job = ground arith in
        rw (sym same) (led_to (down 2) (down 3) key q id j v e l)
  ]
]

queued-account :
    (down : ℕ → Bool) (u : User) (token : String) (key : ScopeKey) (q : Services)
    (o : Option String) (job : Job)
    → scope_job false key q ≡ o
    → key.workspace ≡ u.workspace_id
    → Inv q
    → (queue_job down u key (new_job token u key) q).0 ≡ ok job
    → job.account_id ≡ key.account
unfolding queue_job claim_scope
queued-account down u token key q none job free own v h = elim (Bool-cases (down 4)) [
  | inl d ↦ ground arith
  | inr d ↦
      let answered : ok (new_job token u key) ≡ ok job = rw (d, free, str_eq_refl token) at h in
      let same : new_job token u key ≡ job = ground arith in ap (λ j. j.account_id) (sym same)
]
queued-account down u token key q (some id) job held own v h = elim (Bool-cases (down 4)) [
  | inl d ↦ ground arith
  | inr d ↦ elim (Bool-cases (str_eq id token)) [
    | inl k ↦
        let answered : ok (new_job token u key) ≡ ok job = rw (d, held, k) at h in
        let same : new_job token u key ≡ job = ground arith in ap (λ j. j.account_id) (sym same)
    | inr k ↦
        joined-account key.kind (load_job (down 5) key.kind u.workspace_id id q) key.account q job
          (λ j l. led_to false (down 5) key q id j v held (rw own l)) (rw (d, held, k) at h)
  ]
]

-- Whatever was asked, ran and expired before, a refresh of a scope is answered with a job of the
-- account of that scope.
refresh_scope-account :
    (down : ℕ → Bool) (u : User) (token : String) (key : ScopeKey) (q : Services) (job : Job)
    → key.workspace ≡ u.workspace_id
    → Inv q
    → (refresh_scope down u token key q).0 ≡ ok job
    → job.account_id ≡ key.account
unfolding refresh_scope
refresh_scope-account down u token key q job own v h = elim (Option-cases (waiting down key q)) [
  | inl e ↦ queued-account down u token key q (scope_job false key q) job refl own v (rw e at h)
  | inr (j, e) ↦
      let held : ok j ≡ ok job = rw e at h in
      let same : j ≡ job = ground arith in rw (sym same) (waiting-account down key q j v e)
]

module _ {db : Db} {q : Services} (r : Reach db q) where
  -- Whatever was asked, ran and expired before, a request to refresh the buckets of an account is
  -- answered only with a job of an account that the user may view.
  pub refresh_oss-viewed :
      (down : ℕ → Bool) (u : User) (token : String) (path : Parsed) (job : Job)
      → (refresh_oss down u token path q).0 ≡ ok job
      → account_access q.db u job.account_id "view" ≡ true
  unfolding refresh_oss oss_scope_key
  refresh_oss-viewed down u token path job h =
      let (account, picked, answered, _) =
        bind_ok (service_account down u path "view")
          (λ account. refresh_scope down u token (oss_scope_key u.workspace_id account)) q job h in
      let (allowed, same) = viewed down u path "view" q account picked in
      let own =
        refresh_scope-account down u token (oss_scope_key u.workspace_id account) q job refl
          (Reach-Inv r) (rw same at answered) in
      rw own allowed

  -- The same for security groups.
  pub refresh_security_groups-viewed :
      (down : ℕ → Bool) (u : User) (token : String) (path : Parsed) (job : Job)
      → (refresh_security_groups down u token path q).0 ≡ ok job
      → account_access q.db u job.account_id "view" ≡ true
  unfolding refresh_security_groups security_groups_scope_key
  refresh_security_groups-viewed down u token path job h =
      let (account, picked, answered, _) =
        bind_ok (service_account down u path "view")
          (λ account. refresh_scope down u token (security_groups_scope_key u.workspace_id account))
          q job h in
      let (allowed, same) = viewed down u path "view" q account picked in
      let own =
        refresh_scope-account down u token (security_groups_scope_key u.workspace_id account) q job
          refl (Reach-Inv r) (rw same at answered) in
      rw own allowed

  -- Whatever was asked, ran and expired before, a request to refresh the desktops of an account, or
  -- their users, is answered only with a job of an account that the user may view.
  pub refresh_eds-viewed :
      (ops : TextOps) (down : ℕ → Bool) (u : User) (token : String) (path : Parsed)
      (region service : String) (job : Job)
      → (refresh_eds ops down u token path region service q).0 ≡ ok job
      → account_access q.db u job.account_id "view" ≡ true
  unfolding refresh_eds refresh_region eds_scope_key
  refresh_eds-viewed ops down u token path region service job h =
      let ((account, found), picked, answered, _) =
        bind_ok (eds_snapshot_account ops down true true u path region)
          (refresh_region down u token (ops.trim_space service)) q job h in
      let (allowed, same) = viewed_eds ops down true true u path region q account found picked in
      let key = eds_scope_key u.workspace_id account (ops.trim_space service) found in
      let known = ops.trim_space service in
      let (_, h1, _) =
        gate_ok (str_eq known "desktops" || str_eq known "users") _ _ _ q job
          (rw same at answered) in
      let (_, h2, _) = gate_ok (not (str_eq known "users" && str_eq found "all")) _ _ _ q job h1 in
      let own = refresh_scope-account down u token key q job refl (Reach-Inv r) h2 in rw own allowed
