-- ===== src/Policy/Isolation.antt =====
-- Workspaces are isolated: a decision reads no row of another workspace.
use netriun_nexus.Prelude.{
  ℕ, Bool, true, ◌≡◌, sym, ap, ◌∙◌, [], arith, ◌==◌, any, keep, any-keep, any_congr, any_witness,
  not,
}
use netriun_nexus.Store.{Capability, Assignment, AccessRole, CloudAccount, Db, User}
use netriun_nexus.Policy.{
  checked_grant, checked_assignment, checked_legacy, is_unassigned, checked_account, can_account,
  effective_user_groups,
}

-- What workspace `w` owns of the tables that the policy reads. The view effective_user_groups has
-- no workspace column and is kept whole.
abbrev pub workspace_rows : ℕ → Db → Db
workspace_rows w db = record {
  workspaces = [];
  users = [];
  access_groups = keep (λ g. g.workspace_id == w) db.access_groups;
  user_groups = db.user_groups;
  identity_providers = [];
  external_identities = [];
  group_mappings = [];
  sso_grants = db.sso_grants;
  cloud_accounts = keep (λ a. a.workspace_id == w) db.cloud_accounts;
  access_roles = keep (λ r. r.workspace_id == w) db.access_roles;
  assignments = keep (λ a. a.workspace_id == w) db.assignments;
  instances = [];
  tokens = [];
  settings = [];
  service_snapshots = [];
  audit_log = [];
  next_id = 0;
}

module _ (db : Db) (u : User) (c : Capability) where
  abbrev in_workspace : ℕ → Bool
  in_workspace w = w == u.workspace_id

  grant_workspace :
      (a : CloudAccount) (aa : Assignment)
      → any (checked_grant db u a c aa) (workspace_rows u.workspace_id db).access_roles ≡ true
      → in_workspace aa.workspace_id ≡ true
  grant_workspace a aa h =
      let (r, e) = any_witness (checked_grant db u a c aa) _ h in
      unfold checked_grant in ground arith

  role_workspace :
      (a : CloudAccount) (aa : Assignment) (r : AccessRole)
      → checked_grant db u a c aa r ≡ true
      → in_workspace r.workspace_id ≡ true
  unfolding checked_grant
  role_workspace a aa r h = ground arith

  assignment_local :
      (a : CloudAccount)
      → checked_assignment (workspace_rows u.workspace_id db) u a c ≡ checked_assignment db u a c
  unfolding checked_assignment
  assignment_local a =
      any-keep _ (λ aa. in_workspace aa.workspace_id) db.assignments (grant_workspace a)
      ∙ any_congr _ _ db.assignments (λ aa.
        any-keep (checked_grant db u a c aa) (λ r. in_workspace r.workspace_id) db.access_roles
          (role_workspace a aa))

  legacy_local :
      (a : CloudAccount)
      → checked_legacy (workspace_rows u.workspace_id db) u a c ≡ checked_legacy db u a c
  unfolding checked_legacy
  legacy_local a =
      any_congr _ _ (effective_user_groups db)
        (λ ug. any-keep _ (λ g. in_workspace g.workspace_id) db.access_groups (λ g h. ground arith))

  unassigned_local :
      (a : ℕ)
      → is_unassigned (workspace_rows u.workspace_id db) u.workspace_id a
        ≡ is_unassigned db u.workspace_id a
  unfolding is_unassigned
  unassigned_local a =
      ap not (any-keep _ (λ aa. in_workspace aa.workspace_id) db.assignments (λ aa h. ground arith))

  account_local :
      (id : ℕ) (a : CloudAccount)
      → checked_account (workspace_rows u.workspace_id db) u id c a ≡ checked_account db u id c a
  unfolding checked_account
  account_local id a = rw (assignment_local a, legacy_local a, unassigned_local a.id)

  account_workspace :
      (id : ℕ) (a : CloudAccount)
      → checked_account (workspace_rows u.workspace_id db) u id c a ≡ true
      → in_workspace a.workspace_id ≡ true
  unfolding checked_account
  account_workspace id a h = ground arith

  can_account_local :
      (id : ℕ) → can_account (workspace_rows u.workspace_id db) u id c ≡ can_account db u id c
  unfolding can_account
  can_account_local id =
      any-keep _ (λ a. in_workspace a.workspace_id) db.cloud_accounts (account_workspace id)
      ∙ any_congr _ _ db.cloud_accounts (account_local id)

-- Two databases that agree on the rows of the user's workspace and on the memberships give the same
-- answer about every account and capability, whatever other workspaces hold.
pub can_account_isolated :
    (db db' : Db) (u : User) (c : Capability) (id : ℕ)
    → workspace_rows u.workspace_id db ≡ workspace_rows u.workspace_id db'
    → can_account db u id c ≡ can_account db' u id c
can_account_isolated db db' u c id same =
    sym (can_account_local db u c id)
    ∙ ap (λ d. can_account d u id c) same
    ∙ can_account_local db' u c id
