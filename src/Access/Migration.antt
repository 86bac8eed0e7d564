-- ===== src/Access/Migration.antt =====
-- The opt-in of an account to explicit assignments keeps every legacy access.
use mathlib.Core.List.{Memᴰ}
use netriun_nexus.Prelude.{
  ℕ, Bool, true, false, ◌≡◌, refl, sym, ap, ◌∙◌, subst, List, [], ◌∷◌, ◌&&◌, ◌==◌, ◌≤◌, arith, any,
  All, All-keep, All-keep_test, All-members, All-both, All-map, All-join, All-mono, Bool-cases, inl,
  inr, keep, eq_of_str_eq, str_eq, if◌then◌else◌,
}
use netriun_nexus.Store.{
  Assignment, AccessRole, AccessGroup, CloudAccount, Db, Principal, person, team, MemberRole,
  viewer, Capability, account_view, account_manage, compute_view, compute_operate, billing_view,
  billing_sync,
}
use netriun_nexus.Policy.{
  permits, legacy_grants, rank, rank_needed, is_unassigned, effective_user_groups, is_manager,
}
use netriun_nexus.Access.{
  assignment, legacy_role, team_rows, manager_rows, insert_rows, migrate_teams, migrate_managers,
}
use netriun_nexus.Access.Inserts.{other_tables, insert_rows-other_tables, insert_rows-All}

-- What a legacy group can grant, without and with manage_cloud_accounts.
abbrev pub legacy_operator : Capability → Bool
legacy_operator account_view = true
legacy_operator compute_view = true
legacy_operator compute_operate = true
legacy_operator billing_view = true
legacy_operator _ = false

abbrev pub legacy_manager : Capability → Bool
legacy_manager account_manage = true
legacy_manager billing_sync = true
legacy_manager c = legacy_operator c

abbrev pub may_of : AccessGroup → Capability → Bool
may_of g c = if g.manage_cloud_accounts then legacy_manager c else legacy_operator c

pub legacy_viewing :
    (c : Capability) (g : AccessGroup) (role : MemberRole)
    → g.view_dashboard ≡ true
    → legacy_grants c g role ≡ true
    → (may_of g c ≡ true) × (rank_needed c ≤ rank role)
legacy_viewing account_view g viewer v h = ground arith
legacy_viewing c g role v h = ground arith

pub legacy_managing :
    (c : Capability) (g : AccessGroup) (role : MemberRole)
    → g.view_dashboard ≡ false
    → legacy_grants c g role ≡ true
    → (legacy_manager c ≡ true) × (g.manage_cloud_accounts ≡ true) × (is_manager role ≡ true)
legacy_managing account_view g viewer v h = ground arith
legacy_managing c g role v h = ground arith

-- The two built-in roles of the workspace (migrations 005 and 008 seed them, and neither
-- saveAccessRole nor deleteAccessRole touches them), and group ids are unique.
pub record IsSeeded (ws : ℕ) (db : Db) : Type 0 where
  pub has_operator :
      any (λ r. r.workspace_id == ws && str_eq r.key "operator") db.access_roles ≡ true
  pub has_manager :
      any (λ r. r.workspace_id == ws && str_eq r.key "account_manager") db.access_roles ≡ true
  pub operator_may :
      (r : AccessRole)
      → Memᴰ r db.access_roles
      → r.workspace_id ≡ ws
      → r.key ≡ "operator"
      → (c : Capability) → legacy_operator c ≡ true
      → permits r.permissions c ≡ true
  pub manager_may :
      (r : AccessRole)
      → Memᴰ r db.access_roles
      → r.workspace_id ≡ ws
      → r.key ≡ "account_manager"
      → (c : Capability) → legacy_manager c ≡ true
      → permits r.permissions c ≡ true
  pub one_group :
      (g g' : AccessGroup)
      → Memᴰ g db.access_groups
      → Memᴰ g' db.access_groups
      → g.id ≡ g'.id
      → g ≡ g'

-- The permissions that a migrated row must have.
abbrev pub Suits : Db → Principal → List Capability → Type 0
Suits db (person id) permissions =
    (c : Capability) → legacy_manager c ≡ true → permits permissions c ≡ true
Suits db (team id) permissions =
    (g : AccessGroup)
    → Memᴰ g db.access_groups
    → g.id ≡ id
    → (c : Capability) → may_of g c ≡ true
    → permits permissions c ≡ true

pub record Carries (db : Db) (y : Assignment) : Type 0 where
  pub role : AccessRole
  pub role_in : Memᴰ role db.access_roles
  pub same_id : role.id ≡ y.role_id
  pub same_workspace : role.workspace_id ≡ y.workspace_id
  pub service : y.service_key ≡ "*"
  pub suits : Suits db y.principal role.permissions

-- Rows of the account carry what the legacy policy granted.
abbrev pub IsGood : ℕ → ℕ → Db → Assignment → Type 0
IsGood ws account db y = y.workspace_id ≡ ws → y.cloud_account_id ≡ account → Carries db y

-- The rows that pass a test, with their membership.
members_kept :
    {A : Type 0} (p : A → Bool) (xs : List A) → All (λ x. Memᴰ x xs × (p x ≡ true)) (keep p xs)
members_kept p xs =
    All-both (λ x. Memᴰ x xs) (λ x. p x ≡ true) (keep p xs)
      (All-keep (λ x. Memᴰ x xs) p xs (All-members xs xs (λ x m. m))) (All-keep_test p xs)

-- No row is about an account with no assignments.
unassigned_vacuous :
    (P : Assignment → Type 0) (ws account : ℕ) (rows : List Assignment)
    → any (λ y. y.workspace_id == ws && y.cloud_account_id == account) rows ≡ false
    → All (λ y. y.workspace_id ≡ ws → y.cloud_account_id ≡ account → P y) rows
unassigned_vacuous P ws account [] h = tt
unassigned_vacuous P ws account (y ∷ rows) h =
    (λ e k. absurd (ground arith), unassigned_vacuous P ws account rows (ground arith))

module _ (ws account : ℕ) (db : Db) (seeded : IsSeeded ws db) where
  role_may :
      (g : AccessGroup) (r : AccessRole)
      → Memᴰ r db.access_roles
      → r.workspace_id ≡ ws
      → r.key ≡ legacy_role g
      → (c : Capability) → may_of g c ≡ true
      → permits r.permissions c ≡ true
  role_may g r m w k c h = elim (Bool-cases g.manage_cloud_accounts) [
    | inl e ↦ seeded.manager_may r m w (rw e at k) c (rw e at h)
    | inr e ↦ seeded.operator_may r m w (rw e at k) c (rw e at h)
  ]

  team_row-IsGood :
      (ca : CloudAccount) (g : AccessGroup) (r : AccessRole)
      → Memᴰ g db.access_groups
      → Memᴰ r db.access_roles
      → (r.workspace_id == ca.workspace_id && str_eq r.key (legacy_role g)) ≡ true
      → IsGood ws account db (assignment ca.workspace_id (team g.id) ca.id r.id "legacy-migration")
  team_row-IsGood ca g r in_g in_r h w a = record {
    role = r;
    role_in = in_r;
    same_id = refl;
    same_workspace = ground arith;
    service = refl;
    suits = λ g' in_g' e c k.
        let same = seeded.one_group g' g in_g' in_g e in
        role_may g r in_r (ground arith) (eq_of_str_eq r.key (legacy_role g) (ground arith)) c
          (subst (λ (x : AccessGroup). may_of x c ≡ true) same k);
  }

  manager_row-IsGood :
      (ca : CloudAccount) (uid : ℕ) (r : AccessRole)
      → Memᴰ r db.access_roles
      → (r.workspace_id == ca.workspace_id && str_eq r.key "account_manager") ≡ true
      → IsGood ws account db (assignment ca.workspace_id (person uid) ca.id r.id "legacy-migration")
  manager_row-IsGood ca uid r in_r h w a = record {
    role = r;
    role_in = in_r;
    same_id = refl;
    same_workspace = ground arith;
    service = refl;
    suits =
        seeded.manager_may r in_r (ground arith)
          (eq_of_str_eq r.key "account_manager" (ground arith));
  }

  team_rows-IsGood : All (IsGood ws account db) (team_rows ws account db)
  unfolding team_rows
  team_rows-IsGood = All-join _ _ _ (
      All-mono _ _ _
        (λ ca _. All-join _ _ _ (
          All-mono _ _ _
            (λ g k. All-map _ _ _ (
              All-mono _ _ _ (λ r k'. team_row-IsGood ca g r k.0 k'.0 k'.1)
                (members_kept _ db.access_roles)))
            (members_kept _ db.access_groups)))
        (members_kept _ db.cloud_accounts))

  manager_rows-IsGood : All (IsGood ws account db) (manager_rows ws account db)
  unfolding manager_rows
  manager_rows-IsGood = All-join _ _ _ (
      All-mono _ _ _
        (λ ca _. All-join _ _ _ (
          All-mono _ _ _
            (λ g _. All-join _ _ _ (
              All-mono _ _ _
                (λ ug _. All-map _ _ _ (
                  All-mono _ _ _ (λ r k. manager_row-IsGood ca ug.user_id r k.0 k.1)
                    (members_kept _ db.access_roles)))
                (members_kept _ (effective_user_groups db))))
            (members_kept _ db.access_groups)))
        (members_kept _ db.cloud_accounts))

-- The database after both statements of the migration.
abbrev pub migrated : ℕ → ℕ → Db → Db
migrated ws account db = migrate_managers ws account (migrate_teams ws account db)

manager_rows-other_tables :
    (ws account : ℕ) (db : Db)
    → manager_rows ws account (other_tables db) ≡ manager_rows ws account db
unfolding manager_rows
manager_rows-other_tables ws account db = refl

manager_rows-migrate_teams :
    (ws account : ℕ) (db : Db)
    → manager_rows ws account (migrate_teams ws account db) ≡ manager_rows ws account db
unfolding migrate_teams
manager_rows-migrate_teams ws account db =
    sym (manager_rows-other_tables ws account _)
    ∙ ap (manager_rows ws account) (insert_rows-other_tables (team_rows ws account db) db)
    ∙ manager_rows-other_tables ws account db

pub migrated_rows :
    (ws account : ℕ) (db : Db)
    → migrated ws account db
      ≡ insert_rows (manager_rows ws account db) (insert_rows (team_rows ws account db) db)
unfolding migrate_teams migrate_managers
migrated_rows ws account db =
    ap (λ (l : List Assignment). insert_rows l (insert_rows (team_rows ws account db) db))
      (manager_rows-migrate_teams ws account db)

pub migrated-other_tables :
    (ws account : ℕ) (db : Db) → other_tables (migrated ws account db) ≡ other_tables db
unfolding migrate_teams migrate_managers
migrated-other_tables ws account db =
    insert_rows-other_tables (manager_rows ws account (migrate_teams ws account db))
      (migrate_teams ws account db)
    ∙ insert_rows-other_tables (team_rows ws account db) db

-- After the migration of an account that had no assignments, every row about it carries a role.
pub migrated-IsGood :
    (ws account : ℕ) (db : Db)
    → IsSeeded ws db
    → is_unassigned db ws account ≡ true
    → All (IsGood ws account db) (migrated ws account db).assignments
unfolding is_unassigned
migrated-IsGood ws account db seeded free = rw (migrated_rows ws account db) (
    insert_rows-All (IsGood ws account db) (λ x id h w a. renumbered x id (h w a)) _ _
      (manager_rows-IsGood ws account db seeded)
      (insert_rows-All (IsGood ws account db) (λ x id h w a. renumbered x id (h w a)) _ db
        (team_rows-IsGood ws account db seeded)
        (unassigned_vacuous (Carries db) ws account db.assignments (ground arith))))
  where
    renumbered : (x : Assignment) (id : ℕ) → Carries db x → Carries db (record x { id = id })
    renumbered x id k = record {
      role = k.role;
      role_in = k.role_in;
      same_id = k.same_id;
      same_workspace = k.same_workspace;
      service = k.service;
      suits = k.suits;
    }
