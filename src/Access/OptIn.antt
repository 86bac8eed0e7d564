-- ===== src/Access/OptIn.antt =====
-- Who had access to an account by its legacy group has it by an assignment after the migration.
use mathlib.Core.List.{Memᴰ}
use netriun_nexus.Prelude.{
  ℕ, true, false, not, ◌≡◌, refl, sym, ap, ◌∙◌, subst, List, ◌&&◌, ◌==◌, arith, any, All_of_mem,
  Bool-cases, inl, inr, str_eq, some, any_mem, mem_of_keep, mem_of_map, mem_of_join,
}
use netriun_nexus.Store.{
  Assignment, AccessRole, AccessGroup, CloudAccount, Membership, Db, User, Principal, person, team,
  Capability,
}
use netriun_nexus.Policy.{
  permits, legacy_grants, is_unassigned, effective_user_groups, in_group, is_manager,
}
use netriun_nexus.Policy.Grants.{Names, directly, through}
use netriun_nexus.Access.{assignment, legacy_role, team_rows, manager_rows, same_slot}
use netriun_nexus.Access.Inserts.{insert_rows-there, any-insert_rows, eq_of_same_principal}
use netriun_nexus.Access.Migration.{
  IsSeeded, Suits, IsGood, migrated, migrated_rows, migrated-other_tables, migrated-IsGood,
  legacy_viewing, legacy_managing,
}

-- An access that an assignment grants.
pub record Assigned (db : Db) (u : User) (c : Capability) (account : ℕ) : Type 0 where
  pub row : Assignment
  pub row_in : Memᴰ row db.assignments
  pub role : AccessRole
  pub role_in : Memᴰ role db.access_roles
  pub same_id : role.id ≡ row.role_id
  pub same_workspace : role.workspace_id ≡ row.workspace_id
  pub workspace : row.workspace_id ≡ u.workspace_id
  pub about : row.cloud_account_id ≡ account
  pub service : row.service_key ≡ "*"
  pub may : permits role.permissions c ≡ true
  pub names : Names db u c row.principal

pub Names-congr :
    (db db' : Db) (u : User) (c : Capability) (p : Principal)
    → effective_user_groups db ≡ effective_user_groups db'
    → Names db u c p
    → Names db' u c p
Names-congr db db' u c p e (directly k) = directly k
Names-congr db db' u c p e (through m k inside same enough) =
    through m k (subst (λ (l : List Membership). Memᴰ m l) e inside) same enough

slot_facts :
    (x y : Assignment)
    → same_slot x y ≡ true
    → (x.workspace_id ≡ y.workspace_id)
      × (x.principal ≡ y.principal)
      × (x.cloud_account_id ≡ y.cloud_account_id)
slot_facts x y h =
    (ground arith, eq_of_same_principal x.principal y.principal (ground arith), ground arith)

module _ (db : Db) (u : User) (c : Capability) (account : ℕ) (seeded : IsSeeded u.workspace_id db)
    (free : is_unassigned db u.workspace_id account ≡ true) where
  abbrev after : Db
  after = migrated u.workspace_id account db

  same_groups :
      effective_user_groups db ≡ effective_user_groups (migrated u.workspace_id account db)
  same_groups = ap effective_user_groups (sym (migrated-other_tables u.workspace_id account db))

  same_roles : db.access_roles ≡ (migrated u.workspace_id account db).access_roles
  same_roles =
      ap (λ (d : Db). d.access_roles) (sym (migrated-other_tables u.workspace_id account db))

  -- A row whose slot is taken grants what suits its principal.
  Assigned-of_slot :
      (x : Assignment)
      → any (same_slot x) (migrated u.workspace_id account db).assignments ≡ true
      → x.workspace_id ≡ u.workspace_id
      → x.cloud_account_id ≡ account
      → ((permissions : List Capability)
          → Suits db x.principal permissions
          → permits permissions c ≡ true)
      → Names db u c x.principal
      → Assigned (migrated u.workspace_id account db) u c account
  Assigned-of_slot x h w a may names =
      let (y, in_y, slot) = any_mem (same_slot x) _ h in
      let (same_w, same_p, same_a) = slot_facts x y slot in
      let good =
        All_of_mem (IsGood u.workspace_id account db) _ in_y
          (migrated-IsGood u.workspace_id account db seeded free) (sym same_w ∙ w)
          (sym same_a ∙ a) in
      record {
        row = y;
        row_in = in_y;
        role = good.role;
        role_in = subst (λ (l : List AccessRole). Memᴰ good.role l) same_roles good.role_in;
        same_id = good.same_id;
        same_workspace = good.same_workspace;
        workspace = sym same_w ∙ w;
        about = sym same_a ∙ a;
        service = good.service;
        may =
            may good.role.permissions
              (subst (λ (p : Principal). Suits db p good.role.permissions) (sym same_p) good.suits);
        names =
            subst (λ (p : Principal). Names (migrated u.workspace_id account db) u c p) same_p
              (Names-congr db _ u c x.principal same_groups names);
      }

  legacy_role_there :
      (g : AccessGroup)
      → any (λ r. r.workspace_id == u.workspace_id && str_eq r.key (legacy_role g)) db.access_roles
        ≡ true
  legacy_role_there g = elim (Bool-cases g.manage_cloud_accounts) [
    | inl e ↦ rw e seeded.has_manager
    | inr e ↦ rw e seeded.has_operator
  ]

  team_slot :
      (ca : CloudAccount) (g : AccessGroup) (r : AccessRole)
      → Memᴰ ca db.cloud_accounts
      → (ca.workspace_id == u.workspace_id && ca.id == account) ≡ true
      → Memᴰ g db.access_groups
      → (in_group ca.group_id g.id && g.workspace_id == ca.workspace_id && g.view_dashboard) ≡ true
      → Memᴰ r db.access_roles
      → (r.workspace_id == ca.workspace_id && str_eq r.key (legacy_role g)) ≡ true
      → any
          (same_slot (assignment ca.workspace_id (team g.id) ca.id r.id "legacy-migration"))
          (migrated u.workspace_id account db).assignments
        ≡ true
  unfolding team_rows
  team_slot ca g r in_ca h in_g k in_r l = rw (migrated_rows u.workspace_id account db) (
      any-insert_rows _ _ _ (
        insert_rows-there (team_rows u.workspace_id account db) db (
          mem_of_join _ _ (mem_of_keep _ db.cloud_accounts in_ca h) (
            mem_of_join _ _ (mem_of_keep _ db.access_groups in_g k)
              (mem_of_map _ _ (mem_of_keep _ db.access_roles in_r l))))))

  -- A member of a group that may view the account.
  pub viewing_kept :
      (ca : CloudAccount) (m : Membership) (g : AccessGroup)
      → Memᴰ ca db.cloud_accounts
      → (ca.workspace_id == u.workspace_id && ca.id == account) ≡ true
      → Memᴰ m (effective_user_groups db)
      → Memᴰ g db.access_groups
      → g.id ≡ m.group_id
      → g.workspace_id ≡ u.workspace_id
      → m.user_id ≡ u.id
      → ca.group_id ≡ some m.group_id
      → legacy_grants c g m.role ≡ true
      → g.view_dashboard ≡ true
      → Assigned (migrated u.workspace_id account db) u c account
  viewing_kept ca m g in_ca h in_m in_g same_g same_w same_u own grants views =
      let (r, in_r, k) =
        any_mem (λ x. x.workspace_id == u.workspace_id && str_eq x.key (legacy_role g)) _
          (legacy_role_there g) in
      let (may, enough) = legacy_viewing c g m.role views grants in
      let inside : in_group ca.group_id g.id ≡ true = rw own (ground arith) in
      Assigned-of_slot (assignment ca.workspace_id (team g.id) ca.id r.id "legacy-migration")
        (team_slot ca g r in_ca h in_g (ground arith) in_r (ground arith)) (ground arith)
        (ground arith) (λ permissions suits. suits g in_g refl c may)
        (through m (ap team same_g) in_m same_u enough)

  manager_slot :
      (ca : CloudAccount) (g : AccessGroup) (m : Membership) (r : AccessRole)
      → Memᴰ ca db.cloud_accounts
      → (ca.workspace_id == u.workspace_id && ca.id == account) ≡ true
      → Memᴰ g db.access_groups
      → (in_group ca.group_id g.id
          && g.workspace_id == ca.workspace_id
          && not g.view_dashboard
          && g.manage_cloud_accounts)
        ≡ true
      → Memᴰ m (effective_user_groups db)
      → (m.group_id == g.id && is_manager m.role) ≡ true
      → Memᴰ r db.access_roles
      → (r.workspace_id == ca.workspace_id && str_eq r.key "account_manager") ≡ true
      → any
          (same_slot (assignment ca.workspace_id (person m.user_id) ca.id r.id "legacy-migration"))
          (migrated u.workspace_id account db).assignments
        ≡ true
  unfolding manager_rows
  manager_slot ca g m r in_ca h in_g k in_m q in_r l =
      rw (migrated_rows u.workspace_id account db) (
        insert_rows-there (manager_rows u.workspace_id account db) _ (
          mem_of_join _ _ (mem_of_keep _ db.cloud_accounts in_ca h) (
            mem_of_join _ _ (mem_of_keep _ db.access_groups in_g k) (
              mem_of_join _ _ (mem_of_keep _ (effective_user_groups db) in_m q)
                (mem_of_map _ _ (mem_of_keep _ db.access_roles in_r l))))))

  -- A manager of a group that may manage accounts and not view them.
  pub managing_kept :
      (ca : CloudAccount) (m : Membership) (g : AccessGroup)
      → Memᴰ ca db.cloud_accounts
      → (ca.workspace_id == u.workspace_id && ca.id == account) ≡ true
      → Memᴰ m (effective_user_groups db)
      → Memᴰ g db.access_groups
      → g.id ≡ m.group_id
      → g.workspace_id ≡ u.workspace_id
      → m.user_id ≡ u.id
      → ca.group_id ≡ some m.group_id
      → legacy_grants c g m.role ≡ true
      → g.view_dashboard ≡ false
      → Assigned (migrated u.workspace_id account db) u c account
  managing_kept ca m g in_ca h in_m in_g same_g same_w same_u own grants views =
      let (r, in_r, k) =
        any_mem (λ x. x.workspace_id == u.workspace_id && str_eq x.key "account_manager") _
          seeded.has_manager in
      let (may, manages, is_m) = legacy_managing c g m.role views grants in
      let inside : in_group ca.group_id g.id ≡ true = rw own (ground arith) in
      Assigned-of_slot (assignment ca.workspace_id (person m.user_id) ca.id r.id "legacy-migration")
        (manager_slot ca g m r in_ca h in_g (ground arith) in_m (ground arith) in_r (ground arith))
        (ground arith) (ground arith) (λ permissions suits. suits c may)
        (directly (ap person same_u))
