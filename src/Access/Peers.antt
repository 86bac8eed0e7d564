-- ===== src/Access/Peers.antt =====
-- Saving the assignment of one user or team takes no access from those whom it does not name.
use mathlib.Core.List.{Memᴰ}
use mathlib.Core.Bool.{false≢true}
use netriun_nexus.Prelude.{
  ℕ, Bool, true, false, not, ◌≡◌, refl, sym, ap, ◌∙◌, subst, List, [], ◌∷◌, ◌++◌, ◌&&◌, ◌==◌, arith,
  any, Bool-cases, ◌⊎◌, inl, inr, String, Option, mem_of_keep, mem-append_left, any_of_mem,
  count_where, Keeps, Leads, Leads-Keeps, Leads-then, Leads-bind, transaction-Leads, Option-cases,
  ◌+◌, OnOk, require, ◌>>◌, ◌>>=◌, pure, Result,
}
use netriun_nexus.Store.{
  Assignment, AccessRole, CloudAccount, Db, User, Principal, Capability, admin,
}
use netriun_nexus.Policy.{can_account, is_unassigned, effective_user_groups}
use netriun_nexus.Policy.Grants.{Names, Granted, by_role, by_assignment, by_group, can_account_iff}
use netriun_nexus.Request.{request_rules, exec, available, query}
use netriun_nexus.Access.{
  same_principal, is_replaced, remove_assignments, add_assignment, assign, migrate,
  replace_assignment, replacement, migrate_teams, migrate_managers, assignment_count, same_slot,
  principal_exists, account_exists, chosen_role,
}
use netriun_nexus.Access.Inserts.{eq_of_same_principal}
use netriun_nexus.Access.Migration.{IsSeeded, migrated, migrated-other_tables}
use netriun_nexus.Access.OptIn.{Assigned, Names-congr, viewing_kept, managing_kept}

module _ (peer : User) (c : Capability) (account : ℕ) (principal : Principal) where
  -- An access that does not rest on the legacy policy.
  pub record Explicit (db : Db) : Type 0 where
    pub cloud : CloudAccount
    pub cloud_in : Memᴰ cloud db.cloud_accounts
    pub same_id : cloud.id ≡ account
    pub same_workspace : cloud.workspace_id ≡ peer.workspace_id
    pub unnamed : ¬ (Names db peer c principal)
    pub access : (peer.role ≡ admin) ⊎ Assigned db peer c account

  can_account-Explicit : (db : Db) → Explicit db → can_account db peer account c ≡ true
  can_account-Explicit db x =
      (can_account_iff db peer account c).1
        (x.cloud, x.cloud_in, x.same_id, x.same_workspace, granted x.access)
    where
      granted : (peer.role ≡ admin) ⊎ Assigned db peer c account → Granted db peer c x.cloud
      granted (inl e) = by_role e
      granted (inr a) =
          by_assignment a.row a.role a.row_in a.role_in a.same_id a.same_workspace a.workspace
            (a.about ∙ sym x.same_id) a.service a.may a.names

  remove_assignments-Explicit :
      (ws : ℕ) (db : Db) → Explicit db → Explicit (remove_assignments ws principal account db)
  unfolding remove_assignments
  remove_assignments-Explicit ws db x = record {
    cloud = x.cloud;
    cloud_in = x.cloud_in;
    same_id = x.same_id;
    same_workspace = x.same_workspace;
    unnamed = λ n. x.unnamed (Names-congr _ db peer c principal refl n);
    access = kept x.access;
  }
    where
      stays :
          (y : Assignment)
          → Names db peer c y.principal
          → not (is_replaced ws principal account y) ≡ true
      stays y n = elim (Bool-cases (same_principal y.principal principal)) [
        | inl e ↦
            absurd
              (x.unnamed (subst (Names db peer c) (eq_of_same_principal y.principal principal e) n))
        | inr e ↦ ground arith
      ]

      kept :
          (peer.role ≡ admin) ⊎ Assigned db peer c account
          → (peer.role ≡ admin)
            ⊎ Assigned (remove_assignments ws principal account db) peer c account
      kept (inl e) = inl e
      kept (inr a) = inr (record {
        row = a.row;
        row_in =
            mem_of_keep (λ y. not (is_replaced ws principal account y)) db.assignments a.row_in
              (stays a.row a.names);
        role = a.role;
        role_in = a.role_in;
        same_id = a.same_id;
        same_workspace = a.same_workspace;
        workspace = a.workspace;
        about = a.about;
        service = a.service;
        may = a.may;
        names = Names-congr db _ peer c a.row.principal refl a.names;
      })

  add_assignment-Explicit : (x : Assignment) → Keeps Explicit (add_assignment x)
  unfolding add_assignment
  add_assignment-Explicit x = record { after = λ db e. added db e }
    where
      grown :
          (db : Db) (y : Assignment) (next : ℕ)
          → Explicit db
          → Explicit (record db { assignments = db.assignments ++ y ∷ []; next_id = next })
      grown db y next e = record {
        cloud = e.cloud;
        cloud_in = e.cloud_in;
        same_id = e.same_id;
        same_workspace = e.same_workspace;
        unnamed = λ n. e.unnamed (Names-congr _ db peer c principal refl n);
        access = elim e.access [
          | inl a ↦ inl a
          | inr a ↦ inr (record {
            row = a.row;
            row_in = mem-append_left db.assignments (y ∷ []) a.row_in;
            role = a.role;
            role_in = a.role_in;
            same_id = a.same_id;
            same_workspace = a.same_workspace;
            workspace = a.workspace;
            about = a.about;
            service = a.service;
            may = a.may;
            names = Names-congr db _ peer c a.row.principal refl a.names;
          })
        ];
      }

      added : (db : Db) → Explicit db → Explicit (add_assignment x db).1
      added db e = elim (Bool-cases (any (same_slot x) db.assignments)) [
        | inl h ↦ rw h e
        | inr h ↦ rw h (grown db (record x { id = db.next_id }) (db.next_id + 1) e)
      ]

  chosen-Explicit :
      (down : Bool) (f : Db → Option AccessRole) → Keeps Explicit (λ db. chosen_role down (f db) db)
  chosen-Explicit true f = record { after = λ db e. e }
  chosen-Explicit false f = record {
    after = λ db e. elim (Option-cases (f db)) [ inl h ↦ rw h e | inr (r, h) ↦ rw h e ];
  }

  assign-Explicit :
      (down : ℕ → Bool) (ws : ℕ) (key : String)
      → Keeps Explicit (assign down ws principal account key)
  unfolding assign
  assign-Explicit down ws key =
      search (request_rules, chosen-Explicit, add_assignment-Explicit) depth 10

  -- What the transaction begins with.
  record Before (db : Db) : Type 0 where
    seeded : IsSeeded peer.workspace_id db
    unnamed : ¬ (Names db peer c principal)
    allowed : can_account db peer account c ≡ true

  count_zero :
      (p : Assignment → Bool) (rows : List Assignment)
      → (count_where p rows == 0) ≡ not (any p rows)
  count_zero p [] = refl
  count_zero p (x ∷ rows) = ground (arith, count_zero p rows)

  assigned_not_free :
      (db : Db) (ca : CloudAccount) (y : Assignment)
      → Memᴰ y db.assignments
      → y.workspace_id ≡ peer.workspace_id
      → y.cloud_account_id ≡ ca.id
      → is_unassigned db peer.workspace_id ca.id ≡ false
  unfolding is_unassigned
  assigned_not_free db ca y m w a = ap not (any_of_mem _ db.assignments m (ground arith))

  Explicit-in :
      (db d : Db) (ca : CloudAccount)
      → Memᴰ ca d.cloud_accounts
      → ca.id ≡ account
      → ca.workspace_id ≡ peer.workspace_id
      → effective_user_groups d ≡ effective_user_groups db
      → ¬ (Names db peer c principal)
      → (peer.role ≡ admin) ⊎ Assigned d peer c account
      → Explicit d
  Explicit-in db d ca m i w groups unnamed access = record {
    cloud = ca;
    cloud_in = m;
    same_id = i;
    same_workspace = w;
    unnamed = λ n. unnamed (Names-congr d db peer c principal groups n);
    access = access;
  }

  -- An account with assignments: the access is explicit already.
  Explicit-of_assigned :
      (db : Db) → Before db → is_unassigned db peer.workspace_id account ≡ false → Explicit db
  Explicit-of_assigned db b busy =
      let (ca, m, i, w, granted) = (can_account_iff db peer account c).0 b.allowed in
      Explicit-in db db ca m i w refl b.unnamed (access ca i granted)
    where
      access :
          (ca : CloudAccount)
          → ca.id ≡ account
          → Granted db peer c ca
          → (peer.role ≡ admin) ⊎ Assigned db peer c account
      access ca i (by_role e) = inl e
      access ca i (by_assignment aa r in_aa in_r p q s t key may names) = inr (record {
        row = aa;
        row_in = in_aa;
        role = r;
        role_in = in_r;
        same_id = p;
        same_workspace = q;
        workspace = s;
        about = t ∙ i;
        service = key;
        may = may;
        names = names;
      })
      access ca i (by_group m g free _ _ _ _ _ _ _) =
          let no_rows : is_unassigned db peer.workspace_id account ≡ true = rw (sym i) free in
          absurd (false≢true (sym busy ∙ no_rows))

  -- An account without: the migration makes it explicit.
  Explicit-of_migrated :
      (db : Db)
      → Before db
      → is_unassigned db peer.workspace_id account ≡ true
      → Explicit (migrated peer.workspace_id account db)
  Explicit-of_migrated db b free =
      let (ca, m, i, w, granted) = (can_account_iff db peer account c).0 b.allowed in
      let same = migrated-other_tables peer.workspace_id account db in
      Explicit-in db (migrated peer.workspace_id account db) ca
        (subst (λ (l : List CloudAccount). Memᴰ ca l) (ap (λ (d : Db). d.cloud_accounts) (sym same))
          m)
        i w (ap effective_user_groups same) b.unnamed (access ca m i w granted)
    where
      access :
          (ca : CloudAccount)
          → Memᴰ ca db.cloud_accounts
          → ca.id ≡ account
          → ca.workspace_id ≡ peer.workspace_id
          → Granted db peer c ca
          → (peer.role ≡ admin) ⊎ Assigned (migrated peer.workspace_id account db) peer c account
      access ca m i w (by_role e) = inl e
      access ca m i w (by_assignment aa r in_aa in_r p q s t key may names) =
          absurd (false≢true (sym (assigned_not_free db ca aa in_aa s t) ∙ rw i free))
      access ca m i w (by_group member g _ in_m in_g p q s t may) =
          inr (elim (Bool-cases g.view_dashboard) [
            | inl v ↦
                viewing_kept db peer c account b.seeded free ca member g m (ground arith) in_m in_g
                  p q s t may v
            | inr v ↦
                managing_kept db peer c account b.seeded free ca member g m (ground arith) in_m in_g
                  p q s t may v
          ])

  free_of_count :
      (db : Db)
      → (assignment_count peer.workspace_id account db == 0)
        ≡ is_unassigned db peer.workspace_id account
  unfolding is_unassigned
  free_of_count db = count_zero _ db.assignments

  migrated_or_not :
      (t m : Bool) (db : Db)
      → Before db
      → is_unassigned db peer.workspace_id account ≡ true
      → OnOk Explicit (
          (exec t (migrate_teams peer.workspace_id account)
              >> exec m (migrate_managers peer.workspace_id account))
            db)
  migrated_or_not true m db b free = tt
  migrated_or_not false true db b free = tt
  migrated_or_not false false db b free = Explicit-of_migrated db b free

  migrate-Explicit :
      (down : ℕ → Bool) → Leads Before Explicit (migrate down peer.workspace_id account)
  unfolding migrate
  migrate-Explicit down = record {
    after = λ db b. elim (Bool-cases (is_unassigned db peer.workspace_id account)) [
      | inl free ↦ rw (free_of_count db ∙ free) (migrated_or_not (down 5) (down 6) db b free)
      | inr busy ↦ rw (free_of_count db ∙ busy) (Explicit-of_assigned db b busy)
    ];
  }

  replaced :
      (down : ℕ → Bool) (key : String)
      → Leads Explicit Explicit (
          exec (down 7) (remove_assignments peer.workspace_id principal account)
          >> (assign down peer.workspace_id principal account key >>= λ id.
              available (down 10) >> pure id))
  replaced down key =
      Leads-Keeps _ (search (request_rules, remove_assignments-Explicit, assign-Explicit) depth 10)

  body-Leads :
      (down : ℕ → Bool) (key : String)
      → Leads Before Explicit (replacement down peer.workspace_id principal account key)
  unfolding replacement
  body-Leads down key = Leads-then _ _ (step (available (down 0)) (search request_rules)) (
      Leads-then _ _ (step (available (down 1)) (search request_rules)) (
        Leads-bind _ _
          (step (query (down 2) (principal_exists peer.workspace_id principal))
            (search request_rules))
          (λ p.
            Leads-bind _ _
              (step (query (down 3) (account_exists peer.workspace_id account))
                (search request_rules))
              (λ a.
                Leads-then _ _
                  (step
                    (require (p && a) 404
                      "User, team, or cloud account was not found in this workspace")
                    (search request_rules))
                  (Leads-then _ _ (step (available (down 4)) (search request_rules))
                    (Leads-then _ _ (migrate-Explicit down) (replaced down key)))))))
    where
      step : {A : Type 0} (m : Db → Result A × Db) → Keeps Before m → Leads Before Before m
      step m k = Leads-Keeps m k

  -- A user who is not named by the principal, neither as the person nor as a member of the team,
  -- and who has a capability on the account, has it still after the assignment of the principal on
  -- that account is saved or removed, the first migration of the account included, whatever
  -- statements fail, where every workspace has the two built-in roles as they are seeded.
  pub replace_assignment-peers :
      (down : ℕ → Bool) (key : String) (db : Db)
      → IsSeeded peer.workspace_id db
      → ¬ (Names db peer c principal)
      → can_account db peer account c ≡ true
      → can_account
          (replace_assignment down peer.workspace_id principal account key db).1
          peer
          account
          c
        ≡ true
  unfolding replace_assignment
  replace_assignment-peers down key db seeded unnamed allowed =
      transaction-Leads (λ d. can_account d peer account c ≡ true)
        (replacement down peer.workspace_id principal account key) (body-Leads down key)
        (λ s b. b.allowed) can_account-Explicit db
        (record { seeded = seeded; unnamed = unnamed; allowed = allowed })
