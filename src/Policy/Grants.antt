-- ===== src/Policy/Grants.antt =====
-- The meaning of the policy: the ways in which a user may do something to an account, as
-- derivations from the rows of the tables.
use mathlib.Core.List.{Memᴰ}
use netriun_nexus.Prelude.{
  ℕ, true, ◌≡◌, ◌↔◌, ◌&&◌, ◌||◌, arith, ◌==◌, ◌≤◌, any, any_mem, any_of_mem, inl, inr, ||_elim,
  Option, some, none, ap, eq_of_==, ==_refl, leb, eq_of_str_eq, eq_iff,
}
use netriun_nexus.Store.{
  Capability, admin, person, team, AccessGroup, AccessRole, Assignment, Membership, CloudAccount,
  Db, User, Principal,
}
use netriun_nexus.Policy.{
  checked_assignment, checked_legacy, checked_grant, is_unassigned, checked_account, can_account,
  effective_user_groups, principal_may, permits, legacy_grants, rank, rank_needed, is_admin,
  in_group, checked_member,
}

-- Whom an assignment names: the user, or a team of which the user is a member of enough rank.
pub data Names (db : Db) (u : User) (c : Capability) (p : Principal) : Type 0 where
  directly : p ≡ person u.id → Names db u c p
  through :
      (m : Membership)
      → p ≡ team m.group_id
      → Memᴰ m (effective_user_groups db)
      → m.user_id ≡ u.id
      → rank_needed c ≤ rank m.role
      → Names db u c p

pub data Granted (db : Db) (u : User) (c : Capability) (a : CloudAccount) : Type 0 where
  -- A workspace administrator.
  by_role : u.role ≡ admin → Granted db u c a
  -- An assignment of the account to the user or to a team, with a role that has the capability.
  by_assignment :
      (aa : Assignment) (r : AccessRole)
      → Memᴰ aa db.assignments
      → Memᴰ r db.access_roles
      → r.id ≡ aa.role_id
      → r.workspace_id ≡ aa.workspace_id
      → aa.workspace_id ≡ u.workspace_id
      → aa.cloud_account_id ≡ a.id
      → aa.service_key ≡ "*"
      → permits r.permissions c ≡ true
      → Names db u c aa.principal
      → Granted db u c a
  -- The legacy group of an account with no assignments.
  by_group :
      (m : Membership) (g : AccessGroup)
      → is_unassigned db u.workspace_id a.id ≡ true
      → Memᴰ m (effective_user_groups db)
      → Memᴰ g db.access_groups
      → g.id ≡ m.group_id
      → g.workspace_id ≡ u.workspace_id
      → m.user_id ≡ u.id
      → a.group_id ≡ some m.group_id
      → legacy_grants c g m.role ≡ true
      → Granted db u c a

in_group-eq-some : (o : Option ℕ) (id : ℕ) → in_group o id ≡ true → o ≡ some id
in_group-eq-some none id h = cc
in_group-eq-some (some g) id h = ap some (eq_of_== g id h)

module _ (db : Db) (u : User) (c : Capability) where
  Names-sound : (p : Principal) → principal_may db u c p ≡ true → Names db u c p
  unfolding principal_may
  Names-sound (person id) h = directly (ap person (eq_of_== id u.id h))
  Names-sound (team group) h =
      let (m, inside, e) =
        any_mem
          (λ ug. ug.group_id == group && ug.user_id == u.id && leb (rank_needed c) (rank ug.role)) _
          h in
      through m (ap team (ground arith)) inside (ground arith) (ground arith)

  Names-complete : (p : Principal) → Names db u c p → principal_may db u c p ≡ true
  unfolding principal_may
  Names-complete p (directly e) = rw e (==_refl u.id)
  Names-complete p (through m e inside same enough) = rw e (any_of_mem _ _ inside (ground arith))

  assignment_sound : (a : CloudAccount) → checked_assignment db u a c ≡ true → Granted db u c a
  unfolding checked_assignment
  assignment_sound a h =
      let (aa, in_aa, e) = any_mem (λ x. any (checked_grant db u a c x) db.access_roles) _ h in
      let (r, in_r, e') = any_mem (checked_grant db u a c aa) _ e in
      unfold checked_grant in
      by_assignment aa r in_aa in_r (ground arith) (ground arith) (ground arith) (ground arith)
        (eq_of_str_eq _ _ (ground arith)) (ground arith) (Names-sound aa.principal (ground arith))

  group_sound :
      (a : CloudAccount)
      → is_unassigned db u.workspace_id a.id ≡ true
      → checked_legacy db u a c ≡ true
      → Granted db u c a
  unfolding checked_legacy
  group_sound a free h =
      let (m, in_m, e) = any_mem (λ x. any (checked_member u a c x) db.access_groups) _ h in
      let (g, in_g, e') = any_mem (checked_member u a c m) _ e in
      unfold checked_member in
      by_group m g free in_m in_g (ground arith) (ground arith) (ground arith)
        (in_group-eq-some a.group_id m.group_id (ground arith)) (ground arith)

  Granted-sound :
      (a : CloudAccount)
      → (is_admin u
          || checked_assignment db u a c
          || is_unassigned db u.workspace_id a.id && checked_legacy db u a c)
        ≡ true
      → Granted db u c a
  Granted-sound a h = elim (||_elim (is_admin u || checked_assignment db u a c) _ h) [
    | inl e ↦ elim (||_elim (is_admin u) _ e) [
      | inl e' ↦ by_role (ground arith)
      | inr e' ↦ assignment_sound a e'
    ]
    | inr e ↦ group_sound a (ground arith) (ground arith)
  ]

  Granted-complete :
      (a : CloudAccount)
      → Granted db u c a
      → (is_admin u
          || checked_assignment db u a c
          || is_unassigned db u.workspace_id a.id && checked_legacy db u a c)
        ≡ true
  unfolding checked_assignment checked_legacy
  Granted-complete a (by_role e) = ground arith
  Granted-complete a (by_assignment aa r in_aa in_r p q s t key may names) =
      let row : checked_grant db u a c aa r ≡ true =
        unfold checked_grant in
        ground (arith, Names-complete aa.principal names, eq_iff aa.service_key "*") in
      let found : any (λ x. any (checked_grant db u a c x) db.access_roles) db.assignments ≡ true =
        any_of_mem _ _ in_aa (any_of_mem _ _ in_r row) in
      ground arith
  Granted-complete a (by_group m g free in_m in_g p q s t may) =
      let row : checked_member u a c m g ≡ true = unfold checked_member in ground arith in
      let found : any (λ x. any (checked_member u a c x) db.access_groups)
            (effective_user_groups db)
          ≡ true =
        any_of_mem _ _ in_m (any_of_mem _ _ in_g row) in
      ground arith

-- The check of an account allows a capability exactly when the account is one of the user's
-- workspace and the capability is granted: to a workspace administrator, by an assignment to the
-- user or to a team in which the user's rank suffices, or, for an account with no assignments, by
-- its legacy group.
pub can_account_iff :
    (db : Db) (u : User) (id : ℕ) (c : Capability)
    → (can_account db u id c ≡ true) ↔ (
        (a : CloudAccount) × Memᴰ a db.cloud_accounts
        × (a.id ≡ id)
        × (a.workspace_id ≡ u.workspace_id)
        × Granted db u c a)
unfolding can_account checked_account
can_account_iff db u id c = (
  λ h.
      let (a, inside, e) = any_mem (checked_account db u id c) _ h in
      (a, inside, ground arith, ground arith, Granted-sound db u c a (ground arith)),
  λ w. any_of_mem _ _ w.1 (ground (arith, Granted-complete db u c w.0 w.4)),
)
