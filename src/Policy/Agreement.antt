-- ===== src/Policy/Agreement.antt =====
-- The list of accessible accounts and the check of one account decide alike.
use netriun_nexus.Prelude.{
  ℕ, ◌≡◌, refl, ap, ◌∙◌, List, [], ◌∷◌, map, ◌&&◌, ◌||◌, arith, ◌==◌, any, contains, any_of_keep,
  any_congr,
}
use netriun_nexus.Store.{
  Capability, account_view, account_manage, compute_view, compute_operate, eds_view, eds_operate,
  eds_manage, billing_view, billing_sync, AccessGroup, MemberRole, CloudAccount, Db, User,
}
use netriun_nexus.Policy.{
  checked_assignment, checked_legacy, checked_account, can_account, listed_account,
  listed_assignment, listed_legacy, insert_id, order_ids, accessible_account_ids, account_id,
  effective_user_groups, is_viewing, same_capability, is_operator_or_manager, is_manager,
  legacy_grants,
}

contains-insert_id :
    (id x : ℕ) (xs : List ℕ) → contains (insert_id x xs) id ≡ (x == id || contains xs id)
unfolding insert_id
contains-insert_id id x [] = refl
contains-insert_id id x (y ∷ ys) = ground (arith, contains-insert_id id x ys)

pub contains-order_ids : (id : ℕ) (xs : List ℕ) → contains (order_ids xs) id ≡ contains xs id
unfolding order_ids
contains-order_ids id [] = refl
contains-order_ids id (x ∷ xs) =
    contains-insert_id id x (order_ids xs) ∙ ap (λ b. x == id || b) (contains-order_ids id xs)

contains-map :
    (id : ℕ) (rows : List CloudAccount)
    → contains (map account_id rows) id ≡ any (λ a. a.id == id) rows
contains-map id [] = refl
contains-map id (a ∷ rows) = ap (λ b. a.id == id || b) (contains-map id rows)

-- The two ways to write what a legacy group grants.
legacy_condition :
    (c : Capability) (g : AccessGroup) (role : MemberRole)
    → (is_viewing c && g.view_dashboard
        || same_capability c compute_operate && g.view_dashboard && is_operator_or_manager role
        || same_capability c account_manage && g.manage_cloud_accounts && is_manager role
        || same_capability c billing_sync && g.manage_cloud_accounts && is_manager role)
      ≡ legacy_grants c g role
legacy_condition account_view g role = ground arith
legacy_condition account_manage g role = ground arith
legacy_condition compute_view g role = ground arith
legacy_condition compute_operate g role = ground arith
legacy_condition eds_view g role = ground arith
legacy_condition eds_operate g role = ground arith
legacy_condition eds_manage g role = ground arith
legacy_condition billing_view g role = ground arith
legacy_condition billing_sync g role = ground arith

legacy_agree :
    (db : Db) (u : User) (a : CloudAccount) (c : Capability)
    → listed_legacy db u a c ≡ checked_legacy db u a c
unfolding listed_legacy checked_legacy
legacy_agree db u a c =
    any_congr _ _ (effective_user_groups db)
      (λ ug. any_congr _ _ db.access_groups (λ g. rw (legacy_condition c g ug.role) refl))

assignment_agree :
    (db : Db) (u : User) (a : CloudAccount) (c : Capability)
    → listed_assignment db u a c ≡ checked_assignment db u a c
unfolding listed_assignment checked_assignment
assignment_agree db u a c = refl

account_agree :
    (db : Db) (u : User) (c : Capability) (id : ℕ) (a : CloudAccount)
    → (listed_account db u c a && a.id == id) ≡ checked_account db u id c a
unfolding listed_account checked_account
account_agree db u c id a = ground (arith, assignment_agree db u a c, legacy_agree db u a c)

-- An account is in the list of accessible accounts exactly when the check of that one account
-- allows it, for every user, capability and database.
pub accessible_account_ids-can_account :
    (db : Db) (u : User) (c : Capability) (id : ℕ)
    → contains (accessible_account_ids db u c) id ≡ can_account db u id c
unfolding accessible_account_ids can_account
accessible_account_ids-can_account db u c id =
    contains-order_ids id _
    ∙ contains-map id _
    ∙ any_of_keep (λ a. a.id == id) (listed_account db u c) db.cloud_accounts
    ∙ any_congr _ (checked_account db u id c) db.cloud_accounts (account_agree db u c id)
