-- ===== src/Policy.antt =====
-- internal/app/policy.go: who may do what to which cloud account. Each SQL statement is a function
-- of the tables; the two long ones are written out separately, as the source does.
pub mod Agreement
pub mod Isolation
pub mod Merge
pub mod Grants
use netriun_nexus.Prelude.{
  ℕ, Bool, true, false, Option, none, some, List, [], ◌∷◌, ◌++◌, map, ◌&&◌, ◌||◌, not, String, leb,
  ◌==◌, str_eq, if◌then◌else◌, any, keep, contains,
}
use netriun_nexus.Store.{
  UserRole, admin, user, MemberRole, viewer, operator, manager, Capability, account_view,
  account_manage, compute_view, compute_operate, eds_view, eds_operate, eds_manage, billing_view,
  billing_sync, Principal, person, team, AccessGroup, Membership, SsoGrant, CloudAccount,
  AccessRole, Assignment, Db, User,
}

unfoldable pub supported_capabilities : List Capability
supported_capabilities =
    account_view ∷ account_manage ∷ compute_view ∷ compute_operate ∷ eds_view ∷ eds_operate
    ∷ eds_manage ∷ billing_view ∷ billing_sync ∷ []

-- The place of a capability in supportedCapabilities; two capabilities are one text iff these agree.
abbrev pub code : Capability → ℕ
code account_view = 0
code account_manage = 1
code compute_view = 2
code compute_operate = 3
code eds_view = 4
code eds_operate = 5
code eds_manage = 6
code billing_view = 7
code billing_sync = 8

abbrev pub same_capability : Capability → Capability → Bool
same_capability c d = code c == code d

-- `$5=ANY(ar.permissions)`.
abbrev pub permits : List Capability → Capability → Bool
permits permissions capability = any (λ p. same_capability p capability) permissions

-- u.Role == "admin".
abbrev pub is_admin : User → Bool
is_admin u = elim u.role [ admin ↦ true | user ↦ false ]

-- CASE ug.role WHEN 'manager' THEN 3 WHEN 'operator' THEN 2 ELSE 1 END.
abbrev pub rank : MemberRole → ℕ
rank manager = 3
rank operator = 2
rank viewer = 1

-- CASE $5 WHEN 'account.manage' THEN 3 … ELSE 1 END.
abbrev pub rank_needed : Capability → ℕ
rank_needed account_manage = 3
rank_needed eds_manage = 3
rank_needed billing_sync = 3
rank_needed compute_operate = 2
rank_needed eds_operate = 2
rank_needed _ = 1

abbrev pub is_manager : MemberRole → Bool
is_manager manager = true
is_manager _ = false

abbrev pub is_operator_or_manager : MemberRole → Bool
is_operator_or_manager viewer = false
is_operator_or_manager _ = true

abbrev membership : SsoGrant → Membership
membership g = record { user_id = g.user_id; group_id = g.group_id; role = g.role }

-- The view effective_user_groups.
abbrev pub effective_user_groups : Db → List Membership
effective_user_groups db = db.user_groups ++ map membership db.sso_grants

-- The condition of the joined rows on the principal: a user directly, or a team through a
-- membership whose role is high enough.
unfoldable pub principal_may : Db → User → Capability → Principal → Bool
principal_may db u capability (person id) = id == u.id
principal_may db u capability (team group) =
    any
      (λ ug.
        ug.group_id == group && ug.user_id == u.id && leb (rank_needed capability) (rank ug.role))
      (effective_user_groups db)

abbrev pub in_group : Option ℕ → ℕ → Bool
in_group none id = false
in_group (some g) id = g == id

-- `NOT EXISTS(… existing …)`.
unfoldable pub is_unassigned : Db → ℕ → ℕ → Bool
is_unassigned db workspace account =
    not (any (λ aa. aa.workspace_id == workspace && aa.cloud_account_id == account) db.assignments)

-- CanAccount: the join of an assignment with its role.
unfoldable pub checked_grant :
    Db → User → CloudAccount → Capability → Assignment → AccessRole → Bool
unfolding principal_may
checked_grant db u a capability aa ar =
    ar.id == aa.role_id
    && ar.workspace_id == aa.workspace_id
    && aa.workspace_id == u.workspace_id
    && aa.cloud_account_id == a.id
    && str_eq aa.service_key "*"
    && permits ar.permissions capability
    && principal_may db u capability aa.principal

unfoldable pub checked_assignment : Db → User → CloudAccount → Capability → Bool
unfolding checked_grant
checked_assignment db u a capability =
    any (λ aa. any (checked_grant db u a capability aa) db.access_roles) db.assignments

-- CanAccount: what a legacy group grants to a member.
abbrev pub legacy_grants : Capability → AccessGroup → MemberRole → Bool
legacy_grants account_view g role = g.view_dashboard
legacy_grants compute_view g role = g.view_dashboard
legacy_grants compute_operate g role = g.view_dashboard && is_operator_or_manager role
legacy_grants account_manage g role = g.manage_cloud_accounts && is_manager role
legacy_grants billing_view g role = g.view_dashboard
legacy_grants billing_sync g role = g.manage_cloud_accounts && is_manager role
legacy_grants _ g role = false

-- CanAccount: the join of a membership with its group.
unfoldable pub checked_member : User → CloudAccount → Capability → Membership → AccessGroup → Bool
checked_member u a capability ug g =
    g.id == ug.group_id
    && g.workspace_id == u.workspace_id
    && ug.user_id == u.id
    && in_group a.group_id ug.group_id
    && legacy_grants capability g ug.role

unfoldable pub checked_legacy : Db → User → CloudAccount → Capability → Bool
unfolding checked_member
checked_legacy db u a capability =
    any (λ ug. any (checked_member u a capability ug) db.access_groups) (effective_user_groups db)

unfoldable pub checked_account : Db → User → ℕ → Capability → CloudAccount → Bool
unfolding checked_assignment checked_legacy is_unassigned
checked_account db u id capability a =
    a.id == id
    && a.workspace_id == u.workspace_id
    && (is_admin u
        || checked_assignment db u a capability
        || is_unassigned db u.workspace_id a.id && checked_legacy db u a capability)

-- CanAccount. A failed query denies; the model is of the query that answers.
unfoldable pub can_account : Db → User → ℕ → Capability → Bool
unfolding checked_account
can_account db u id capability = any (checked_account db u id capability) db.cloud_accounts

-- AccessibleAccountIDs: the same join, over all the accounts of the workspace.
unfoldable pub listed_grant : Db → User → CloudAccount → Capability → Assignment → AccessRole → Bool
unfolding principal_may
listed_grant db u a capability aa ar =
    ar.id == aa.role_id
    && ar.workspace_id == aa.workspace_id
    && aa.workspace_id == u.workspace_id
    && aa.cloud_account_id == a.id
    && str_eq aa.service_key "*"
    && permits ar.permissions capability
    && principal_may db u capability aa.principal

unfoldable pub listed_assignment : Db → User → CloudAccount → Capability → Bool
unfolding listed_grant
listed_assignment db u a capability =
    any (λ aa. any (listed_grant db u a capability aa) db.access_roles) db.assignments

-- `$4 IN ('account.view','compute.view','billing.view')`.
abbrev is_viewing : Capability → Bool
is_viewing account_view = true
is_viewing compute_view = true
is_viewing billing_view = true
is_viewing _ = false

unfoldable pub listed_legacy : Db → User → CloudAccount → Capability → Bool
listed_legacy db u a capability =
    any
      (λ ug.
        any
          (λ g.
            g.id == ug.group_id
            && g.workspace_id == u.workspace_id
            && ug.user_id == u.id
            && in_group a.group_id ug.group_id
            && (is_viewing capability && g.view_dashboard
                || same_capability capability compute_operate
                  && g.view_dashboard
                  && is_operator_or_manager ug.role
                || same_capability capability account_manage
                  && g.manage_cloud_accounts
                  && is_manager ug.role
                || same_capability capability billing_sync
                  && g.manage_cloud_accounts
                  && is_manager ug.role))
          db.access_groups)
      (effective_user_groups db)

-- Insertion of an id before the first that is not smaller.
unfoldable pub insert_id : ℕ → List ℕ → List ℕ
insert_id id [] = id ∷ []
insert_id id (x ∷ xs) = let rest = insert_id id xs in if leb id x then id ∷ x ∷ xs else x ∷ rest

-- ORDER BY id, and sort.Slice by `<`.
unfoldable pub order_ids : List ℕ → List ℕ
unfolding insert_id
order_ids [] = []
order_ids (x ∷ xs) = insert_id x (order_ids xs)

abbrev account_id : CloudAccount → ℕ
account_id a = a.id

unfoldable pub listed_account : Db → User → Capability → CloudAccount → Bool
unfolding listed_assignment listed_legacy is_unassigned
listed_account db u capability a =
    a.workspace_id == u.workspace_id
    && (is_admin u
        || listed_assignment db u a capability
        || is_unassigned db u.workspace_id a.id && listed_legacy db u a capability)

-- AccessibleAccountIDs.
unfoldable pub accessible_account_ids : Db → User → Capability → List ℕ
unfolding listed_account order_ids
accessible_account_ids db u capability =
    order_ids (map account_id (keep (listed_account db u capability) db.cloud_accounts))

-- The keys of the map `unique`: each id once. The order in which Go ranges over the map is free;
-- here it is that of insertion, and the sort forgets it.
unique_ids : List ℕ → List ℕ → List ℕ
unique_ids seen [] = seen
unique_ids seen (id ∷ ids) = unique_ids (if contains seen id then seen else seen ++ id ∷ []) ids

unique_in_sets : List ℕ → List (List ℕ) → List ℕ
unique_in_sets seen [] = seen
unique_in_sets seen (set ∷ sets) = unique_in_sets (unique_ids seen set) sets

unfoldable pub merge_account_ids : List (List ℕ) → List ℕ
unfolding unique_ids unique_in_sets order_ids
merge_account_ids sets = order_ids (unique_in_sets [] sets)

unfoldable pub capability_for_mode : String → Option Capability
capability_for_mode mode =
    if str_eq mode "view"
    then some account_view
    else if str_eq mode "operate"
    then some compute_operate
    else if str_eq mode "manage"
    then some account_manage
    else none

-- accountAccess.
unfoldable pub account_access : Db → User → ℕ → String → Bool
unfolding capability_for_mode can_account
account_access db u id mode = elim (capability_for_mode mode) [
  | none ↦ false
  | some capability ↦ can_account db u id capability
]

-- The column that CanGroup asks for.
abbrev group_flag : String → AccessGroup → Bool
group_flag capability g =
    if str_eq capability "members" then g.manage_group_members else g.manage_cloud_accounts

unfoldable pub can_group : Db → User → ℕ → String → Bool
can_group db u group capability =
    if is_admin u
    then any (λ g. g.id == group && g.workspace_id == u.workspace_id) db.access_groups
    else any
        (λ ug.
          any
            (λ g.
              g.id == ug.group_id
              && ug.user_id == u.id
              && g.id == group
              && g.workspace_id == u.workspace_id
              && is_manager ug.role
              && group_flag capability g)
            db.access_groups)
        (effective_user_groups db)
