-- ===== src/Access.antt =====
-- saveAccountAccess of internal/app/account_access.go: who is assigned which role on an account.
pub mod Inserts
pub mod Migration
pub mod OptIn
pub mod Peers
use netriun_nexus.Prelude.{
  ℕ, ℤ, below_one, to_ℕ, String, Bool, true, false, not, List, [], ◌∷◌, ◌++◌, ◌+◌, ◌&&◌, ◌||◌, ◌==◌,
  str_eq, ltb, if◌then◌else◌, any, find, keep, drop_where, count_where, join, map, Option, some,
  none, Result, ok, problem, Handler, pure, fail, require, transaction, ◌>>=◌, ◌>>◌,
}
use netriun_nexus.Store.{
  Principal, person, team, manual, sso, Source, Assignment, AccessRole, AccessGroup, CloudAccount,
  Db, User, numbered, Membership,
}
use netriun_nexus.Text.{TextOps}
use netriun_nexus.Policy.{effective_user_groups, is_manager, in_group}
use netriun_nexus.Request.{Body, decode, require_admin, query, exec, audit, available, db_message}

pub record AccessInput : Type 0 where
  pub principal_type : String
  pub principal_id : ℤ
  pub cloud_account : ℤ
  pub role_key : String
  pub service_key : String

abbrev pub same_principal : Principal → Principal → Bool
same_principal (person a) (person b) = a == b
same_principal (team a) (team b) = a == b
same_principal _ _ = false

abbrev pub same_source : Source → Source → Bool
same_source manual manual = true
same_source sso sso = true
same_source _ _ = false

-- The unique indexes account_access_user_source_idx and account_access_team_source_idx.
abbrev pub same_slot : Assignment → Assignment → Bool
same_slot x y =
    x.workspace_id == y.workspace_id
    && same_principal x.principal y.principal
    && x.cloud_account_id == y.cloud_account_id
    && str_eq x.service_key y.service_key
    && same_source x.source_type y.source_type
    && str_eq x.source_ref y.source_ref

-- INSERT … ON CONFLICT DO NOTHING, of one row and of several.
unfoldable pub insert_or_skip : Assignment → Db → Db
insert_or_skip x db = if any (same_slot x) db.assignments then db else record db {
  assignments = db.assignments ++ record x { id = db.next_id } ∷ [];
  next_id = db.next_id + 1;
}

unfoldable pub insert_rows : List Assignment → Db → Db
unfolding insert_or_skip
insert_rows [] db = db
insert_rows (x ∷ xs) db = insert_rows xs (insert_or_skip x db)

-- A row before it has its id.
abbrev pub assignment : ℕ → Principal → ℕ → ℕ → String → Assignment
assignment workspace principal account role ref = record {
  id = 0;
  workspace_id = workspace;
  principal = principal;
  cloud_account_id = account;
  role_id = role;
  service_key = "*";
  source_type = manual;
  source_ref = ref;
}

abbrev pub legacy_role : AccessGroup → String
legacy_role g = if g.manage_cloud_accounts then "account_manager" else "operator"

-- The first INSERT … SELECT of the migration: the team of an account that its group may view.
unfoldable pub team_rows : ℕ → ℕ → Db → List Assignment
team_rows workspace account db =
    join
      (λ ca.
        join
          (λ g.
            map (λ ar. assignment ca.workspace_id (team g.id) ca.id ar.id "legacy-migration")
              (keep (λ ar. ar.workspace_id == ca.workspace_id && str_eq ar.key (legacy_role g))
                db.access_roles))
          (keep
            (λ g.
              in_group ca.group_id g.id && g.workspace_id == ca.workspace_id && g.view_dashboard)
            db.access_groups))
      (keep (λ ca. ca.workspace_id == workspace && ca.id == account) db.cloud_accounts)

-- The second: the managers of a group that may manage accounts but not view them.
unfoldable pub manager_rows : ℕ → ℕ → Db → List Assignment
manager_rows workspace account db =
    join
      (λ ca.
        join
          (λ g.
            join
              (λ ug.
                map
                  (λ ar.
                    assignment ca.workspace_id (person ug.user_id) ca.id ar.id "legacy-migration")
                  (keep
                    (λ ar. ar.workspace_id == ca.workspace_id && str_eq ar.key "account_manager")
                    db.access_roles))
              (keep (λ ug. ug.group_id == g.id && is_manager ug.role) (effective_user_groups db)))
          (keep
            (λ g.
              in_group ca.group_id g.id
              && g.workspace_id == ca.workspace_id
              && not g.view_dashboard
              && g.manage_cloud_accounts)
            db.access_groups))
      (keep (λ ca. ca.workspace_id == workspace && ca.id == account) db.cloud_accounts)

-- `assignmentCount`.
abbrev pub assignment_count : ℕ → ℕ → Db → ℕ
assignment_count workspace account db =
    count_where (λ aa. aa.workspace_id == workspace && aa.cloud_account_id == account)
      db.assignments

unfoldable pub migrate_teams : ℕ → ℕ → Db → Db
unfolding team_rows insert_rows
migrate_teams workspace account db = insert_rows (team_rows workspace account db) db

unfoldable pub migrate_managers : ℕ → ℕ → Db → Db
unfolding manager_rows insert_rows
migrate_managers workspace account db = insert_rows (manager_rows workspace account db) db

-- The rows that the DELETE matches: the manual assignments of the principal on the account.
abbrev pub is_replaced : ℕ → Principal → ℕ → Assignment → Bool
is_replaced workspace principal account aa =
    aa.workspace_id == workspace
    && same_principal aa.principal principal
    && aa.cloud_account_id == account
    && str_eq aa.service_key "*"
    && same_source aa.source_type manual

unfoldable pub remove_assignments : ℕ → Principal → ℕ → Db → Db
remove_assignments workspace principal account db = record db {
  assignments = drop_where (is_replaced workspace principal account) db.assignments;
}

-- INSERT INTO account_access_assignments … RETURNING id.
unfoldable pub add_assignment : Assignment → Handler Db ℕ
add_assignment x db = if any (same_slot x) db.assignments then (problem 409 db_message, db) else (
  ok db.next_id,
  record db {
    assignments = db.assignments ++ record x { id = db.next_id } ∷ [];
    next_id = db.next_id + 1;
  },
)

abbrev pub principal_exists : ℕ → Principal → Db → Bool
principal_exists workspace (person id) db =
    any (λ x. x.id == id && x.workspace_id == workspace) db.users
principal_exists workspace (team id) db =
    any (λ g. g.id == id && g.workspace_id == workspace) db.access_groups

abbrev pub account_exists : ℕ → ℕ → Db → Bool
account_exists workspace account db =
    any (λ a. a.id == account && a.workspace_id == workspace) db.cloud_accounts

abbrev pub role_with_key : ℕ → String → Db → Option AccessRole
role_with_key workspace key db =
    find (λ r. r.workspace_id == workspace && str_eq r.key key) db.access_roles

-- Any error of this query, a missing row or a failure, answers 400.
abbrev pub chosen_role : Bool → Option AccessRole → Db → Result AccessRole × Db
chosen_role down found db = elim (if down then none else found) [
  | none ↦ (problem 400 "Choose a valid access role", db)
  | some r ↦ (ok r, db)
]

-- `if assignmentCount == 0`.
unfoldable pub migrate : (down : ℕ → Bool) → ℕ → ℕ → Db → Result (Unit {0}) × Db
migrate down workspace account db =
    if assignment_count workspace account db == 0
    then (exec (down 5) (migrate_teams workspace account)
          >> exec (down 6) (migrate_managers workspace account))
        db
    else (ok tt, db)

-- The new assignment, or 0 where the request removes one.
unfoldable pub assign : (down : ℕ → Bool) → ℕ → Principal → ℕ → String → Handler Db ℕ
unfolding add_assignment
assign down workspace principal account key =
    if str_eq key "" || str_eq key "none"
    then pure 0
    else ((λ db. chosen_role (down 8) (role_with_key workspace key db) db) >>= λ r.
        available (down 9) >> add_assignment (assignment workspace principal account r.id ""))

-- What runs inside the transaction.
unfoldable pub replacement : (down : ℕ → Bool) → ℕ → Principal → ℕ → String → Handler Db ℕ
unfolding migrate remove_assignments assign
replacement down workspace principal account key = do
  available (down 0)
  available (down 1)
  principal_found ← query (down 2) (principal_exists workspace principal)
  account_found ← query (down 3) (account_exists workspace account)
  require (principal_found && account_found) 404
      "User, team, or cloud account was not found in this workspace"
  available (down 4)
  migrate down workspace account
  exec (down 7) (remove_assignments workspace principal account)
  id ← assign down workspace principal account key
  available (down 10)
  pure id

unfoldable pub replace_assignment : (down : ℕ → Bool) → ℕ → Principal → ℕ → String → Handler Db ℕ
replace_assignment down workspace principal account key =
    transaction (replacement down workspace principal account key)

module _ (ops : TextOps) where
  open ops use {trim_space, to_lower}

  abbrev clean : AccessInput → AccessInput
  clean inp =
      let service = to_lower (trim_space inp.service_key) in
      record inp {
        principal_type = to_lower (trim_space inp.principal_type);
        role_key = to_lower (trim_space inp.role_key);
        service_key = if str_eq service "" then "*" else service;
      }

  abbrev is_valid : AccessInput → Bool
  is_valid inp =
      (str_eq inp.principal_type "user" || str_eq inp.principal_type "team")
      && not (below_one inp.principal_id)
      && not (below_one inp.cloud_account)
      && str_eq inp.service_key "*"

  abbrev principal_of : AccessInput → Principal
  principal_of inp =
      if str_eq inp.principal_type "user"
      then person (to_ℕ inp.principal_id)
      else team (to_ℕ inp.principal_id)

  unfoldable pub save_account_access : (down : ℕ → Bool) → User → Body AccessInput → Handler Db ℕ
  unfolding replace_assignment
  save_account_access down u body = do
    require_admin u
    raw ← decode body
    let inp = clean raw
    require (is_valid inp) 400 "Choose a valid user or team, cloud account, and account-level scope"
    id ←
        replace_assignment down u.workspace_id (principal_of inp) (to_ℕ inp.cloud_account)
          inp.role_key
    audit (down 11) u "account_access.saved" (numbered (to_ℕ inp.cloud_account))
    pure id
