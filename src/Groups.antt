-- ===== src/Groups.antt =====
-- Groups and their members: saveGroup, deleteGroup, saveMembership and deleteMembership of
-- internal/app/admin.go.
pub mod Links
use netriun_nexus.Prelude.{
  ℕ, String, Bool, true, false, not, List, [], ◌∷◌, ◌++◌, ◌+◌, ◌&&◌, ◌||◌, ◌==◌, str_eq, ltb,
  if◌then◌else◌, any, change, drop_where, Option, some, none, Result, ok, problem, Handler, pure,
  require, row_or, ◌>>=◌, ◌>>◌,
}
use netriun_nexus.Store.{
  User, Account, AccessGroup, Membership, MemberRole, viewer, operator, manager, SsoGrant,
  GroupMapping, Assignment, CloudAccount, Principal, person, team, numbered, of_member, Db,
}
use netriun_nexus.Text.{TextOps}
use netriun_nexus.Policy.{can_group}
use netriun_nexus.Request.{
  Body, Parsed, decode, require_admin, path_id, available, exec, audit, db_message, no_rows,
}

pub record GroupInput : Type 0 where
  pub name : String
  pub description : String
  pub view_dashboard : Bool
  pub manage_cloud_accounts : Bool
  pub manage_group_members : Bool

abbrev pub is_group : ℕ → ℕ → AccessGroup → Bool
is_group workspace id g = g.id == id && g.workspace_id == workspace

module _ (ops : TextOps) where
  open ops use {trim_space, len, rune_count}

  -- UNIQUE(workspace_id,name) and the CHECK on the length.
  abbrev is_refused : ℕ → ℕ → GroupInput → Db → Bool
  is_refused workspace self inp db =
      ltb (rune_count inp.name) 1
      || ltb 100 (rune_count inp.name)
      || any (λ g. not (g.id == self) && g.workspace_id == workspace && str_eq g.name inp.name)
          db.access_groups

  abbrev new_group : ℕ → ℕ → GroupInput → AccessGroup
  new_group id workspace inp = record {
    id = id;
    workspace_id = workspace;
    name = inp.name;
    description = inp.description;
    view_dashboard = inp.view_dashboard;
    manage_cloud_accounts = inp.manage_cloud_accounts;
    manage_group_members = inp.manage_group_members;
  }

  abbrev pub insert_group : ℕ → GroupInput → Handler Db ℕ
  insert_group workspace inp db =
      if is_refused workspace db.next_id inp db then (problem 409 db_message, db) else (
        ok db.next_id,
        record db {
          access_groups = db.access_groups ++ new_group db.next_id workspace inp ∷ [];
          next_id = db.next_id + 1;
        },
      )

  abbrev pub edited_group : GroupInput → AccessGroup → AccessGroup
  edited_group inp g = record g {
    name = inp.name;
    description = inp.description;
    view_dashboard = inp.view_dashboard;
    manage_cloud_accounts = inp.manage_cloud_accounts;
    manage_group_members = inp.manage_group_members;
  }

  abbrev pub update_group : ℕ → GroupInput → ℕ → Handler Db ℕ
  update_group workspace inp id db =
      if any (is_group workspace id) db.access_groups
      then if is_refused workspace id inp db then (problem 409 db_message, db) else (
        ok id,
        record db {
          access_groups = change (is_group workspace id) (edited_group inp) db.access_groups;
        },
      )
      else (problem 404 no_rows, db)

  abbrev store_group : (down : Bool) → ℕ → (post : Bool) → Parsed → GroupInput → Handler Db ℕ
  store_group down workspace post path inp =
      if post
      then available down >> insert_group workspace inp
      else path_id path >>= λ id. available down >> update_group workspace inp id

  unfoldable pub save_group :
      (down : ℕ → Bool) → User → (post : Bool) → Parsed → Body GroupInput → Handler Db ℕ
  save_group down u post path body = do
    require_admin u
    raw ← decode body
    let inp = record raw { name = trim_space raw.name }
    require (not (ltb (len inp.name) 1 || ltb 100 (len inp.name))) 400
        "Name must be 1–100 characters"
    id ← store_group (down 0) u.workspace_id post path inp
    audit (down 1) u "group.saved" (numbered id)
    pure id

-- DELETE FROM access_groups, with what the foreign keys delete or clear.
abbrev pub is_team : ℕ → Principal → Bool
is_team id (team n) = n == id
is_team id (person n) = false

abbrev in_this_group : ℕ → CloudAccount → Bool
in_this_group id a = elim a.group_id [ none ↦ false | some g ↦ g == id ]

abbrev pub remove_group : ℕ → ℕ → Db → Db
remove_group workspace id db = record db {
  access_groups = drop_where (is_group workspace id) db.access_groups;
  user_groups = drop_where (λ (m : Membership). m.group_id == id) db.user_groups;
  group_mappings = drop_where (λ (m : GroupMapping). m.group_id == id) db.group_mappings;
  sso_grants = drop_where (λ (g : SsoGrant). g.group_id == id) db.sso_grants;
  assignments = drop_where (λ (x : Assignment). is_team id x.principal) db.assignments;
  cloud_accounts =
      change (in_this_group id) (λ (a : CloudAccount). record a { group_id = none })
        db.cloud_accounts;
}

abbrev pub delete_group_rows : ℕ → ℕ → Handler Db (Unit {0})
delete_group_rows workspace id db =
    if any (is_group workspace id) db.access_groups
    then (ok tt, remove_group workspace id db)
    else (problem 404 "Group not found", db)

unfoldable pub delete_group : (down : ℕ → Bool) → User → Parsed → Handler Db (Unit {0})
delete_group down u path = do
  require_admin u
  id ← path_id path
  available (down 0)
  delete_group_rows u.workspace_id id
  audit (down 1) u "group.deleted" (numbered id)

abbrev pub member_role : String → Option MemberRole
member_role text =
    if str_eq text "viewer"
    then some viewer
    else if str_eq text "operator"
    then some operator
    else if str_eq text "manager"
    then some manager
    else none

abbrev pub is_membership : ℕ → ℕ → Membership → Bool
is_membership user group m = m.user_id == user && m.group_id == group

abbrev pub is_account : ℕ → ℕ → Account → Bool
is_account workspace id x = x.id == id && x.workspace_id == workspace

-- INSERT … SELECT … ON CONFLICT DO UPDATE: a row only where user and group are of the workspace.
abbrev pub put_membership : ℕ → Membership → Handler Db (Unit {0})
put_membership workspace m db =
    if any (is_account workspace m.user_id) db.users
      && any (is_group workspace m.group_id) db.access_groups
    then (
      ok tt,
      record db {
        user_groups =
            if any (is_membership m.user_id m.group_id) db.user_groups
            then change (is_membership m.user_id m.group_id)
                (λ (x : Membership). record x { role = m.role }) db.user_groups
            else db.user_groups ++ m ∷ [];
      },
    )
    else (problem 404 "User or group not found in this workspace", db)

-- groupAccess: any error of its query is a refusal.
abbrev pub manages_members : (down : Bool) → User → ℕ → Handler Db (Unit {0})
manages_members down u group db =
    if not down && can_group db u group "members"
    then (ok tt, db)
    else (problem 403 "Group membership management access required", db)

unfoldable pub save_membership :
    (down : ℕ → Bool) → User → (group user : Parsed) → Body String → Handler Db (Unit {0})
save_membership down u group user body = do
  gid ← path_id group
  uid ← path_id user
  manages_members (down 0) u gid
  text ← decode body
  role ← row_or (member_role text) 400 "Role must be viewer, operator or manager"
  available (down 1)
  put_membership u.workspace_id (record { user_id = uid; group_id = gid; role = role })
  audit (down 2) u "membership.saved" (of_member gid uid)

abbrev pub remove_membership : ℕ → ℕ → ℕ → Db → Db
remove_membership workspace group user db =
    if any (is_account workspace user) db.users && any (is_group workspace group) db.access_groups
    then record db { user_groups = drop_where (is_membership user group) db.user_groups }
    else db

unfoldable pub delete_membership :
    (down : ℕ → Bool) → User → (group user : Parsed) → Handler Db (Unit {0})
delete_membership down u group user = do
  gid ← path_id group
  uid ← path_id user
  manages_members (down 0) u gid
  exec (down 1) (remove_membership u.workspace_id gid uid)
  audit (down 2) u "membership.deleted" (of_member gid uid)
