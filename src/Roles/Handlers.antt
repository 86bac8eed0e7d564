-- ===== src/Roles/Handlers.antt =====
-- saveAccessRole and deleteAccessRole of internal/app/account_access.go.
pub mod Safety
pub mod Deleted
pub mod Invariants
use netriun_nexus.Prelude.{
  ℕ, String, Bool, true, false, not, List, [], ◌∷◌, ◌++◌, ◌+◌, ◌&&◌, ◌==◌, str_eq, leb, ltb,
  if◌then◌else◌, any, find, change, drop_where, count_where, Option, some, none, Result, ok,
  problem, Handler, pure, fail, require, row_or, ◌>>=◌, ◌>>◌,
}
use netriun_nexus.Store.{Capability, AccessRole, Db, User, numbered}
use netriun_nexus.Text.{TextOps}
use netriun_nexus.Request.{
  Parsed, Body, decode, require_admin, path_id, query_row, exec, audit, available, db_message,
  no_rows,
}
use netriun_nexus.Roles.{valid_role_permissions}

pub record RoleInput : Type 0 where
  pub key : String
  pub name : String
  pub description : String
  pub permissions : List String

abbrev pub role_key_pattern : String
role_key_pattern = "^[a-z][a-z0-9_-]{1,62}$"

-- A row of a role that the request describes.
abbrev role_row : ℕ → User → RoleInput → List Capability → AccessRole
role_row id u inp permissions = record {
  id = id;
  workspace_id = u.workspace_id;
  key = inp.key;
  name = inp.name;
  description = inp.description;
  permissions = permissions;
  built_in = false;
}

abbrev edited : RoleInput → List Capability → AccessRole → AccessRole
edited inp permissions r = record r {
  name = inp.name;
  description = inp.description;
  permissions = permissions;
}

-- INSERT INTO access_roles, with UNIQUE(workspace_id,key).
unfoldable pub insert_role : User → RoleInput → List Capability → Handler Db ℕ
insert_role u inp permissions db =
    if any (λ r. r.workspace_id == u.workspace_id && str_eq r.key inp.key) db.access_roles
    then (problem 409 db_message, db)
    else (
      ok db.next_id,
      record db {
        access_roles = db.access_roles ++ role_row db.next_id u inp permissions ∷ [];
        next_id = db.next_id + 1;
      },
    )

-- WHERE id=$4 AND workspace_id=$5 AND NOT built_in AND key=$6.
abbrev pub is_editable : ℕ → User → String → AccessRole → Bool
is_editable id u key r =
    r.id == id && r.workspace_id == u.workspace_id && not r.built_in && str_eq r.key key

-- UPDATE access_roles … RETURNING id.
unfoldable pub update_role : ℕ → User → RoleInput → List Capability → Handler Db ℕ
update_role id u inp permissions db =
    if any (is_editable id u inp.key) db.access_roles
    then (
      ok id,
      record db {
        access_roles = change (is_editable id u inp.key) (edited inp permissions) db.access_roles;
      },
    )
    else (problem 404 no_rows, db)

module _ (ops : TextOps) where
  open ops use {trim_space, to_lower, matches, len}

  abbrev clean : RoleInput → RoleInput
  clean inp = record inp {
    key = trim_space (to_lower inp.key);
    name = trim_space inp.name;
    description = trim_space inp.description;
  }

  abbrev is_valid_role : RoleInput → Bool → Bool
  is_valid_role inp valid =
      matches role_key_pattern inp.key
      && not (ltb (len inp.name) 1)
      && not (ltb 100 (len inp.name))
      && not (ltb 500 (len inp.description))
      && valid

  -- The statement that POST and PUT come to.
  store_role : Bool → Bool → User → Parsed → RoleInput → List Capability → Handler Db ℕ
  unfolding insert_role update_role
  store_role down post u path inp permissions =
      if post
      then (available down >> insert_role u inp permissions)
      else (path_id path >>= λ id. available down >> update_role id u inp permissions)

  unfoldable pub save_access_role :
      (down : ℕ → Bool) → (post : Bool) → User → Parsed → Body RoleInput → Handler Db ℕ
  unfolding store_role
  save_access_role down post u path body = do
    require_admin u
    raw ← decode body
    let inp = clean raw
    let permissions = valid_role_permissions ops inp.permissions
    require (is_valid_role inp permissions.1) 400
        "Use a valid key and name, and select at least one supported capability"
    id ← store_role (down 0) post u path inp permissions.0
    audit (down 1) u "access_role.saved" (numbered id)
    pure id

abbrev pub is_role : ℕ → User → AccessRole → Bool
is_role id u r = r.id == id && r.workspace_id == u.workspace_id

-- DELETE FROM access_roles; the foreign key of account_access_assignments is ON DELETE RESTRICT.
unfoldable pub remove_role : ℕ → User → Db → Result (Unit {0}) × Db
remove_role id u db =
    if any (is_role id u) db.access_roles
      && any (λ aa. aa.role_id == id && aa.workspace_id == u.workspace_id) db.assignments
    then (problem 409 db_message, db)
    else (ok tt, record db { access_roles = drop_where (is_role id u) db.access_roles })

unfoldable pub delete_access_role : (down : ℕ → Bool) → User → Parsed → Db → Result (Unit {0}) × Db
unfolding remove_role
delete_access_role down u path = do
  require_admin u
  id ← path_id path
  role ← query_row (down 0) (λ db. find (is_role id u) db.access_roles)
  require (not role.built_in) 409 "Built-in policies cannot be deleted"
  assigned ← (λ db. (ok (count_where (λ aa. aa.role_id == role.id) db.assignments), db))
  require (not (ltb 0 assigned)) 409
      "Remove this policy from every account assignment before deleting it"
  available (down 1)
  remove_role id u
  audit (down 2) u "access_role.deleted" (numbered id)
