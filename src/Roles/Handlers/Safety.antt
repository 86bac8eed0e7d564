-- ===== src/Roles/Handlers/Safety.antt =====
-- What saving and deleting a role never does.
use netriun_nexus.Prelude.{
  ℕ, Bool, false, ◌≡◌, refl, not, ◌||◌, ◌==◌, arith, List, keep, Bool-cases, inl, inr,
  keep-append_unseen, keep-change_unseen, Keeps, find, some, drop_where, contains, map, [], ◌∷◌,
  IsDistinct, Option-cases, sym, eq_of_==,
}
use mathlib.Core.Option.{some-injective}
use netriun_nexus.Store.{AccessRole, Db, User, Capability, AuditEntry}
use netriun_nexus.Text.{TextOps}
use netriun_nexus.Request.{Parsed, positive, Body, append_entry, request_rules}
use netriun_nexus.Roles.Handlers.{
  RoleInput, insert_role, update_role, store_role, save_access_role, remove_role,
  delete_access_role, is_role, is_editable, role_row, edited,
}

-- The rows that a workspace administrator may not touch: built-in roles, and every role of another
-- workspace.
abbrev pub is_protected : User → AccessRole → Bool
is_protected u r = r.built_in || not (r.workspace_id == u.workspace_id)

abbrev pub protected : User → Db → List AccessRole
protected u db = keep (is_protected u) db.access_roles

module _ (u : User) (rows : List AccessRole) where
  abbrev Untouched : Db → Type 0
  Untouched db = protected u db ≡ rows

  Untouched-audit : (e : AuditEntry) (db : Db) → Untouched db → Untouched (append_entry e db)
  Untouched-audit e db h = h

  insert_role-Untouched :
      (inp : RoleInput) (permissions : List Capability)
      → Keeps Untouched (insert_role u inp permissions)
  unfolding insert_role
  insert_role-Untouched inp permissions = record {
    after = λ db h. ground (
      arith,
      keep-append_unseen (is_protected u) db.access_roles (role_row db.next_id u inp permissions)
          (ground arith),
    );
  }

  update_role-Untouched :
      (id : ℕ) (inp : RoleInput) (permissions : List Capability)
      → Keeps Untouched (update_role id u inp permissions)
  unfolding update_role
  update_role-Untouched id inp permissions = record {
    after = λ db h. ground (
      arith,
      keep-change_unseen (is_protected u) (is_editable id u inp.key) (edited inp permissions)
          db.access_roles (λ r e. ground arith),
    );
  }

  save_access_role-Untouched :
      (ops : TextOps) (down : ℕ → Bool) (post : Bool) (path : Parsed) (body : Body RoleInput)
      → Keeps Untouched (save_access_role ops down post u path body)
  unfolding save_access_role store_role
  save_access_role-Untouched ops down post path body =
      search (request_rules, insert_role-Untouched, update_role-Untouched, Untouched-audit) depth 12

abbrev pub role_id : AccessRole → ℕ
role_id r = r.id

only_match :
    (u : User) (id : ℕ) (rows : List AccessRole)
    → contains (map role_id rows) id ≡ false
    → drop_where (is_role id u) rows ≡ rows
only_match u id [] h = refl
only_match u id (r ∷ rows) h = ground (arith, only_match u id rows)

-- With unique ids, the row that the query read is the only one that the DELETE matches.
drop_found :
    (u : User) (id : ℕ) (rows : List AccessRole) (role : AccessRole)
    → IsDistinct (map role_id rows)
    → find (is_role id u) rows ≡ some role
    → role.built_in ≡ false
    → keep (is_protected u) (drop_where (is_role id u) rows) ≡ keep (is_protected u) rows
drop_found u id [] role d f b = cc
drop_found u id (r ∷ rows) role (n, d) f b = elim (Bool-cases (is_role id u r)) [
  | inl e ↦
      let same : r ≡ role = some-injective r role (rw e at f) in
      let plain : r.built_in ≡ false = rw same b in
      let rest : drop_where (is_role id u) rows ≡ rows =
        only_match u id rows (rw (sym (eq_of_== r.id id (ground arith))) n) in
      rw (e, rest) (ground arith)
  | inr e ↦ rw e (rw (drop_found u id rows role d (rw e at f) b) refl)
]

remove_role-protected :
    (u : User) (id : ℕ) (db : Db) (role : AccessRole)
    → IsDistinct (map role_id db.access_roles)
    → find (is_role id u) db.access_roles ≡ some role
    → role.built_in ≡ false
    → protected u (remove_role id u db).1 ≡ protected u db
unfolding remove_role
remove_role-protected u id db role d f b =
    ground (arith, drop_found u id db.access_roles role d f b)

delete_numbered-protected :
    (u : User) (db : Db) (down : ℕ → Bool) (id : ℕ)
    → IsDistinct (map role_id db.access_roles)
    → protected u (delete_access_role down u (positive id) db).1 ≡ protected u db
unfolding delete_access_role
delete_numbered-protected u db down id d =
    elim (Option-cases (find (is_role id u) db.access_roles)) [
      | inl e ↦ ground arith
      | inr (role, e) ↦ ground (arith, remove_role-protected u id db role d e)
    ]

-- Deleting a role, whatever the id and whatever statements fail, leaves the built-in roles and the
-- roles of other workspaces as they were, where role ids are unique.
pub delete_access_role-protected :
    (u : User) (db : Db) (down : ℕ → Bool) (path : Parsed)
    → IsDistinct (map role_id db.access_roles)
    → protected u (delete_access_role down u path db).1 ≡ protected u db
delete_access_role-protected u db down (positive id) d = delete_numbered-protected u db down id d
delete_access_role-protected u db down path d = unfold delete_access_role in ground arith

-- Saving a role, whatever the request and whatever statements fail, leaves the built-in roles and
-- the roles of other workspaces as they were.
pub save_access_role-protected :
    (u : User) (db : Db) (ops : TextOps) (down : ℕ → Bool) (post : Bool) (path : Parsed)
    (body : Body RoleInput)
    → protected u (save_access_role ops down post u path body db).1 ≡ protected u db
save_access_role-protected u db ops down post path body =
    (save_access_role-Untouched u (protected u db) ops down post path body).after db refl
