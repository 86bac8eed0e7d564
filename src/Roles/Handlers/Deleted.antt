-- ===== src/Roles/Handlers/Deleted.antt =====
-- What deleting a role removes.
use mathlib.Core.List.{Memᴰ}
use netriun_nexus.Prelude.{
  ℕ, String, Bool, false, ◌≡◌, refl, sym, ap, ◌==◌, ◌&&◌, arith, List, [], ◌∷◌, any, find,
  find_passes, mem_of_find, count_where, drop_where, inl, inr, Option-cases, Result, none, some, ok,
  ◌∙◌, problem, ltb, eq_of_==,
}
use netriun_nexus.Store.{admin, AccessRole, Assignment, Db, User}
use netriun_nexus.Request.{Parsed, positive, negative, malformed}
use netriun_nexus.Roles.Handlers.{remove_role, delete_access_role, is_role}

-- An administrator named a role of the workspace that is not built in and that no assignment has;
-- it alone is gone.
pub record Removed (u : User) (path : Parsed) (before after : Db) : Type 0 where
  pub asker : u.role ≡ admin
  pub role : AccessRole
  pub is_row : Memᴰ role before.access_roles
  pub asked : path ≡ positive role.id
  pub own : role.workspace_id ≡ u.workspace_id
  pub added : role.built_in ≡ false
  pub unassigned : any (λ aa. aa.role_id == role.id) before.assignments ≡ false
  pub left :
      after.access_roles
      ≡ drop_where (λ r. r.id == role.id && r.workspace_id == u.workspace_id) before.access_roles

-- A request that is refused leaves the roles as they were.
abbrev pub Outcome : User → Parsed → Db → Result (Unit {0}) × Db → Type 0
Outcome u path before (ok _, after) = Removed u path before after
Outcome u path before (problem status message, after) = after.access_roles ≡ before.access_roles

none_counted :
    (id : ℕ) (rows : List Assignment)
    → ltb 0 (count_where (λ (aa : Assignment). aa.role_id == id) rows) ≡ false
    → any (λ (aa : Assignment). aa.role_id == id) rows ≡ false
none_counted id [] h = refl
none_counted id (aa ∷ rows) h = ground (arith, none_counted id rows)

unchanged :
    (down : ℕ → Bool) (u : User) (path : Parsed) (db : Db) (status : ℕ) (message : String)
    → (delete_access_role down u path db).0 ≡ problem status message
    → (delete_access_role down u path db).1.access_roles ≡ db.access_roles
unfolding delete_access_role remove_role
unchanged down u (positive n) db status message h = ground arith
unchanged down u (negative n) db status message h = ground arith
unchanged down u malformed db status message h = ground arith

module _ (down : ℕ → Bool) (u : User) (id : ℕ) (db : Db) (role : AccessRole)
    (row : find (is_role id u) db.access_roles ≡ some role)
    (done : (delete_access_role down u (positive id) db).0 ≡ ok tt) where
  asker_lem : u.role ≡ admin
  unfolding delete_access_role remove_role
  asker_lem = ground arith

  added_lem : role.built_in ≡ false
  unfolding delete_access_role remove_role
  added_lem = ground arith

  counted_lem :
      ltb 0 (count_where (λ (aa : Assignment). aa.role_id == role.id) db.assignments) ≡ false
  unfolding delete_access_role remove_role
  counted_lem = ground arith

  left_lem :
      (delete_access_role down u (positive id) db).1.access_roles
      ≡ drop_where (is_role id u) db.access_roles
  unfolding delete_access_role remove_role
  left_lem = ground arith

  gone : Removed u (positive id) db (delete_access_role down u (positive id) db).1
  gone =
      let named = find_passes (is_role id u) db.access_roles role row in
      let same = eq_of_== role.id id (ground arith) in
      record {
        asker = asker_lem;
        role = role;
        is_row = mem_of_find (is_role id u) db.access_roles role row;
        asked = ap positive (sym same);
        own = eq_of_== role.workspace_id u.workspace_id (ground arith);
        added = added_lem;
        unassigned = none_counted role.id db.assignments counted_lem;
        left =
            left_lem
            ∙ ap
                (λ i.
                  drop_where (λ r. r.id == i && r.workspace_id == u.workspace_id) db.access_roles)
                (sym same);
      }

missing :
    (down : ℕ → Bool) (u : User) (n : ℕ) (db : Db)
    → find (is_role n u) db.access_roles ≡ none
    → (delete_access_role down u (positive n) db).0 ≡ ok tt
    → ⊥
unfolding delete_access_role
missing down u n db e h = ground arith

removed :
    (down : ℕ → Bool) (u : User) (path : Parsed) (db : Db)
    → (delete_access_role down u path db).0 ≡ ok tt
    → Removed u path db (delete_access_role down u path db).1
removed down u (positive n) db h = elim (Option-cases (find (is_role n u) db.access_roles)) [
  | inl e ↦ absurd (missing down u n db e h)
  | inr (role, e) ↦ gone down u n db role e h
]
removed down u (negative n) db h = unfold delete_access_role in ground arith
removed down u malformed db h = unfold delete_access_role in ground arith

outcome :
    (u : User) (path : Parsed) (db : Db) (r : Result (Unit {0}) × Db)
    → (r.0 ≡ ok tt → Removed u path db r.1)
    → ((status : ℕ) (message : String)
        → r.0 ≡ problem status message
        → r.1.access_roles ≡ db.access_roles)
    → Outcome u path db r
outcome u path db (ok tt, after) f g = f refl
outcome u path db (problem status message, after) f g = g status message refl

-- A request to delete a role that succeeds is an administrator's, and has removed exactly the role of
-- the path, which was one of the workspace, not built in, and in no assignment; a request that is
-- refused, for whatever reason, leaves the roles as they were.
pub delete_access_role-Outcome :
    (down : ℕ → Bool) (u : User) (path : Parsed) (db : Db)
    → Outcome u path db (delete_access_role down u path db)
delete_access_role-Outcome down u path db =
    outcome u path db (delete_access_role down u path db) (removed down u path db)
      (unchanged down u path db)
