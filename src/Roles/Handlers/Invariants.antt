-- ===== src/Roles/Handlers/Invariants.antt =====
-- The invariant of the role table: every role's permissions are closed under what capabilities
-- imply, and every assignment refers to a role of its workspace.
use netriun_nexus.Prelude.{
  ℕ, String, Bool, true, ◌≡◌, refl, ◌∙◌, ◌&&◌, ◌==◌, arith, List, [], ◌∷◌, ◌++◌, Bool-cases, inl,
  inr, any, All, str_eq, All-append, All-change, All-mono, any-append, Keeps, change,
}
use netriun_nexus.Store.{AccessRole, Assignment, Db, User, Capability, AuditEntry}
use netriun_nexus.Text.{TextOps}
use netriun_nexus.Policy.{permits}
use netriun_nexus.Request.{Parsed, Body, append_entry, request_rules}
use netriun_nexus.Roles.{valid_role_permissions}
use netriun_nexus.Roles.Closure.{IsClosed}
use netriun_nexus.Roles.Requests.{valid_role_permissions-IsClosed}
use netriun_nexus.Roles.Handlers.{
  RoleInput, insert_role, update_role, store_role, save_access_role, is_editable, edited,
}

abbrev pub refers : Assignment → AccessRole → Bool
refers aa r = r.id == aa.role_id && r.workspace_id == aa.workspace_id

abbrev pub ClosedRole : AccessRole → Type 0
ClosedRole r = IsClosed (permits r.permissions)

pub record IsSound (db : Db) : Type 0 where
  pub closed : All ClosedRole db.access_roles
  pub referenced : All (λ aa. any (refers aa) db.access_roles ≡ true) db.assignments

IsSound-audit : (e : AuditEntry) (db : Db) → IsSound db → IsSound (append_entry e db)
IsSound-audit e db s = record { closed = s.closed; referenced = s.referenced }

any_more :
    (aa : Assignment) (roles : List AccessRole) (r : AccessRole)
    → any (refers aa) roles ≡ true
    → any (refers aa) (roles ++ r ∷ []) ≡ true
any_more aa roles r h = any-append (refers aa) roles (r ∷ []) ∙ ground arith

any-change :
    (aa : Assignment) (q : AccessRole → Bool) (inp : RoleInput) (permissions : List Capability)
    (roles : List AccessRole)
    → any (refers aa) (change q (edited inp permissions) roles) ≡ any (refers aa) roles
any-change aa q inp permissions [] = refl
any-change aa q inp permissions (r ∷ roles) = ground (arith, any-change aa q inp permissions roles)

insert_role-IsSound :
    (u : User) (inp : RoleInput) (permissions : List Capability)
    → IsClosed (permits permissions)
    → Keeps IsSound (insert_role u inp permissions)
unfolding insert_role
insert_role-IsSound u inp permissions k = record {
  after = λ db s.
      elim (Bool-cases
        (any (λ r. r.workspace_id == u.workspace_id && str_eq r.key inp.key) db.access_roles)) [
          | inl e ↦ rw e s
          | inr e ↦ rw e (record {
            closed = All-append ClosedRole db.access_roles _ s.closed (k, tt);
            referenced =
                All-mono _ _ db.assignments (λ aa h. any_more aa db.access_roles _ h) s.referenced;
          })
        ];
}

update_role-IsSound :
    (id : ℕ) (u : User) (inp : RoleInput) (permissions : List Capability)
    → IsClosed (permits permissions)
    → Keeps IsSound (update_role id u inp permissions)
unfolding update_role
update_role-IsSound id u inp permissions k = record {
  after = λ db s. elim (Bool-cases (any (is_editable id u inp.key) db.access_roles)) [
    | inr e ↦ rw e s
    | inl e ↦ rw e (record {
      closed =
          All-change ClosedRole (is_editable id u inp.key) (edited inp permissions) db.access_roles
            (λ r p h. k) s.closed;
      referenced =
          All-mono _ _ db.assignments
            (λ aa h. any-change aa (is_editable id u inp.key) inp permissions db.access_roles ∙ h)
            s.referenced;
    })
  ];
}

store_role-IsSound :
    (ops : TextOps) (down post : Bool) (u : User) (path : Parsed) (inp : RoleInput)
    (values : List String)
    → Keeps IsSound (store_role ops down post u path inp (valid_role_permissions ops values).0)
unfolding store_role
store_role-IsSound ops down post u path inp values = search (
  request_rules,
  insert_role-IsSound,
  update_role-IsSound,
  valid_role_permissions-IsClosed ops values,
)

save_access_role-Keeps :
    (ops : TextOps) (down : ℕ → Bool) (post : Bool) (u : User) (path : Parsed)
    (body : Body RoleInput)
    → Keeps IsSound (save_access_role ops down post u path body)
unfolding save_access_role
save_access_role-Keeps ops down post u path body =
    search (request_rules, store_role-IsSound, IsSound-audit) depth 12

-- Where the permissions of every role are closed under what capabilities imply and every assignment
-- has its role, this holds after a role is saved too, whatever the request and whatever fails.
pub save_access_role-IsSound :
    (ops : TextOps) (down : ℕ → Bool) (post : Bool) (u : User) (path : Parsed)
    (body : Body RoleInput) (db : Db)
    → IsSound db
    → IsSound (save_access_role ops down post u path body db).1
save_access_role-IsSound ops down post u path body db s =
    (save_access_role-Keeps ops down post u path body).after db s
