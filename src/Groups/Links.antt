-- ===== src/Groups/Links.antt =====
-- Every membership joins a user and a group of one workspace.
use netriun_nexus.Prelude.{
  ℕ, String, Bool, true, false, not, ◌≡◌, refl, ◌∙◌, List, [], ◌∷◌, ◌++◌, ◌&&◌, ◌==◌, arith, any,
  any_mono, any-append, any-keep, change, All, All-append, All-keep, All-keep_test, All-change,
  All-mono, All-both, Bool-cases, inl, inr, Keeps, if◌then◌else◌, eq_of_==, &&_elim,
}
use netriun_nexus.Store.{User, Account, AccessGroup, Membership, Db, AuditEntry}
use netriun_nexus.Text.{TextOps}
use netriun_nexus.Request.{Body, Parsed, append_entry, request_rules}
use netriun_nexus.Policy.{can_group}
use netriun_nexus.Groups.{
  GroupInput, is_group, is_refused, edited_group, insert_group, update_group, save_group,
  remove_group, delete_group_rows, delete_group, is_account, is_membership, put_membership,
  manages_members, save_membership, remove_membership, delete_membership,
}

abbrev pub of_workspace : ℕ → ℕ → AccessGroup → Bool
of_workspace group workspace g = g.id == group && g.workspace_id == workspace

abbrev pub is_linked : List Account → List AccessGroup → Membership → Bool
is_linked users groups m =
    any (λ (x : Account). x.id == m.user_id && any (of_workspace m.group_id x.workspace_id) groups)
      users

abbrev pub Linked : Db → Type 0
Linked db = All (λ m. is_linked db.users db.access_groups m ≡ true) db.user_groups

Linked-audit : (e : AuditEntry) (db : Db) → Linked db → Linked (append_entry e db)
Linked-audit e db l = l

linked_mono :
    (users : List Account) (groups more : List AccessGroup) (m : Membership)
    → ((workspace : ℕ)
        → any (of_workspace m.group_id workspace) groups ≡ true
        → any (of_workspace m.group_id workspace) more ≡ true)
    → is_linked users groups m ≡ true
    → is_linked users more m ≡ true
linked_mono users groups more m f h = any_mono _ _ users (λ x e. kept x (&&_elim _ _ e)) h
  where
    kept :
        (x : Account)
        → ((x.id == m.user_id) ≡ true)
          × (any (of_workspace m.group_id x.workspace_id) groups ≡ true)
        → (x.id == m.user_id && any (of_workspace m.group_id x.workspace_id) more) ≡ true
    kept x (p, q) = let r = f x.workspace_id q in ground arith

any-edited :
    (ops : TextOps) (group workspace ws id : ℕ) (inp : GroupInput) (groups : List AccessGroup)
    → any (of_workspace group workspace) (change (is_group ws id) (edited_group ops inp) groups)
      ≡ any (of_workspace group workspace) groups
any-edited ops group workspace ws id inp [] = refl
any-edited ops group workspace ws id inp (g ∷ groups) = elim (Bool-cases (is_group ws id g)) [
  | inl e ↦ rw (e, any-edited ops group workspace ws id inp groups) refl
  | inr e ↦ rw (e, any-edited ops group workspace ws id inp groups) refl
]

module _ (ops : TextOps) where
  insert_group-Linked : (ws : ℕ) (inp : GroupInput) → Keeps Linked (insert_group ops ws inp)
  insert_group-Linked ws inp = record {
    after = λ db l. elim (Bool-cases (is_refused ops ws db.next_id inp db)) [
      | inl e ↦ rw e l
      | inr e ↦ rw e (
          All-mono _ _ db.user_groups
            (λ m.
              linked_mono db.users db.access_groups _ m
                (λ w h. any-append _ db.access_groups _ ∙ ground arith))
            l)
    ];
  }

  update_group-Linked :
      (ws : ℕ) (inp : GroupInput) (id : ℕ) → Keeps Linked (update_group ops ws inp id)
  update_group-Linked ws inp id = record {
    after = λ db l. elim (Bool-cases (any (is_group ws id) db.access_groups)) [
      | inr e ↦ rw e l
      | inl e ↦ elim (Bool-cases (is_refused ops ws id inp db)) [
        | inl r ↦ rw (e, r) l
        | inr r ↦
            rw (e, r)
              (All-mono _ _ db.user_groups
                (λ m.
                  linked_mono db.users db.access_groups _ m
                    (λ w h. any-edited ops m.group_id w ws id inp db.access_groups ∙ h))
                l)
      ]
    ];
  }

  save_group-Keeps :
      (down : ℕ → Bool) (u : User) (post : Bool) (path : Parsed) (body : Body GroupInput)
      → Keeps Linked (save_group ops down u post path body)
  unfolding save_group
  save_group-Keeps down u post path body =
      search (request_rules, insert_group-Linked, update_group-Linked, Linked-audit) depth 14

  -- Where every membership joins a user and a group of one workspace, this holds after a group is created
  -- or edited too.
  pub save_group-Linked :
      (down : ℕ → Bool) (u : User) (post : Bool) (path : Parsed) (body : Body GroupInput) (db : Db)
      → Linked db
      → Linked (save_group ops down u post path body db).1
  save_group-Linked down u post path body db l = (save_group-Keeps down u post path body).after db l

remove_group-Linked : (ws id : ℕ) (db : Db) → Linked db → Linked (remove_group ws id db)
remove_group-Linked ws id db l =
    All-mono _ _ _
      (λ m h.
        linked_mono db.users db.access_groups _ m
          (λ w k. any-keep _ _ db.access_groups (λ g e. other w m g h.1 e) ∙ k) h.0)
      (All-both _ _ _ (All-keep _ _ db.user_groups l) (All-keep_test _ db.user_groups))
  where
    other :
        (w : ℕ) (m : Membership) (g : AccessGroup)
        → not (m.group_id == id) ≡ true
        → of_workspace m.group_id w g ≡ true
        → not (is_group ws id g) ≡ true
    other w m g h e = ground arith

delete_group_rows-Linked : (ws id : ℕ) → Keeps Linked (delete_group_rows ws id)
delete_group_rows-Linked ws id = record {
  after = λ db l. elim (Bool-cases (any (is_group ws id) db.access_groups)) [
    | inl e ↦ rw e (remove_group-Linked ws id db l)
    | inr e ↦ rw e l
  ];
}

delete_group-Keeps :
    (down : ℕ → Bool) (u : User) (path : Parsed) → Keeps Linked (delete_group down u path)
unfolding delete_group
delete_group-Keeps down u path =
    search (request_rules, delete_group_rows-Linked, Linked-audit) depth 12

-- Where every membership joins a user and a group of one workspace, this holds after a request to delete
-- a group too.
pub delete_group-Linked :
    (down : ℕ → Bool) (u : User) (path : Parsed) (db : Db)
    → Linked db
    → Linked (delete_group down u path db).1
delete_group-Linked down u path db l = (delete_group-Keeps down u path).after db l

new_is_linked :
    (ws : ℕ) (m : Membership) (users : List Account) (groups : List AccessGroup)
    → any (is_account ws m.user_id) users ≡ true
    → any (is_group ws m.group_id) groups ≡ true
    → is_linked users groups m ≡ true
new_is_linked ws m users groups p q = any_mono _ _ users (λ x e. here x e) p
  where
    here :
        (x : Account)
        → is_account ws m.user_id x ≡ true
        → (x.id == m.user_id && any (of_workspace m.group_id x.workspace_id) groups) ≡ true
    here x e = rw (eq_of_== x.workspace_id ws (ground arith)) (ground arith)

put_membership-Linked : (ws : ℕ) (m : Membership) → Keeps Linked (put_membership ws m)
put_membership-Linked ws m = record {
  after = λ db l.
      elim (Bool-cases
        (any (is_account ws m.user_id) db.users && any (is_group ws m.group_id) db.access_groups)) [
          | inr e ↦ rw e l
          | inl e ↦
              let (p, q) = &&_elim _ _ e in
              rw e (stored db l (new_is_linked ws m db.users db.access_groups p q))
        ];
}
  where
    stored :
        (db : Db)
        → Linked db
        → is_linked db.users db.access_groups m ≡ true
        → All
            (λ x. is_linked db.users db.access_groups x ≡ true)
            (if any (is_membership m.user_id m.group_id) db.user_groups
              then change
                  (is_membership m.user_id m.group_id)
                  (λ (x : Membership). record x { role = m.role })
                  db.user_groups
              else db.user_groups ++ m ∷ [])
    stored db l h = elim (Bool-cases (any (is_membership m.user_id m.group_id) db.user_groups)) [
      | inl e ↦ rw e (All-change _ _ _ db.user_groups (λ x _ k. k) l)
      | inr e ↦ rw e (All-append _ db.user_groups _ l (h, tt))
    ]

manages_members-Linked :
    (down : Bool) (u : User) (group : ℕ) → Keeps Linked (manages_members down u group)
manages_members-Linked down u group = record {
  after = λ db l. elim (Bool-cases (not down && can_group db u group "members")) [
    | inl e ↦ rw e l
    | inr e ↦ rw e l
  ];
}

save_membership-Keeps :
    (down : ℕ → Bool) (u : User) (group member : Parsed) (body : Body String)
    → Keeps Linked (save_membership down u group member body)
unfolding save_membership
save_membership-Keeps down u group member body =
    search (request_rules, put_membership-Linked, manages_members-Linked, Linked-audit) depth 16

-- Where every membership joins a user and a group of one workspace, this holds after a member is added or
-- a role changed too, though the ids of the group and the user are the request's.
pub save_membership-Linked :
    (down : ℕ → Bool) (u : User) (group member : Parsed) (body : Body String) (db : Db)
    → Linked db
    → Linked (save_membership down u group member body db).1
save_membership-Linked down u group member body db l =
    (save_membership-Keeps down u group member body).after db l

remove_membership-Linked :
    (ws group member : ℕ) (db : Db) → Linked db → Linked (remove_membership ws group member db)
remove_membership-Linked ws group member db l =
    elim (Bool-cases
      (any (is_account ws member) db.users && any (is_group ws group) db.access_groups)) [
        | inl e ↦ rw e (All-keep _ _ db.user_groups l)
        | inr e ↦ rw e l
      ]

delete_membership-Keeps :
    (down : ℕ → Bool) (u : User) (group member : Parsed)
    → Keeps Linked (delete_membership down u group member)
unfolding delete_membership
delete_membership-Keeps down u group member =
    search (request_rules, manages_members-Linked, remove_membership-Linked, Linked-audit) depth 16

-- Where every membership joins a user and a group of one workspace, this holds after a request to remove
-- a member too.
pub delete_membership-Linked :
    (down : ℕ → Bool) (u : User) (group member : Parsed) (db : Db)
    → Linked db
    → Linked (delete_membership down u group member db).1
delete_membership-Linked down u group member db l =
    (delete_membership-Keeps down u group member).after db l

-- Whoever is no manager of the group's members changes nothing by asking to add one.
pub save_membership-refused :
    (down : ℕ → Bool) (u : User) (group member : ℕ) (body : Body String) (db : Db)
    → can_group db u group "members" ≡ false
    → (save_membership down u (Parsed.positive group) (Parsed.positive member) body db).1 ≡ db
unfolding save_membership
save_membership-refused down u group member body db h = ground arith
