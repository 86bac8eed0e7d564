-- ===== src/Users/Owners.antt =====
-- Owners stay administrators, and ids stay unique.
use mathlib.Core.List.{Memᴰ}
use netriun_nexus.Prelude.{
  ℕ, Bool, true, false, not, ◌≡◌, refl, sym, List, [], ◌∷◌, ◌<◌, ◌||◌, ◌==◌, arith, any, find,
  Bool-cases, inl, inr, String, Option, some, All, All-append, All-keep, All-change, All-mono,
  change, Keeps, Ends, Ends-require, keeps_rules, subst, Result, ok, problem, str_eq, mem_of_keep,
  eq_of_==, Keeps-of_Ends, Ends-bind, AtMostOne, AtMostOne-snoc, AtMostOne-keep, AtMostOne-change,
  any_new,
}
use netriun_nexus.Store.{Account, Db, User, AuditEntry}
use netriun_nexus.Text.{TextOps}
use netriun_nexus.Credentials.{UnicodeOps}
use netriun_nexus.Request.{
  Body, Parsed, Ends-available, Ends-query_row, Ends-path_id, append_entry, request_rules,
}
use netriun_nexus.Users.{
  UserInput, Profile, is_admin_role, is_row, is_refused, edited, update_user, change_user,
  insert_user, create_user, save_user, store_user, notify, send_new_verification, use_tokens,
  add_token, remove_user, delete_rows, delete_user, is_deleted, answering,
}

abbrev pub owner_is_admin : Account → Bool
owner_is_admin x = not x.is_owner || is_admin_role x.role

pub record IsSound (db : Db) : Type 0 where
  pub owners : All (λ x. owner_is_admin x ≡ true) db.users
  pub old : All (λ (x : Account). x.id < db.next_id) db.users
  pub unique : (id : ℕ) → AtMostOne (λ x. x.id == id) db.users

pub IsSound-audit : (e : AuditEntry) (db : Db) → IsSound db → IsSound (append_entry e db)
IsSound-audit e db s = record { owners = s.owners; old = s.old; unique = s.unique }

-- The row that QueryRow reads is the only one that the UPDATE changes.
All-change_found :
    (P : Account → Type 0) (f : Account → Account) (ws id : ℕ) (old : Account) (xs : List Account)
    → AtMostOne (λ x. x.id == id) xs
    → find (is_row ws id) xs ≡ some old
    → (P old → P (f old))
    → All P xs
    → All P (change (is_row ws id) f xs)
All-change_found P f ws id old [] u e g h = tt
All-change_found P f ws id old (x ∷ xs) (v, u) e g (p, h) = elim (Bool-cases (is_row ws id x)) [
  | inl q ↦
      let same : x ≡ old = ground arith in
      rw q (rw same (g (rw (sym same) p)), untouched xs (v (ground arith)) h)
  | inr q ↦ rw q (p, All-change_found P f ws id old xs u (ground arith) g h)
]
  where
    untouched :
        (ys : List Account)
        → any (λ y. y.id == id) ys ≡ false
        → All P ys
        → All P (change (is_row ws id) f ys)
    untouched [] e h = tt
    untouched (y ∷ ys) e (p, h) =
        let off : is_row ws id y ≡ false = ground arith in rw off (p, untouched ys (ground arith) h)

pub use_tokens-IsSound : (now id : ℕ) (db : Db) → IsSound db → IsSound (use_tokens now id db)
unfolding use_tokens
use_tokens-IsSound now id db s = record { owners = s.owners; old = s.old; unique = s.unique }

module _ (ops : TextOps) (uni : UnicodeOps) where
  insert_user-IsSound :
      (ws : ℕ) (hash : String) (p : Profile) → Keeps IsSound (insert_user ops uni ws hash p)
  unfolding insert_user
  insert_user-IsSound ws hash p = record {
    after = λ db s. elim (Bool-cases (is_refused ops uni db.next_id p db)) [
      | inl e ↦ rw e s
      | inr e ↦ rw e (record {
        owners = All-append _ db.users _ s.owners (refl, tt);
        old =
            All-append _ db.users _ (All-mono _ _ db.users (λ x h. ground arith) s.old)
              (ground arith, tt);
        unique = λ id.
            AtMostOne-snoc _ db.users _
              (λ h.
                subst (λ n. any (λ x. x.id == n) db.users ≡ false) (eq_of_== db.next_id id h)
                  (any_new (λ (x : Account). x.id) db.next_id db.users s.old))
              (s.unique id);
      })
    ];
  }

  create_user-IsSound :
      (down : ℕ → Bool) (ws : ℕ) (hash : String) (p : Profile)
      → Keeps IsSound (create_user ops uni down ws hash p)
  unfolding create_user
  create_user-IsSound down ws hash p = search (request_rules, insert_user-IsSound) depth 12

  -- Nobody is changed where the name or the address is refused; else the row that was read.
  update_user-IsSound :
      (ws id : ℕ) (hash : String) (p : Profile) (old : Account) (db : Db)
      → IsSound db
      → find (is_row ws id) db.users ≡ some old
      → (not old.is_owner || is_admin_role p.role) ≡ true
      → Ends IsSound db (update_user ops uni ws id hash p)
  unfolding update_user
  update_user-IsSound ws id hash p old db s found guard =
      elim (Bool-cases (any (is_row ws id) db.users)) [
        | inl e ↦ elim (Bool-cases (is_refused ops uni id p db)) [
          | inl r ↦ record { after = rw (e, r) s }
          | inr r ↦ record {
            after =
                rw (e, r)
                  (record {
                    owners =
                        All-change_found _ (edited ops uni hash p) ws id old db.users (s.unique id)
                          found (λ _. guard) s.owners;
                    old =
                        All-change (λ (x : Account). x.id < db.next_id) (is_row ws id)
                          (edited ops uni hash p) db.users (λ x _ h. h) s.old;
                    unique = λ n.
                        AtMostOne-change _ (is_row ws id) (edited ops uni hash p) db.users
                          (λ x. refl) (s.unique n);
                  });
          }
        ]
        | inr e ↦ record { after = rw e s }
      ]

  change_user-IsSound :
      (down : ℕ → Bool) (u : User) (path : Parsed) (hash : String) (p : Profile)
      → Keeps IsSound (change_user ops uni down u path hash p)
  unfolding change_user
  change_user-IsSound down u path hash p = Keeps-of_Ends _ (λ db s. Ends-path_id db s path _ (λ id.
      Ends-query_row db s (down 0) _ _ (λ old found.
        Ends-require db s (not old.is_owner || is_admin_role p.role) _ _ _ (λ guard.
          Ends-require db s (not (id == u.id) || is_admin_role p.role) _ _ _ (λ _.
            Ends-available db s (down 1) _ (
              Ends-bind db _ _ (update_user-IsSound u.workspace_id id hash p old db s found guard)
                (λ _. search keeps_rules)))))))

  pub add_token-IsSound : (now id : ℕ) (digest : String) → Keeps IsSound (add_token now id digest)
  unfolding add_token
  add_token-IsSound now id digest = record {
    after = λ db s. elim (Bool-cases (any (λ t. str_eq t.token_digest digest) db.tokens)) [
      | inl e ↦ rw e s
      | inr e ↦ rw e (record { owners = s.owners; old = s.old; unique = s.unique })
    ];
  }

  pub answering-IsSound :
      {A : Type 0} (status : ℕ) (message : String) (m : Db → Result A × Db)
      → Keeps IsSound m
      → Keeps IsSound (answering status message m)
  answering-IsSound {A} status message m k = record {
    after = λ db s. renamed (m db) (k.after db s);
  }
    where
      renamed :
          (r : Result A × Db)
          → IsSound r.1
          → IsSound (answering status message (λ (_ : Db). r) r.1).1
      renamed (ok a, d) s = s
      renamed (problem c t, d) s = s

  notify-IsSound :
      (down : ℕ → Bool) (sent : Bool) (now : ℕ) (digest : String) (id : ℕ) (changed : Bool)
      → Keeps IsSound (notify down sent now digest id changed)
  unfolding notify send_new_verification
  notify-IsSound down sent now digest id changed =
      search (request_rules, use_tokens-IsSound, add_token-IsSound, answering-IsSound) depth 12

  store_user-IsSound :
      (down : ℕ → Bool) (u : User) (post : Bool) (path : Parsed) (hash : String) (p : Profile)
      → Keeps IsSound (store_user ops uni down u post path hash p)
  unfolding store_user
  store_user-IsSound down u post path hash p =
      search (request_rules, create_user-IsSound, change_user-IsSound) depth 12

  save_user-Keeps :
      (down : ℕ → Bool) (sent : Bool) (hash : String → Option String) (now : ℕ) (digest : String)
      (u : User) (post : Bool) (path : Parsed) (body : Body UserInput)
      → Keeps IsSound (save_user ops uni down sent hash now digest u post path body)
  unfolding save_user
  save_user-Keeps down sent hash now digest u post path body =
      search (request_rules, store_user-IsSound, notify-IsSound, IsSound-audit) depth 14

  -- Where every workspace owner is an administrator, ids are unique and below the next id, this
  -- holds after saving a user too, whoever asks, whatever is asked and whatever statements fail.
  pub save_user-IsSound :
      (down : ℕ → Bool) (sent : Bool) (hash : String → Option String) (now : ℕ) (digest : String)
      (u : User) (post : Bool) (path : Parsed) (body : Body UserInput) (db : Db)
      → IsSound db
      → IsSound (save_user ops uni down sent hash now digest u post path body db).1
  save_user-IsSound down sent hash now digest u post path body db s =
      (save_user-Keeps down sent hash now digest u post path body).after db s

remove_user-IsSound : (ws id : ℕ) (db : Db) → IsSound db → IsSound (remove_user ws id db)
unfolding remove_user
remove_user-IsSound ws id db s = record {
  owners = All-keep _ _ db.users s.owners;
  old = All-keep _ _ db.users s.old;
  unique = λ n. AtMostOne-keep _ _ db.users (s.unique n);
}

delete_rows-IsSound : (ws id : ℕ) → Keeps IsSound (delete_rows ws id)
unfolding delete_rows
delete_rows-IsSound ws id = record {
  after = λ db s. elim (Bool-cases (any (is_deleted ws id) db.users)) [
    | inl e ↦ rw e (remove_user-IsSound ws id db s)
    | inr e ↦ rw e s
  ];
}

delete_user-Keeps :
    (down : ℕ → Bool) (u : User) (path : Parsed) → Keeps IsSound (delete_user down u path)
unfolding delete_user
delete_user-Keeps down u path = search (request_rules, delete_rows-IsSound, IsSound-audit) depth 12

-- Where every workspace owner is an administrator, ids are unique and below the next id, this holds
-- after a request to delete a user too, whatever statements fail.
pub delete_user-IsSound :
    (down : ℕ → Bool) (u : User) (path : Parsed) (db : Db)
    → IsSound db
    → IsSound (delete_user down u path db).1
delete_user-IsSound down u path db s = (delete_user-Keeps down u path).after db s

module _ (x : Account) (own : x.is_owner ≡ true) where
  abbrev pub Present : Db → Type 0
  Present db = Memᴰ x db.users

  remove_user-Present : (ws id : ℕ) (db : Db) → Present db → Present (remove_user ws id db)
  unfolding remove_user
  remove_user-Present ws id db m = mem_of_keep _ db.users m (ground arith)

  delete_rows-Present : (ws id : ℕ) → Keeps Present (delete_rows ws id)
  unfolding delete_rows
  delete_rows-Present ws id = record {
    after = λ db s. elim (Bool-cases (any (is_deleted ws id) db.users)) [
      | inl e ↦ rw e (remove_user-Present ws id db s)
      | inr e ↦ rw e s
    ];
  }

  same_users : (e : AuditEntry) (db : Db) → Present db → Present (append_entry e db)
  same_users e db m = m

  delete_user-Present :
      (down : ℕ → Bool) (u : User) (path : Parsed) → Keeps Present (delete_user down u path)
  unfolding delete_user
  delete_user-Present down u path = search (request_rules, delete_rows-Present, same_users) depth 12

-- The row of a workspace owner is in the table, unchanged, after any request to delete a user,
-- whoever asks and whatever statements fail.
pub delete_user-owner :
    (down : ℕ → Bool) (u : User) (path : Parsed) (x : Account) (db : Db)
    → x.is_owner ≡ true
    → Memᴰ x db.users
    → Memᴰ x (delete_user down u path db).1.users
delete_user-owner down u path x db own there =
    (delete_user-Present x own down u path).after db there
