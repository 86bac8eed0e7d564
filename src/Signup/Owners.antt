-- ===== src/Signup/Owners.antt =====
-- Signing up and verifying an address keep the invariant of the users.
use netriun_nexus.Prelude.{
  any_new, AtMostOne-snoc, AtMostOne-change, ℕ, String, Bool, false, ◌≡◌, refl, ◌==◌, arith, any,
  str_eq, Bool-cases, inl, inr, All-append, All-mono, All-change, Keeps, Option, subst, eq_of_==,
}
use netriun_nexus.Store.{Account, admin, Workspace, Settings, Db}
use netriun_nexus.Text.{TextOps}
use netriun_nexus.Credentials.{UnicodeOps}
use netriun_nexus.Request.{Body, request_rules}
use netriun_nexus.Users.{is_refused}
use netriun_nexus.Users.Owners.{
  IsSound, IsSound-audit, use_tokens-IsSound, add_token-IsSound, answering-IsSound,
}
use netriun_nexus.Signup.{
  SignupInput, Fresh, verified, mark_verified, confirm, verify_email, insert_workspace,
  insert_owner, add_settings, open_workspace, signup,
}

mark_verified-IsSound : (now id : ℕ) (db : Db) → IsSound db → IsSound (mark_verified now id db)
unfolding mark_verified
mark_verified-IsSound now id db s = record {
  owners = All-change _ _ (verified now) db.users (λ x _ h. h) s.owners;
  old = All-change _ _ (verified now) db.users (λ x _ h. h) s.old;
  unique = λ n. AtMostOne-change _ _ (verified now) db.users (λ x. refl) (s.unique n);
}

confirm-IsSound :
    (down : ℕ → Bool) (now : ℕ) (digest : String) → Keeps IsSound (confirm down now digest)
unfolding confirm
confirm-IsSound down now digest =
    search (request_rules, mark_verified-IsSound, use_tokens-IsSound) depth 14

verify_email-Keeps :
    (ops : TextOps) (digest : String → String) (down : ℕ → Bool) (now : ℕ) (raw : String)
    → Keeps IsSound (verify_email ops digest down now raw)
unfolding verify_email
verify_email-Keeps ops digest down now raw =
    search (request_rules, confirm-IsSound, IsSound-audit) depth 14

-- Where every workspace owner is an administrator, ids are unique and below the next id, this holds
-- after an address is verified too, whatever statements fail.
pub verify_email-IsSound :
    (ops : TextOps) (digest : String → String) (down : ℕ → Bool) (now : ℕ) (raw : String) (db : Db)
    → IsSound db
    → IsSound (verify_email ops digest down now raw db).1
verify_email-IsSound ops digest down now raw db s =
    (verify_email-Keeps ops digest down now raw).after db s

module _ (ops : TextOps) (uni : UnicodeOps) (hash : String → Option String) where
  insert_workspace-IsSound :
      (name slug : String) → Keeps IsSound (insert_workspace ops uni hash name slug)
  unfolding insert_workspace
  insert_workspace-IsSound name slug = record {
    after = λ db s. elim (Bool-cases (any (λ (w : Workspace). str_eq w.slug slug) db.workspaces)) [
      | inl e ↦ rw e s
      | inr e ↦ rw e (record {
        owners = s.owners;
        old = All-mono _ _ db.users (λ x h. ground arith) s.old;
        unique = s.unique;
      })
    ];
  }

  insert_owner-IsSound :
      (ws : ℕ) (username email hashed : String)
      → Keeps IsSound (insert_owner ops uni hash ws username email hashed)
  unfolding insert_owner
  insert_owner-IsSound ws username email hashed = record {
    after = λ db s.
        elim (Bool-cases (
          is_refused ops uni db.next_id
            (record { username = username; email = email; role = admin }) db)) [
              | inl e ↦ rw e s
              | inr e ↦ rw e (record {
                owners = All-append _ db.users _ s.owners (refl, tt);
                old =
                    All-append _ db.users _ (All-mono _ _ db.users (λ x h. ground arith) s.old)
                      (ground arith, tt);
                unique = λ id.
                    AtMostOne-snoc _ db.users _
                      (λ h.
                        subst (λ n. any (λ x. x.id == n) db.users ≡ false)
                          (eq_of_== db.next_id id h)
                          (any_new (λ (x : Account). x.id) db.next_id db.users s.old))
                      (s.unique id);
              })
            ];
  }

  add_settings-IsSound : (ws : ℕ) → Keeps IsSound (add_settings ws)
  unfolding add_settings
  add_settings-IsSound ws = record {
    after = λ db s. elim (Bool-cases (any (λ (x : Settings). x.workspace_id == ws) db.settings)) [
      | inl e ↦ rw e s
      | inr e ↦ rw e (record { owners = s.owners; old = s.old; unique = s.unique })
    ];
  }

  open_workspace-IsSound :
      (down : ℕ → Bool) (now : ℕ) (fresh : Fresh) (workspace username email hashed : String)
      → Keeps IsSound (open_workspace ops uni hash down now fresh workspace username email hashed)
  unfolding open_workspace
  open_workspace-IsSound down now fresh workspace username email hashed =
      search
        (
          request_rules, insert_workspace-IsSound, insert_owner-IsSound, add_settings-IsSound,
          add_token-IsSound,
        )
        depth 16

  signup-Keeps :
      (down : ℕ → Bool) (sent : Bool) (now : ℕ) (fresh : Fresh) (body : Body SignupInput)
      → Keeps IsSound (signup ops uni hash down sent now fresh body)
  unfolding signup
  signup-Keeps down sent now fresh body =
      search (request_rules, open_workspace-IsSound, answering-IsSound, IsSound-audit) depth 16

  -- Where every workspace owner is an administrator, ids are unique and below the next id, this
  -- holds after somebody signs up too, whatever is asked and whatever statements fail.
  pub signup-IsSound :
      (down : ℕ → Bool) (sent : Bool) (now : ℕ) (fresh : Fresh) (body : Body SignupInput) (db : Db)
      → IsSound db
      → IsSound (signup ops uni hash down sent now fresh body db).1
  signup-IsSound down sent now fresh body db s = (signup-Keeps down sent now fresh body).after db s
