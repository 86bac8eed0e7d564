-- ===== src/Sessions/Login.antt =====
-- Whom `login` lets in, and how often it is asked.
use netriun_nexus.Prelude.{
  ℕ, String, Bool, true, false, not, ◌≡◌, ◌≢◌, ◌⊎◌, inl, inr, sym, ap, ◌∙◌, subst, any, find,
  mem_of_find, find_passes, Option-cases, Bool-cases, eq_of_==, eq_of_str_eq, ◌==◌, refl, ◌&&◌,
  arith, Option, some, none, Result, ok, str_eq, str_eq_refl, pure, ==_refl, require,
  require_passed, ◌>>=◌, ◌>>◌,
}
use mathlib.Core.List.{Memᴰ}
use netriun_nexus.Store.{Db, User, Account, Workspace}
use netriun_nexus.Credentials.Laws.{normalize_email_iff}
use netriun_nexus.Text.{TextOps}
use netriun_nexus.Credentials.{UnicodeOps, normalize_email}
use netriun_nexus.Request.{json}
use netriun_nexus.Sessions.{
  Web, Found, LoginInput, user_with_id, authenticate, start_session, candidate, user_with_email,
  found_row, user_row, checked, sign_in, establish_session,
}

module _ (ops : TextOps) (uni : UnicodeOps) (digest : String → String)
    (compare_hash : (hash password : String) → Bool) where
  -- What holds of a user whom a request signs in, by the rows of the tables.
  pub record Admitted (inp : LoginInput) (db : Db) (u : User) : Type 0 where
    pub account : Account
    pub workspace : Workspace
    pub is_account : Memᴰ account db.users
    pub is_workspace : Memᴰ workspace db.workspaces
    pub member : workspace.id ≡ account.workspace_id
    pub address : uni.sql_lower account.email ≡ ops.to_lower (ops.trim_space inp.email)
    pub password : compare_hash account.password_hash inp.password ≡ true
    pub verified : account.email_verified_at ≢ none
    pub allowed : (workspace.sso_required ≡ false) ⊎ (account.is_owner ≡ true)
    pub user_id : u.id ≡ account.id
    pub user_workspace : u.workspace_id ≡ account.workspace_id
    pub user_role : u.role ≡ account.role
    pub user_owner : u.is_owner ≡ account.is_owner
    pub user_version : u.version ≡ account.session_version

  -- Where a row of the query comes from.
  record FoundBy (address : String) (db : Db) (f : Found) : Type 0 where
    account : Account
    workspace : Workspace
    is_account : Memᴰ account db.users
    is_workspace : Memᴰ workspace db.workspaces
    member : workspace.id ≡ account.workspace_id
    at : uni.sql_lower account.email ≡ address
    hash : f.password_hash ≡ account.password_hash
    verified : f.verified ≡ true → account.email_verified_at ≢ none
    sso : f.sso_required ≡ workspace.sso_required
    user : f.signed ≡ record {
      id = account.id;
      workspace_id = account.workspace_id;
      name = account.username;
      role = account.role;
      is_owner = account.is_owner;
      version = account.session_version;
    }

  abbrev user_of : Account → User
  user_of x = record {
    id = x.id;
    workspace_id = x.workspace_id;
    name = x.username;
    role = x.role;
    is_owner = x.is_owner;
    version = x.session_version;
  }

  abbrev found_of : Account → Workspace → Found
  found_of x w = record {
    signed = user_of x;
    password_hash = x.password_hash;
    verified = elim x.email_verified_at [ none ↦ false | some _ ↦ true ];
    sso_required = w.sso_required;
  }

  known : (o : Option ℕ) → (elim o [ none ↦ false | some _ ↦ true ]) ≡ true → o ≢ none
  known none h e = ground arith
  known (some t) h e = ground arith

  row-FoundBy :
      (address : String) (db : Db) (x : Account) (f : Found)
      → Memᴰ x db.users
      → str_eq (uni.sql_lower x.email) address ≡ true
      → found_row ops uni digest compare_hash x db ≡ some f
      → FoundBy address db f
  row-FoundBy address db x f m e h =
      elim (Option-cases (find (λ (w : Workspace). w.id == x.workspace_id) db.workspaces)) [
        | inl none_found ↦
            let absent : none ≡ some f = rw (found_row, none_found) at h in ground arith
        | inr (w, found) ↦
            elim (Bool-cases (any (λ (w : Workspace). w.id == x.workspace_id) db.workspaces)) [
              | inl k ↦
                  let row : some (found_of x w) ≡ some f =
                    rw (found_row, found, user_row, k) at h in
                  let same : found_of x w ≡ f = ground arith in
                  subst (FoundBy address db) same (record {
                    account = x;
                    workspace = w;
                    is_account = m;
                    is_workspace = mem_of_find _ db.workspaces w found;
                    member = eq_of_== w.id x.workspace_id (find_passes _ db.workspaces w found);
                    at = eq_of_str_eq (uni.sql_lower x.email) address e;
                    hash = refl;
                    verified = known x.email_verified_at;
                    sso = refl;
                    user = refl;
                  })
              | inr k ↦
                  let absent : none ≡ some f = rw (found_row, found, user_row, k) at h in
                  ground arith
            ]
      ]

  address-FoundBy :
      (address : String) (db : Db) (f : Found)
      → user_with_email ops uni digest compare_hash address db ≡ some f
      → FoundBy address db f
  unfolding user_with_email
  address-FoundBy address db f h =
      elim (Option-cases
        (find (λ (x : Account). str_eq (uni.sql_lower x.email) address) db.users)) [
          | inl e ↦ let absent : none ≡ some f = rw (user_with_email, e) at h in ground arith
          | inr (x, e) ↦
              row-FoundBy address db x f (mem_of_find _ db.users x e) (find_passes _ db.users x e)
                (rw (user_with_email, e) at h)
        ]

  candidate-FoundBy :
      (db_down : Bool) (raw : String) (db : Db) (f : Found) (o : Option String)
      → normalize_email ops uni raw ≡ o
      → candidate ops uni digest compare_hash db_down raw db ≡ some f
      → FoundBy (ops.to_lower (ops.trim_space raw)) db f
  candidate-FoundBy db_down raw db f none e h =
      let absent : none ≡ some f = rw (candidate, e) at h in ground arith
  candidate-FoundBy true raw db f (some email) e h =
      let absent : none ≡ some f = rw (candidate, e) at h in ground arith
  candidate-FoundBy false raw db f (some email) e h =
      let k = (normalize_email_iff ops uni raw email).0 e in
      subst (λ t. FoundBy t db f) k.normal (address-FoundBy email db f (rw (candidate, e) at h))

  free_login :
      (sso owner required is_owner : Bool)
      → sso ≡ required
      → owner ≡ is_owner
      → not (sso && not owner) ≡ true
      → (required ≡ false) ⊎ (is_owner ≡ true)
  free_login false owner required is_owner e k h = inl (sym e)
  free_login true true required is_owner e k h = inr (sym k)
  free_login true false required is_owner e k h = ground arith

  started :
      (redis_down db_down : Bool) (key action : String) (u v : User) (web : Web)
      → (start_session redis_down db_down key u action web).0 ≡ ok v
      → u ≡ v
  unfolding start_session establish_session
  started true db_down key action u v web h = ground arith
  started false db_down key action u v web h = ground arith

  abbrev after_password : (down : ℕ → Bool) (token : String) → Found → Web → Result User × Web
  after_password down token f =
      require f.verified 403 "Verify your email before signing in"
      >> (require (not (f.sso_required && not f.signed.is_owner)) 403
            "This workspace requires SSO; use its identity provider to sign in"
          >> start_session (down 2) (down 3) (digest token) f.signed "auth.login")

  matched :
      (down : ℕ → Bool) (token : String) (inp : LoginInput) (web : Web) (u : User) (f : Found)
      (b : Bool)
      → candidate ops uni digest compare_hash (down 1) inp.email web.db ≡ some f
      → compare_hash f.password_hash inp.password ≡ b
      → (((require b 401 "Invalid email or password" >> pure f) >>= after_password down token)
          web).0
        ≡ ok u
      → Admitted inp web.db u
  matched down token inp web u f false e right h = ground arith
  matched down token inp web u f true e right h =
      let (verified, h1) = require_passed f.verified _ _ _ web u h in
      let (free, h2) =
        require_passed (not (f.sso_required && not f.signed.is_owner)) _ _ _ web u h1 in
      let row = candidate-FoundBy (down 1) inp.email web.db f _ refl e in
      let same = started (down 2) (down 3) (digest token) "auth.login" f.signed u web h2 in
      let who : user_of row.account ≡ u = sym row.user ∙ same in
      record {
        account = row.account;
        workspace = row.workspace;
        is_account = row.is_account;
        is_workspace = row.is_workspace;
        member = row.member;
        address = row.at;
        password = rw row.hash at right;
        verified = row.verified verified;
        allowed =
            free_login f.sso_required f.signed.is_owner row.workspace.sso_required
              row.account.is_owner row.sso (ap (λ v. v.is_owner) row.user) free;
        user_id = ap (λ v. v.id) (sym who);
        user_workspace = ap (λ v. v.workspace_id) (sym who);
        user_role = ap (λ v. v.role) (sym who);
        user_owner = ap (λ v. v.is_owner) (sym who);
        user_version = ap (λ v. v.version) (sym who);
      }

  admitted :
      (down : ℕ → Bool) (token : String) (inp : LoginInput) (web : Web) (u : User)
      (o : Option Found)
      → candidate ops uni digest compare_hash (down 1) inp.email web.db ≡ o
      → ((checked ops uni digest compare_hash o inp.password >>= after_password down token) web).0
        ≡ ok u
      → Admitted inp web.db u
  admitted down token inp web u none e h = ground arith
  admitted down token inp web u (some f) e h = matched down token inp web u f _ e refl h

  -- A login that is answered with a user is of an account in the table with the request's address,
  -- trimmed and in lower case, whose hash the password matches, whose address is verified, and which
  -- owns its workspace where that requires single sign-on; the user of the answer is that account.
  pub sign_in-Admitted :
      (down : ℕ → Bool) (token : String) (inp : LoginInput) (web : Web) (u : User)
      → (sign_in ops uni digest compare_hash down token (json inp) web).0 ≡ ok u
      → Admitted inp web.db u
  unfolding sign_in
  sign_in-Admitted down token inp web u h = admitted down token inp web u _ refl h

-- A session that was just opened opens the API to its user, in the user's current version, where
-- Redis and the database answer.
pub start_session-authenticate :
    (digest : String → String) (token action : String) (down : Bool) (u : User) (web : Web)
    → str_eq token "" ≡ false
    → user_with_id u.id web.db ≡ some u
    → authenticate digest false false
        (record { bearer = some token; cookie = none; legacy_cookie = none })
        (start_session false down (digest token) u action web).1
      ≡ ok u
unfolding start_session establish_session authenticate user_with_id
start_session-authenticate digest token action true u web given known =
    rw (given, str_eq_refl (digest token), known, ==_refl u.version) refl
start_session-authenticate digest token action false u web given known =
    rw (given, str_eq_refl (digest token), known, ==_refl u.version) refl
