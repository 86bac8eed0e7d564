-- ===== src/Sso/Stable.antt =====
-- The subject of an identity provider stays the same user.
use netriun_nexus.Prelude.{
  ℕ, String, Bool, false, ◌≡◌, refl, ap, sym, ◌∙◌, subst, List, ◌==◌, arith, any, any_mono,
  false_of_not, &&_intro, ==_refl, str_eq, str_eq_refl, ◌&&◌, ◌||◌, find, find_passes, find-change,
  find-append_new, find-append_found, Bool-cases, Option-cases, inl, inr, Option, some, none,
  Result, ok, Keeps, ◌>>◌, ◌>>=◌, bind_ok, ◌++◌, ◌∷◌, [], pure,
}
use netriun_nexus.Store.{ExternalIdentity, IdentityProvider, User, Account, Db}
use netriun_nexus.Text.{TextOps}
use netriun_nexus.Credentials.{UnicodeOps}
use netriun_nexus.Users.{Profile}
use netriun_nexus.Sessions.{Web, user_with_id}
use netriun_nexus.Request.{request_rules, available, query_ok, available_ok}
use netriun_nexus.Sso.Names.{NameOps}
use netriun_nexus.Sso.Links.{
  SsoIdentity, is_identity, linked_user, is_refused_identity, insert_sso_user, provision,
  insert_identity, new_identity, new_link, or_linked, or_provisioned, find_or_link, user_by_email,
  touch_identity,
}
use netriun_nexus.Sso.Grants.{sync_grants, drop_user_grants, insert_grants}
use netriun_nexus.Sso.Login.{settle, signed_user, trimmed_identity, finish_sso}
use netriun_nexus.Sso.Signed.{signed_user_ok, settle_ok}
use netriun_nexus.Sso.Finished.{Finished, finish_sso_ok}

-- The subject is linked to the user of that id.
pub record LinkedTo (provider : ℕ) (subject : String) (uid : ℕ) (rows : List ExternalIdentity)
    : Type 0 where
  pub row : ExternalIdentity
  pub found : find (is_identity provider subject) rows ≡ some row
  pub same : row.user_id ≡ uid

user_with_id-id : (id : ℕ) (u : User) (db : Db) → user_with_id id db ≡ some u → u.id ≡ id
unfolding user_with_id
user_with_id-id id u db h = elim (Option-cases (find (λ (x : Account). x.id == id) db.users)) [
  | inl e ↦ ground arith
  | inr (x, e) ↦ let same = find_passes (λ (x : Account). x.id == id) db.users x e in ground arith
]

linked_user-LinkedTo :
    (provider : ℕ) (subject : String) (u : User) (db : Db)
    → linked_user provider subject db ≡ some u
    → LinkedTo provider subject u.id db.external_identities
unfolding linked_user
linked_user-LinkedTo provider subject u db h =
    elim (Option-cases (find (is_identity provider subject) db.external_identities)) [
      | inl e ↦ ground arith
      | inr (x, e) ↦ record {
        row = x;
        found = e;
        same = sym (user_with_id-id x.user_id u db (ground arith));
      }
    ]

touch-LinkedTo :
    (provider uid : ℕ) (identity : SsoIdentity) (db : Db)
    → LinkedTo provider identity.subject uid db.external_identities
    → LinkedTo provider identity.subject uid
        (touch_identity provider identity db).external_identities
unfolding touch_identity
touch-LinkedTo provider uid identity db l = record {
  row = record l.row { email = identity.email };
  found =
      find-change (is_identity provider identity.subject) _ db.external_identities l.row (λ e. refl)
        l.found;
  same = l.same;
}

sync_grants-Keeps :
    (rows : List ExternalIdentity) (down : ℕ → Bool) (ws provider uid : ℕ) (groups : List String)
    → Keeps (λ (s : Db). s.external_identities ≡ rows) (sync_grants down ws provider uid groups)
unfolding sync_grants drop_user_grants insert_grants
sync_grants-Keeps rows down ws provider uid groups = record { after = λ s h. ground arith }

module _ (text : TextOps) (uni : UnicodeOps) (names : NameOps) where
  insert_identity-LinkedTo :
      (e : ExternalIdentity) (db : Db)
      → (insert_identity text uni names e db).0 ≡ ok tt
      → LinkedTo e.provider_id e.subject e.user_id
          (insert_identity text uni names e db).1.external_identities
  unfolding insert_identity
  insert_identity-LinkedTo e db h = record { row = e; found = written; same = refl }
    where
      clear :
          any
            (λ (x : ExternalIdentity).
              x.provider_id == e.provider_id
              && (str_eq x.subject e.subject || x.user_id == e.user_id))
            db.external_identities
          ≡ false
      clear = ground arith

      new : any (is_identity e.provider_id e.subject) db.external_identities ≡ false
      new = false_of_not (λ k. any_mono _ _ db.external_identities (λ x q. ground arith) k) clear

      rows :
          (insert_identity text uni names e db).1.external_identities
          ≡ db.external_identities ++ e ∷ []
      rows = ground arith

      written :
          find
            (is_identity e.provider_id e.subject)
            (insert_identity text uni names e db).1.external_identities
          ≡ some e
      written =
          ap (find (is_identity e.provider_id e.subject)) rows
          ∙ find-append_new (is_identity e.provider_id e.subject) db.external_identities e new
              (&&_intro _ _ (==_refl e.provider_id) (str_eq_refl e.subject))

  module _ (down free : ℕ → Bool) (now : ℕ) (hash : Option String) (p : IdentityProvider)
      (identity : SsoIdentity) where
    abbrev Linked : User → Result User × Db → Type 0
    Linked u r = LinkedTo p.id identity.subject u.id r.1.external_identities

    new_link-LinkedTo :
        (u : User) (db : Db)
        → (new_link text uni names down free now hash p identity db).0 ≡ ok u
        → Linked u (new_link text uni names down free now hash p identity db)
    unfolding new_link
    new_link-LinkedTo u db h =
        let (h1, e1) =
          query_ok (down 2) (user_by_email text uni names p.workspace_id identity.email) rest db u
            h in
        let (v, _, h2, e2) = bind_ok (provisioned db) link db u h1 in
        let (h3, e3) = available_ok (down 6) (written v) (after db) u h2 in
        let (_, h4, h5, e5) = bind_ok (insert v) (λ _. pure v) (after db) u h3 in
        let same : v ≡ u = ground arith in
        subst (λ s. LinkedTo p.id identity.subject u.id s.external_identities)
          (sym (e1 ∙ e2 ∙ e3 ∙ e5))
          (subst
            (λ (w : User).
              LinkedTo p.id identity.subject w.id (insert v (after db)).1.external_identities)
            same
            (insert_identity-LinkedTo (new_identity text uni names p identity v) (after db) h4))
      where
        found : Db → Option User
        found s = user_by_email text uni names p.workspace_id identity.email s

        provisioned : Db → Db → Result User × Db
        provisioned s = or_provisioned text uni names down free now hash p identity (found s)

        after : Db → Db
        after s = (provisioned s s).1

        insert : User → Db → Result (Unit {0}) × Db
        insert v = insert_identity text uni names (new_identity text uni names p identity v)

        written : User → Db → Result User × Db
        written v = insert v >> pure v

        link : User → Db → Result User × Db
        link v = available (down 6) >> written v

        rest : Option User → Db → Result User × Db
        rest o = or_provisioned text uni names down free now hash p identity o >>= link

    find_or_link-LinkedTo :
        (u : User) (db : Db)
        → (find_or_link text uni names down free now hash p identity db).0 ≡ ok u
        → Linked u (find_or_link text uni names down free now hash p identity db)
    unfolding find_or_link or_linked
    find_or_link-LinkedTo u db h =
        let (h', e) =
          query_ok (down 1) (linked_user p.id identity.subject)
            (or_linked text uni names down free now hash p identity) db u h in
        subst (λ s. LinkedTo p.id identity.subject u.id s.external_identities) (sym e)
          (chosen (linked_user p.id identity.subject db) refl h')
      where
        chosen :
            (l : Option User)
            → linked_user p.id identity.subject db ≡ l
            → (or_linked text uni names down free now hash p identity l db).0 ≡ ok u
            → Linked u (or_linked text uni names down free now hash p identity l db)
        chosen (some v) q k = linked_user-LinkedTo p.id identity.subject u db (ground arith)
        chosen none q k = new_link-LinkedTo u db k

    settled-LinkedTo :
        (uid : ℕ) (u v : User) (db : Db)
        → (settle down p identity u db).0 ≡ ok v
        → LinkedTo p.id identity.subject uid db.external_identities
        → LinkedTo p.id identity.subject uid (settle down p identity u db).1.external_identities
    settled-LinkedTo uid u v db h l =
        let (same, done, f) = settle_ok text uni names down free now hash p identity u v db h in
        let touched = touch-LinkedTo p.id uid identity db l in
        let kept =
          (sync_grants-Keeps (touch_identity p.id identity db).external_identities down
              p.workspace_id p.id u.id identity.groups).after
            (touch_identity p.id identity db) refl in
        subst (LinkedTo p.id identity.subject uid)
          (sym (ap (λ (s : Db). s.external_identities) f ∙ kept)) touched

    module _ (uid : ℕ) where
      abbrev StillLinked : Db → Type 0
      StillLinked db = LinkedTo p.id identity.subject uid db.external_identities

      insert_sso_user-Keeps :
          (ws : ℕ) (text_hash : String) (q : Profile)
          → Keeps StillLinked (insert_sso_user text uni names now ws text_hash q)
      unfolding insert_sso_user
      insert_sso_user-Keeps ws text_hash q = record { after = λ s h. ground arith }

      insert_identity-Keeps :
          (e : ExternalIdentity) → Keeps StillLinked (insert_identity text uni names e)
      unfolding insert_identity
      insert_identity-Keeps e = record {
        after = λ db l. elim (Bool-cases (is_refused_identity text uni names e db)) [
          | inl q ↦ rw q l
          | inr q ↦ rw q (record {
            row = l.row;
            found =
                find-append_found (is_identity p.id identity.subject) db.external_identities _ l.row
                  l.found;
            same = l.same;
          })
        ];
      }

      or_provisioned-Keeps :
          (found : Option User)
          → Keeps StillLinked (or_provisioned text uni names down free now hash p identity found)
      unfolding or_provisioned provision
      or_provisioned-Keeps (some u) = search request_rules
      or_provisioned-Keeps none = search (request_rules, insert_sso_user-Keeps) depth 16

      or_linked-Keeps :
          (found : Option User)
          → Keeps StillLinked (or_linked text uni names down free now hash p identity found)
      unfolding or_linked new_link
      or_linked-Keeps (some u) = search request_rules
      or_linked-Keeps none =
          search (request_rules, or_provisioned-Keeps, insert_identity-Keeps) depth 16

      find_or_link-Keeps :
          Keeps StillLinked (find_or_link text uni names down free now hash p identity)
      unfolding find_or_link
      find_or_link-Keeps = search (request_rules, or_linked-Keeps)

    pub signed_user-LinkedTo :
        (v : User) (db : Db)
        → (signed_user text uni names down free now hash p identity db).0 ≡ ok v
        → Linked v (signed_user text uni names down free now hash p identity db)
    signed_user-LinkedTo v db h =
        let (u, found, settled, e) =
          signed_user_ok text uni names down free now hash p identity v db h in
        let (same, _, _) = settle_ok text uni names down free now hash p identity u v _ settled in
        subst (λ s. LinkedTo p.id identity.subject v.id s.external_identities) (sym e)
          (subst
            (λ (w : User).
              LinkedTo p.id identity.subject w.id
                (settle down p identity u (linked db)).1.external_identities)
            (sym same) (settled-LinkedTo u.id u v _ settled (find_or_link-LinkedTo u db found)))
      where
        linked : Db → Db
        linked s = (find_or_link text uni names down free now hash p identity s).1

    pub signed_user-still :
        (v : User) (db : Db) (uid : ℕ)
        → (signed_user text uni names down free now hash p identity db).0 ≡ ok v
        → LinkedTo p.id identity.subject uid db.external_identities
        → LinkedTo p.id identity.subject uid
            (signed_user text uni names down free now hash p identity db).1.external_identities
    signed_user-still v db uid h l =
        let (u, found, settled, e) =
          signed_user_ok text uni names down free now hash p identity v db h in
        subst (λ s. LinkedTo p.id identity.subject uid s.external_identities) (sym e)
          (settled-LinkedTo uid u v _ settled ((find_or_link-Keeps uid).after db l))

pub one_user :
    {provider : ℕ} {subject : String} {a b : ℕ} {rows : List ExternalIdentity}
    → LinkedTo provider subject a rows
    → LinkedTo provider subject b rows
    → a ≡ b
one_user l m = ground (arith, l.found, l.same, m.found, m.same)

module _ (text : TextOps) (uni : UnicodeOps) (names : NameOps) (p : IdentityProvider) where
  -- One login with everything that the database, Redis and bcrypt answer during it.
  pub record Attempt : Type 0 where
    pub down : ℕ → Bool
    pub free : ℕ → Bool
    pub now : ℕ
    pub hash : Option String
    pub key : String
    pub identity : SsoIdentity

  abbrev pub attempted : Attempt → Web → Result User × Web
  attempted a = finish_sso text uni names a.down a.free a.now a.hash a.key p a.identity

  abbrev subject_of : Attempt → String
  subject_of a = (trimmed_identity text uni names a.identity).subject

  finished :
      (a : Attempt) (u : User) (web : Web)
      → (attempted a web).0 ≡ ok u
      → Finished text uni names a.down a.free a.now a.hash p a.identity u web (attempted a web).1
  finished a u web h =
      finish_sso_ok text uni names a.down a.free a.now a.hash p a.key a.identity u web h

  -- Two logins of one subject that succeed, one after the other, sign in the same user, whatever
  -- address, name and groups the provider sends with it.
  pub finish_sso-stable :
      (a b : Attempt) (u v : User) (web : Web)
      → subject_of a ≡ subject_of b
      → (attempted a web).0 ≡ ok u
      → (attempted b (attempted a web).1).0 ≡ ok v
      → v.id ≡ u.id
  finish_sso-stable a b u v web same h k =
      let f = finished a u web h in
      let g = finished b v (attempted a web).1 k in
      let first =
        signed_user-LinkedTo text uni names a.down a.free a.now a.hash p
          (trimmed_identity text uni names a.identity) u web.db f.stored.signed in
      let between : LinkedTo p.id (subject_of b) u.id (attempted a web).1.db.external_identities =
        subst (λ s. LinkedTo p.id s u.id (attempted a web).1.db.external_identities) same
          (subst (LinkedTo p.id (subject_of a) u.id) (sym f.stored.identities) first) in
      one_user
        (signed_user-LinkedTo text uni names b.down b.free b.now b.hash p
          (trimmed_identity text uni names b.identity) v (attempted a web).1.db g.stored.signed)
        (signed_user-still text uni names b.down b.free b.now b.hash p
          (trimmed_identity text uni names b.identity) v (attempted a web).1.db u.id g.stored.signed
          between)
