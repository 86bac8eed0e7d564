-- ===== src/Sso/Signed.antt =====
-- What a login that succeeds has done, and what one that fails leaves.
use netriun_nexus.Prelude.{
  ℕ, String, Bool, ◌≡◌, refl, ap, sym, ◌∙◌, subst, List, arith, Option, some, none, Result, ok,
  Keeps, ◌>>◌, ◌>>=◌, transaction, transaction_ok, bind_ok, map, keep, drop_where,
}
use netriun_nexus.Store.{ExternalIdentity, IdentityProvider, User, Db}
use netriun_nexus.Text.{TextOps}
use netriun_nexus.Credentials.{UnicodeOps}
use netriun_nexus.Users.{Profile}
use netriun_nexus.Request.{available, available-reads, request_rules}
use netriun_nexus.Sso.Names.{NameOps}
use netriun_nexus.Sso.Links.{
  SsoIdentity, insert_sso_user, provision, or_provisioned, or_linked, insert_identity, new_link,
  find_or_link, touch_identity,
}
use netriun_nexus.Sso.Grants.{sync_grants, grant_of, is_mapped, is_granted}
use netriun_nexus.Sso.Synced.{Rewritten, sync_grants-Rewritten}
use netriun_nexus.Sso.Login.{settle, signed_user}

from_before :
    (ws provider uid : ℕ) (groups : List String) (before db after : Db)
    → before.group_mappings ≡ db.group_mappings
    → before.sso_grants ≡ db.sso_grants
    → Rewritten ws provider uid groups before after
    → Rewritten ws provider uid groups db after
from_before ws provider uid groups before db after m g s = record {
  exact = s.exact ∙ ap (λ x. map (grant_of uid) (keep (is_mapped ws provider groups) x)) m;
  others = s.others ∙ ap (drop_where (is_granted provider uid)) g;
}

module _ (text : TextOps) (uni : UnicodeOps) (names : NameOps) where
  -- The first part of a login does not touch mappings and grants.
  abbrev Untouched : Db → Db → Type 0
  Untouched db s = (s.group_mappings ≡ db.group_mappings) × (s.sso_grants ≡ db.sso_grants)

  module _ (db : Db) where
    insert_sso_user-Untouched :
        (now ws : ℕ) (hash : String) (p : Profile)
        → Keeps (Untouched db) (insert_sso_user text uni names now ws hash p)
    unfolding insert_sso_user
    insert_sso_user-Untouched now ws hash p = record { after = λ s h. ground arith }

    insert_identity-Untouched :
        (e : ExternalIdentity) → Keeps (Untouched db) (insert_identity text uni names e)
    unfolding insert_identity
    insert_identity-Untouched e = record { after = λ s h. ground arith }

  module _ (down free : ℕ → Bool) (now : ℕ) (hash : Option String) (p : IdentityProvider)
      (identity : SsoIdentity) where
    or_provisioned-Untouched :
        (found : Option User) (db : Db)
        → Keeps (Untouched db) (or_provisioned text uni names down free now hash p identity found)
    unfolding or_provisioned provision
    or_provisioned-Untouched (some u) db = search request_rules
    or_provisioned-Untouched none db = search (request_rules, insert_sso_user-Untouched) depth 16

    or_linked-Untouched :
        (linked : Option User) (db : Db)
        → Keeps (Untouched db) (or_linked text uni names down free now hash p identity linked)
    unfolding or_linked new_link
    or_linked-Untouched (some u) db = search request_rules
    or_linked-Untouched none db =
        search (request_rules, or_provisioned-Untouched, insert_identity-Untouched) depth 16

    find_or_link-Untouched :
        (db : Db) → Keeps (Untouched db) (find_or_link text uni names down free now hash p identity)
    unfolding find_or_link
    find_or_link-Untouched db = search (request_rules, or_linked-Untouched)

    pub settle_ok :
        (u v : User) (db : Db)
        → (settle down p identity u db).0 ≡ ok v
        → (v ≡ u)
          × ((sync_grants down p.workspace_id p.id u.id identity.groups
                (touch_identity p.id identity db)).0
              ≡ ok tt)
          × ((settle down p identity u db).1
              ≡ (sync_grants down p.workspace_id p.id u.id identity.groups
                  (touch_identity p.id identity db)).1)
    unfolding settle
    settle_ok u v db h = ground arith

    pub signed_user_ok :
        (v : User) (db : Db)
        → (signed_user text uni names down free now hash p identity db).0 ≡ ok v
        → (u : User) × ((find_or_link text uni names down free now hash p identity db).0 ≡ ok u)
          × ((settle down p identity u
                (find_or_link text uni names down free now hash p identity db).1).0
              ≡ ok v)
          × ((signed_user text uni names down free now hash p identity db).1
              ≡ (settle down p identity u
                  (find_or_link text uni names down free now hash p identity db).1).1)
    unfolding signed_user
    signed_user_ok v db h =
        let (k, e) = transaction_ok body db v h in
        let (_, _, k', e') = bind_ok (available (down 0)) (λ _. rest) db v k in
        let (u, a, b, e'') = bind_ok first (settle down p identity) _ v k' in
        let (a', b', f) = subst (Passed u) (available-reads (down 0) db) (a, b, e ∙ e' ∙ e'') in
        (u, a', b', f)
      where
        first : Db → Result User × Db
        first = find_or_link text uni names down free now hash p identity

        rest : Db → Result User × Db
        rest = first >>= settle down p identity

        body : Db → Result User × Db
        body = available (down 0) >> rest

        Passed : User → Db → Type 0
        Passed u s =
            ((first s).0 ≡ ok u)
            × ((settle down p identity u (first s).1).0 ≡ ok v)
            × ((transaction body db).1 ≡ (settle down p identity u (first s).1).1)

    abbrev linked : Db → Db
    linked s = (find_or_link text uni names down free now hash p identity s).1

    abbrev synced : User → Db → Db
    synced u s =
        (sync_grants down p.workspace_id p.id u.id identity.groups
          (touch_identity p.id identity (linked s))).1

    pub signed_user-Rewritten :
        (v : User) (db : Db)
        → (signed_user text uni names down free now hash p identity db).0 ≡ ok v
        → Rewritten p.workspace_id p.id v.id identity.groups db
            (signed_user text uni names down free now hash p identity db).1
    unfolding touch_identity
    signed_user-Rewritten v db h =
        let (u, found, settled, e) = signed_user_ok v db h in
        let (same, done, f) = settle_ok u v _ settled in
        let (mappings, grants) = (find_or_link-Untouched db).after db (refl, refl) in
        subst (Rewritten p.workspace_id p.id v.id identity.groups db) (sym (e ∙ f)) (
          from_before p.workspace_id p.id v.id identity.groups
            (touch_identity p.id identity (linked db)) db (synced u db) mappings grants
            (subst
              (λ (w : User).
                Rewritten p.workspace_id p.id w.id identity.groups
                  (touch_identity p.id identity (linked db)) (synced u db))
              (sym same)
              (sync_grants-Rewritten p.workspace_id p.id u.id down identity.groups _ done)))
