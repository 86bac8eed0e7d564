-- ===== src/Sso/Synced.antt =====
-- After a login the user holds, by this provider, exactly the memberships that the mappings give the
-- groups of the identity.
use mathlib.Core.List.{append-nil}
use netriun_nexus.Prelude.{
  ℕ, String, Bool, true, false, ◌≡◌, refl, ap, sym, ◌∙◌, List, [], ◌∷◌, ◌++◌, arith, keep,
  drop_where, ok, All, All-map, All-mono, All-keep_test, keep-append, keep-All, drop-All, keep-drop,
  drop_twice,
}
use netriun_nexus.Store.{SsoGrant, GroupMapping, Db}
use netriun_nexus.Sso.Grants.{
  is_granted, is_mapped, grant_of, mapped_grants, drop_user_grants, insert_grants, sync_grants,
}

-- The grants of the user by the provider are those of the mappings of these groups, and the other
-- grants are as before.
pub record Rewritten (ws provider uid : ℕ) (groups : List String) (before after : Db) : Type 0 where
  pub exact :
      keep (is_granted provider uid) after.sso_grants ≡ mapped_grants ws provider uid groups before
  pub others :
      drop_where (is_granted provider uid) after.sso_grants
      ≡ drop_where (is_granted provider uid) before.sso_grants

pub from_after :
    {ws provider uid : ℕ} {groups : List String} {db after later : Db}
    → after.sso_grants ≡ later.sso_grants
    → Rewritten ws provider uid groups db after
    → Rewritten ws provider uid groups db later
from_after {provider} {uid} e s = record {
  exact = ap (keep (is_granted provider uid)) (sym e) ∙ s.exact;
  others = ap (drop_where (is_granted provider uid)) (sym e) ∙ s.others;
}

module _ (ws provider uid : ℕ) (groups : List String) (db : Db) where
  mapped-granted :
      All (λ g. is_granted provider uid g ≡ true) (mapped_grants ws provider uid groups db)
  mapped-granted =
      All-map _ (grant_of uid) _
        (All-mono _ _ _ (λ m h. ground arith) (All-keep_test _ db.group_mappings))

  no_groups : (rows : List GroupMapping) → keep (is_mapped ws provider []) rows ≡ []
  no_groups [] = refl
  no_groups (m ∷ rows) =
      let off : is_mapped ws provider [] m ≡ false = ground arith in rw off (no_groups rows)

  abbrev kept : List SsoGrant
  kept = drop_where (is_granted provider uid) db.sso_grants

  rows-Rewritten :
      (after : Db)
      → after.sso_grants ≡ kept ++ mapped_grants ws provider uid groups db
      → Rewritten ws provider uid groups db after
  rows-Rewritten after e = record {
    exact =
        ap (keep (is_granted provider uid)) e
        ∙ keep-append _ kept _
        ∙ rw (keep-drop (is_granted provider uid) db.sso_grants) (keep-All _ _ mapped-granted);
    others =
        ap (drop_where (is_granted provider uid)) e
        ∙ keep-append _ kept _
        ∙ rw (drop-All (is_granted provider uid) _ mapped-granted)
            (append-nil _ ∙ drop_twice (is_granted provider uid) db.sso_grants);
  }

module _ (ws provider uid : ℕ) (down : ℕ → Bool) where
  written :
      (groups : List String) (db : Db)
      → (sync_grants down ws provider uid groups db).0 ≡ ok tt
      → (sync_grants down ws provider uid groups db).1.sso_grants
        ≡ kept ws provider uid groups db ++ mapped_grants ws provider uid groups db
  unfolding sync_grants drop_user_grants insert_grants
  written [] db h =
      rw (no_groups ws provider uid [] db db.group_mappings) (emptied ∙ sym (append-nil _))
    where
      emptied :
          (sync_grants down ws provider uid [] db).1.sso_grants
          ≡ drop_where (is_granted provider uid) db.sso_grants
      emptied = ground arith
  written (g ∷ gs) db h = ground arith

  pub sync_grants-Rewritten :
      (groups : List String) (db : Db)
      → (sync_grants down ws provider uid groups db).0 ≡ ok tt
      → Rewritten ws provider uid groups db (sync_grants down ws provider uid groups db).1
  sync_grants-Rewritten groups db h =
      rows-Rewritten ws provider uid groups db _ (written groups db h)
