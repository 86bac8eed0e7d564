-- ===== src/Sso/Grants.antt =====
-- The memberships that a login grants by the groups of the identity: finishSSO of
-- internal/app/sso.go.
use netriun_nexus.Prelude.{
  ℕ, String, Bool, false, List, [], ◌∷◌, ◌++◌, ◌&&◌, ◌||◌, ◌==◌, str_eq, if◌then◌else◌, any, keep,
  drop_where, map, is_empty, ok, problem, Handler, pure, ◌>>◌,
}
use netriun_nexus.Store.{GroupMapping, SsoGrant, Db}
use netriun_nexus.Request.{available, exec, db_message}

abbrev pub is_granted : (provider uid : ℕ) → SsoGrant → Bool
is_granted provider uid g = g.provider_id == provider && g.user_id == uid

unfoldable pub drop_user_grants : (provider uid : ℕ) → Db → Db
drop_user_grants provider uid db = record db {
  sso_grants = drop_where (is_granted provider uid) db.sso_grants;
}

-- m.external_group=ANY($4).
abbrev pub is_mapped : (workspace provider : ℕ) → List String → GroupMapping → Bool
is_mapped workspace provider groups m =
    m.workspace_id == workspace
    && m.provider_id == provider
    && any (λ g. str_eq g m.external_group) groups

abbrev pub grant_of : ℕ → GroupMapping → SsoGrant
grant_of uid m = record {
  workspace_id = m.workspace_id;
  provider_id = m.provider_id;
  user_id = uid;
  group_id = m.group_id;
  external_group = m.external_group;
  role = m.role;
}

abbrev pub mapped_grants : (workspace provider uid : ℕ) → List String → Db → List SsoGrant
mapped_grants workspace provider uid groups db =
    map (grant_of uid) (keep (is_mapped workspace provider groups) db.group_mappings)

abbrev same_grant : SsoGrant → SsoGrant → Bool
same_grant g h = g.group_id == h.group_id && str_eq g.external_group h.external_group

-- UNIQUE(provider_id,user_id,group_id,external_group) among the rows of one user and provider.
abbrev repeats : List SsoGrant → Bool
repeats [] = false
repeats (g ∷ rest) = any (same_grant g) rest || repeats rest

unfoldable pub insert_grants : (workspace provider uid : ℕ) → List String → Handler Db (Unit {0})
insert_grants workspace provider uid groups db =
    if repeats (mapped_grants workspace provider uid groups db)
    then (problem 409 db_message, db)
    else (
      ok tt,
      record db { sso_grants = db.sso_grants ++ mapped_grants workspace provider uid groups db },
    )

unfoldable pub sync_grants :
    (down : ℕ → Bool) → (workspace provider uid : ℕ) → List String → Handler Db (Unit {0})
sync_grants down workspace provider uid groups = do
  exec (down 8) (drop_user_grants provider uid)
  if is_empty groups
      then pure tt
      else (available (down 9) >> insert_grants workspace provider uid groups)
