-- ===== src/Sso/Mappings.antt =====
-- The teams that the groups of an identity provider stand for: identityGroupMappings (its POST) and
-- deleteIdentityGroupMapping of internal/app/sso.go.
use netriun_nexus.Prelude.{
  ℕ, String, Bool, not, [], ◌∷◌, ◌++◌, ◌+◌, ◌&&◌, ◌||◌, ◌==◌, str_eq, ltb, if◌then◌else◌, any, find,
  change, drop_where, some, none, ok, problem, Handler, pure, require, row_or, transaction,
  below_one, to_ℕ, ℤ, ◌>>=◌, ◌>>◌,
}
use netriun_nexus.Store.{MemberRole, GroupMapping, SsoGrant, User, numbered, Db}
use netriun_nexus.Text.{TextOps}
use netriun_nexus.Groups.{member_role, is_group}
use netriun_nexus.Request.{
  Body, Parsed, decode, require_admin, path_id, available, exec, audit, no_rows,
}
use netriun_nexus.Sso.Providers.{is_provider}

pub record MappingInput : Type 0 where
  pub external_group : String
  pub group_id : ℤ
  pub membership_role : String

-- A mapping is keyed by provider, external group and team.
pub record Slot : Type 0 where
  pub provider : ℕ
  pub external : String
  pub group : ℕ

abbrev pub of_slot : Slot → GroupMapping → Bool
of_slot s m =
    m.provider_id == s.provider && str_eq m.external_group s.external && m.group_id == s.group

abbrev pub grant_of_slot : ℕ → Slot → SsoGrant → Bool
grant_of_slot workspace s g =
    g.workspace_id == workspace
    && g.provider_id == s.provider
    && str_eq g.external_group s.external
    && g.group_id == s.group

abbrev pub new_mapping : ℕ → ℕ → Slot → MemberRole → GroupMapping
new_mapping id workspace s role = record {
  id = id;
  workspace_id = workspace;
  provider_id = s.provider;
  external_group = s.external;
  group_id = s.group;
  role = role;
}

-- The INSERT … ON CONFLICT of a mapping whose provider and team are of the workspace.
unfoldable pub put_mapping : ℕ → Slot → MemberRole → Handler Db ℕ
put_mapping workspace s role db =
    if any (is_provider workspace s.provider) db.identity_providers
      && any (is_group workspace s.group) db.access_groups
    then elim (find (of_slot s) db.group_mappings) [
      | some m ↦ (
        ok m.id,
        record db {
          group_mappings =
              change (of_slot s) (λ (x : GroupMapping). record x { role = role }) db.group_mappings;
        },
      )
      | none ↦ (
        ok db.next_id,
        record db {
          group_mappings = db.group_mappings ++ new_mapping db.next_id workspace s role ∷ [];
          next_id = db.next_id + 1;
        },
      )
    ]
    else (problem 404 no_rows, db)

-- UPDATE sso_membership_grants SET role=$1.
unfoldable pub follow_mapping : ℕ → Slot → MemberRole → Db → Db
follow_mapping workspace s role db = record db {
  sso_grants =
      change (grant_of_slot workspace s) (λ (g : SsoGrant). record g { role = role }) db.sso_grants;
}

unfoldable pub store_mapping : (down : ℕ → Bool) → ℕ → Slot → MemberRole → Handler Db ℕ
store_mapping down workspace s role = do
  available (down 1)
  id ← put_mapping workspace s role
  exec (down 2) (follow_mapping workspace s role)
  available (down 3)
  pure id

abbrev mapping_message : String
mapping_message = "Provide an external group, Nexus team, and membership role"

unfoldable pub save_group_mapping :
    (text : TextOps) (down : ℕ → Bool) → User → Parsed → Body MappingInput → Handler Db ℕ
save_group_mapping text down u path body = do
  require_admin u
  id ← path_id path
  raw ← decode body
  let external = text.trim_space raw.external_group
  require (not (str_eq external "" || ltb 512 (text.len external) || below_one raw.group_id)) 400
      mapping_message
  role ← row_or (member_role raw.membership_role) 400 mapping_message
  available (down 0)
  mapping ← transaction (
      store_mapping down u.workspace_id
        (record { provider = id; external = external; group = to_ℕ raw.group_id }) role)
  audit (down 4) u "identity_group_mapping.saved" (numbered mapping)
  pure mapping

abbrev pub is_mapping : ℕ → (provider mapping : ℕ) → GroupMapping → Bool
is_mapping workspace provider mapping m =
    m.id == mapping && m.provider_id == provider && m.workspace_id == workspace

-- DELETE … RETURNING external_group,group_id.
unfoldable pub take_mapping : ℕ → (provider mapping : ℕ) → Handler Db GroupMapping
take_mapping workspace provider mapping db =
    elim (find (is_mapping workspace provider mapping) db.group_mappings) [
      | none ↦ (problem 404 "Group mapping not found", db)
      | some m ↦ (
        ok m,
        record db {
          group_mappings = drop_where (is_mapping workspace provider mapping) db.group_mappings;
        },
      )
    ]

unfoldable pub drop_grants : ℕ → Slot → Db → Db
drop_grants workspace s db = record db {
  sso_grants = drop_where (grant_of_slot workspace s) db.sso_grants;
}

unfoldable pub remove_mapping :
    (down : ℕ → Bool) → ℕ → (provider mapping : ℕ) → Handler Db (Unit {0})
remove_mapping down workspace provider mapping = do
  available (down 1)
  m ← take_mapping workspace provider mapping
  exec (down 2) (
      drop_grants workspace
        (record { provider = provider; external = m.external_group; group = m.group_id }))
  available (down 3)

unfoldable pub delete_group_mapping :
    (down : ℕ → Bool) → User → (provider mapping : Parsed) → Handler Db (Unit {0})
delete_group_mapping down u provider mapping = do
  require_admin u
  pid ← path_id provider
  mid ← path_id mapping
  available (down 0)
  transaction (remove_mapping down u.workspace_id pid mid)
  audit (down 4) u "identity_group_mapping.deleted" (numbered mid)
