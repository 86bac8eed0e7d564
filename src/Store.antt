-- ===== src/Store.antt =====
-- The database: the tables of internal/app/migrations, one record for each kind of row and a list
-- for each table. A CHECK over a few texts is an enumeration. Rows get their ids from one sequence,
-- where PostgreSQL has one for each table: what the code uses is that an id is new in its table.
-- Creation times and the audit entries' JSON details are left out; nothing that is modelled reads
-- them.
use netriun_nexus.Prelude.{ℕ, String, Bool, Option, List}

-- identity_providers.protocol.
pub data Protocol : Type 0 where
  oidc saml : Protocol

-- users.role.
pub data UserRole : Type 0 where
  admin user : UserRole

-- user_groups.role.
pub data MemberRole : Type 0 where
  viewer operator manager : MemberRole

-- cloud_accounts.provider.
pub data Provider : Type 0 where
  aws azure gcp alibaba : Provider

-- The capabilities of policy.go.
pub data Capability : Type 0 where
  account_view account_manage compute_view compute_operate : Capability
  eds_view eds_operate eds_manage billing_view billing_sync : Capability

-- The principal of an assignment: principal_type with user_id or group_id.
pub data Principal : Type 0 where
  person team : ℕ → Principal

-- account_access_assignments.source_type.
pub data Source : Type 0 where
  manual sso : Source

pub record Workspace : Type 0 where
  pub id : ℕ
  pub name : String
  pub slug : String
  pub user_limit : ℕ
  pub sso_required : Bool

-- A NULL email is the empty text, as COALESCE(email,'') reads it.
pub record Account : Type 0 where
  pub id : ℕ
  pub workspace_id : ℕ
  pub username : String
  pub email : String
  pub email_verified_at : Option ℕ
  pub password_hash : String
  pub role : UserRole
  pub is_owner : Bool
  pub session_version : ℕ

pub record AccessGroup : Type 0 where
  pub id : ℕ
  pub workspace_id : ℕ
  pub name : String
  pub description : String
  pub view_dashboard : Bool
  pub manage_cloud_accounts : Bool
  pub manage_group_members : Bool

-- user_groups, and a row of the view effective_user_groups.
pub record Membership : Type 0 where
  pub user_id : ℕ
  pub group_id : ℕ
  pub role : MemberRole

pub record SsoGrant : Type 0 where
  pub workspace_id : ℕ
  pub provider_id : ℕ
  pub user_id : ℕ
  pub group_id : ℕ
  pub external_group : String
  pub role : MemberRole

-- `config_encrypted` is the configuration, as JSON, under the vault's key.
pub record IdentityProvider : Type 0 where
  pub id : ℕ
  pub workspace_id : ℕ
  pub public_id : String
  pub name : String
  pub protocol : Protocol
  pub enabled : Bool
  pub jit_provisioning : Bool
  pub config_encrypted : String

-- external_identities, without the attributes, which are stored and not read.
pub record ExternalIdentity : Type 0 where
  pub workspace_id : ℕ
  pub provider_id : ℕ
  pub user_id : ℕ
  pub subject : String
  pub email : String

-- identity_group_mappings; `role` is membership_role.
pub record GroupMapping : Type 0 where
  pub id : ℕ
  pub workspace_id : ℕ
  pub provider_id : ℕ
  pub external_group : String
  pub group_id : ℕ
  pub role : MemberRole

pub record CloudAccount : Type 0 where
  pub id : ℕ
  pub workspace_id : ℕ
  pub name : String
  pub provider : Provider
  pub owner : String
  pub group_id : Option ℕ
  pub credentials : String
  pub regions : List String
  pub last_sync_at : Option ℕ
  pub sync_error : String
  pub sync_error_code : String

pub record AccessRole : Type 0 where
  pub id : ℕ
  pub workspace_id : ℕ
  pub key : String
  pub name : String
  pub description : String
  pub permissions : List Capability
  pub built_in : Bool

pub record Assignment : Type 0 where
  pub id : ℕ
  pub workspace_id : ℕ
  pub principal : Principal
  pub cloud_account_id : ℕ
  pub role_id : ℕ
  pub service_key : String
  pub source_type : Source
  pub source_ref : String

pub record Instance : Type 0 where
  pub id : ℕ
  pub account_id : ℕ
  pub instance_id : String
  pub region : String
  pub name : String
  pub state : String
  pub instance_type : String
  pub public_ip : String
  pub private_ip : String
  pub details : String

-- audit_log.target. An id is kept as a number; strconv.FormatInt writes it out.
pub data Target : Type 0 where
  named : String → Target
  numbered : ℕ → Target
  of_member : (group user : ℕ) → Target

pub record AuditEntry : Type 0 where
  pub workspace_id : ℕ
  pub user_id : Option ℕ
  pub username : String
  pub action : String
  pub target : Target

pub record VerificationToken : Type 0 where
  pub user_id : ℕ
  pub token_digest : String
  pub expires_at : ℕ
  pub used_at : Option ℕ

pub record Settings : Type 0 where
  pub workspace_id : ℕ
  pub audit_retention_days : ℕ

-- service_snapshots. The jsonb payload stands for what encoding/json printed: the form that Postgres
-- gives it is left to what reads it.
pub record Snapshot : Type 0 where
  pub workspace_id : ℕ
  pub account_id : ℕ
  pub service_key : String
  pub region : String
  pub payload : String
  pub fetched_at : ℕ

pub record Db : Type 0 where
  pub workspaces : List Workspace
  pub users : List Account
  pub access_groups : List AccessGroup
  pub user_groups : List Membership
  pub identity_providers : List IdentityProvider
  pub external_identities : List ExternalIdentity
  pub group_mappings : List GroupMapping
  pub sso_grants : List SsoGrant
  pub cloud_accounts : List CloudAccount
  pub access_roles : List AccessRole
  pub assignments : List Assignment
  pub instances : List Instance
  pub tokens : List VerificationToken
  pub settings : List Settings
  pub service_snapshots : List Snapshot
  pub audit_log : List AuditEntry
  pub next_id : ℕ

-- The signed-in user, `User` of app.go; `name` is Username.
pub record User : Type 0 where
  pub id : ℕ
  pub workspace_id : ℕ
  pub name : String
  pub role : UserRole
  pub is_owner : Bool
  pub version : ℕ
