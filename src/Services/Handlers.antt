-- ===== src/Services/Handlers.antt =====
-- The handlers that refresh a service and show its jobs: internal/app/eds_refresh.go,
-- security_groups.go and oss.go.
use netriun_nexus.Prelude.{
  ℕ, String, Bool, true, false, not, ◌&&◌, ◌||◌, ◌==◌, str_eq, if◌then◌else◌, find, Option, some,
  none, ok, problem, Handler, pure, require, row_or, ◌>>=◌, ◌>>◌,
}
use netriun_nexus.Store.{User, CloudAccount, Provider, alibaba}
use netriun_nexus.Text.{TextOps}
use netriun_nexus.Policy.{account_access}
use netriun_nexus.Request.{Parsed, path_id, db_message, no_rows}
use netriun_nexus.Services.{
  Kind, eds, security_groups, oss, Job, ScopeKey, Services, load_job, refresh_scope,
}

abbrev pub is_alibaba : Provider → Bool
is_alibaba alibaba = true
is_alibaba _ = false

abbrev pub provider_row : (down : Bool) → ℕ → ℕ → Handler Services CloudAccount
provider_row down workspace id q =
    if down
    then (problem 409 db_message, q)
    else row_or
        (find (λ (a : CloudAccount). a.id == id && a.workspace_id == workspace) q.db.cloud_accounts)
        404 no_rows q

-- accountAccess: a query that fails is a refusal.
abbrev pub may_access : (down : Bool) → User → ℕ → (mode : String) → Handler Services (Unit {0})
may_access down u id mode q =
    if not down && account_access q.db u id mode
    then (ok tt, q)
    else (problem 403 "Cloud account access required", q)

abbrev pub on_alibaba : (down : Bool) → ℕ → ℕ → Handler Services (Unit {0})
on_alibaba down workspace id = do
  row ← provider_row down workspace id
  require (is_alibaba row.provider) 400 "The selected account is not an Alibaba Cloud connection"

-- ossAccount and securityGroupAccount.
unfoldable pub service_account :
    (down : ℕ → Bool) → User → Parsed → (mode : String) → Handler Services ℕ
service_account down u path mode = do
  id ← path_id path
  may_access (down 0) u id mode
  on_alibaba (down 1) u.workspace_id id
  pure id

unfoldable pub oss_scope_key : ℕ → ℕ → ScopeKey
oss_scope_key workspace account = record {
  kind = oss;
  workspace = workspace;
  account = account;
  service = "";
  region = "";
}

unfoldable pub security_groups_scope_key : ℕ → ℕ → ScopeKey
security_groups_scope_key workspace account = record {
  kind = security_groups;
  workspace = workspace;
  account = account;
  service = "";
  region = "";
}

unfoldable pub eds_scope_key : ℕ → ℕ → (service region : String) → ScopeKey
eds_scope_key workspace account service region = record {
  kind = eds;
  workspace = workspace;
  account = account;
  service = service;
  region = region;
}

unfoldable pub refresh_oss :
    (down : ℕ → Bool) → User → (token : String) → Parsed → Handler Services Job
refresh_oss down u token path = do
  account ← service_account down u path "view"
  refresh_scope down u token (oss_scope_key u.workspace_id account)

unfoldable pub refresh_security_groups :
    (down : ℕ → Bool) → User → (token : String) → Parsed → Handler Services Job
refresh_security_groups down u token path = do
  account ← service_account down u path "view"
  refresh_scope down u token (security_groups_scope_key u.workspace_id account)

abbrev pub shown : (account : ℕ) → Option Job → Handler Services Job
shown account none q = (problem 404 "Refresh job not found", q)
shown account (some job) q =
    if job.account_id == account then (ok job, q) else (problem 404 "Refresh job not found", q)

-- The status handlers after their account.
unfoldable pub job_status :
    (valid : String → Bool) (down : ℕ → Bool)
    → Kind
    → User
    → (account : ℕ) → String
    → Handler Services Job
job_status valid down kind u account id = do
  require (valid id) 400 "Invalid refresh job ID"
  λ q. shown account (load_job (down 2) kind u.workspace_id id q) q

-- ossRefreshStatus and securityGroupRefreshStatus.
unfoldable pub refresh_status :
    (valid : String → Bool) (down : ℕ → Bool) → Kind → User → Parsed → String → Handler Services Job
refresh_status valid down kind u path id = do
  account ← service_account down u path "view"
  job_status valid down kind u account id

-- refreshEDS after its account and region.
unfoldable pub refresh_region :
    (down : ℕ → Bool) → User → (token service : String) → ℕ × String → Handler Services Job
refresh_region down u token service (account, region) = do
  require (str_eq service "desktops" || str_eq service "users") 400
      "EDS refresh service must be desktops or users"
  require (not (str_eq service "users" && str_eq region "all")) 400
      "EDS users require a directory region"
  refresh_scope down u token (eds_scope_key u.workspace_id account service region)

unfoldable pub security_group_refresh_status :
    (valid : String → Bool) (down : ℕ → Bool) → User → Parsed → String → Handler Services Job
unfolding refresh_status
security_group_refresh_status valid down = refresh_status valid down security_groups

unfoldable pub oss_refresh_status :
    (valid : String → Bool) (down : ℕ → Bool) → User → Parsed → String → Handler Services Job
unfolding refresh_status
oss_refresh_status valid down = refresh_status valid down oss

module _ (ops : TextOps) where
  open ops use {trim_space, matches}

  abbrev pub region_pattern : String
  region_pattern = "^[a-z0-9][a-z0-9-]{0,62}$"

  abbrev pub bad_region : (allow_all : Bool) → String → Bool
  bad_region allow_all region =
      str_eq region ""
      || str_eq region "all" && not allow_all
      || not (str_eq region "all") && not (matches region_pattern region)

  -- edsSnapshotAccount.
  unfoldable pub eds_snapshot_account :
      (down : ℕ → Bool) (allow_all require_region : Bool)
      → User
      → Parsed
      → (region : String) → Handler Services (ℕ × String)
  eds_snapshot_account down allow_all require_region u path region = do
    id ← path_id path
    may_access (down 0) u id "view"
    require (not (require_region && bad_region allow_all (trim_space region))) 400
        "A valid Alibaba Cloud region is required"
    on_alibaba (down 1) u.workspace_id id
    pure (id, trim_space region)

  unfoldable pub refresh_eds :
      (down : ℕ → Bool)
      → User
      → (token : String) → Parsed
      → (raw_region raw_service : String) → Handler Services Job
  refresh_eds down u token path raw_region raw_service =
      eds_snapshot_account down true true u path raw_region
      >>= refresh_region down u token (trim_space raw_service)

  unfoldable pub eds_refresh_status :
      (valid : String → Bool) (down : ℕ → Bool)
      → User
      → Parsed
      → (region id : String) → Handler Services Job
  eds_refresh_status valid down u path region id =
      eds_snapshot_account down false false u path region >>= λ (account, _).
      job_status valid down eds u account id
