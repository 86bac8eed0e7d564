-- ===== src/Tests/Sample.antt =====
-- A small workspace: an owner, a member of its one group, an account of the group.
use netriun_nexus.Prelude.{ℕ, ◌==◌, String, Bool, true, false, List, [], ◌∷◌, some, none}
use netriun_nexus.Store.{
  admin, user, manager, aws, User, Account, AccessGroup, CloudAccount, AccessRole, Instance, Db,
  Capability, account_view, account_manage, compute_view, compute_operate, eds_view, eds_operate,
  eds_manage, billing_view, billing_sync,
}
use netriun_nexus.Text.{TextOps}
use netriun_nexus.Credentials.{UnicodeOps}

abbrev pub plain : TextOps
plain = record {
  trim_space = λ s. s;
  to_lower = λ s. s;
  matches = λ pattern text. true;
  len = λ s. 12;
  rune_count = λ s. 12;
}

-- The runes 1, 2, 3 and 4 are a lower-case and an upper-case letter, a digit and a symbol.
abbrev pub runes_of : UnicodeOps
runes_of = record {
  valid_string = λ s. true;
  runes = λ s. 1 ∷ 2 ∷ 3 ∷ 4 ∷ [];
  is_lower = λ r. r == 1;
  is_upper = λ r. r == 2;
  is_digit = λ r. r == 3;
  is_punct = λ r. false;
  is_symbol = λ r. r == 4;
  parse_address = λ s. some s;
  has_at = λ s. true;
  equal_fold = λ s t. true;
  sql_lower = λ s. s;
}

abbrev pub up : ℕ → Bool
up _ = false

abbrev pub alice_row : Account
alice_row = record {
  id = 1;
  workspace_id = 1;
  username = "alice";
  email = "alice@example.com";
  email_verified_at = some 1;
  password_hash = "hash";
  role = admin;
  is_owner = true;
  session_version = 1;
}

abbrev pub bob_row : Account
bob_row = record {
  id = 2;
  workspace_id = 1;
  username = "bob";
  email = "bob@example.com";
  email_verified_at = some 1;
  password_hash = "hash";
  role = user;
  is_owner = false;
  session_version = 4;
}

abbrev pub alice : User
alice = record {
  id = 1;
  workspace_id = 1;
  name = "alice";
  role = admin;
  is_owner = true;
  version = 1;
}

abbrev pub bob : User
bob = record { id = 2; workspace_id = 1; name = "bob"; role = user; is_owner = false; version = 4 }

abbrev pub team_row : AccessGroup
team_row = record {
  id = 5;
  workspace_id = 1;
  name = "ops";
  description = "";
  view_dashboard = true;
  manage_cloud_accounts = true;
  manage_group_members = true;
}

abbrev pub cloud_row : CloudAccount
cloud_row = record {
  id = 7;
  workspace_id = 1;
  name = "production";
  provider = aws;
  owner = "";
  group_id = some 5;
  credentials = "";
  regions = [];
  last_sync_at = none;
  sync_error = "";
  sync_error_code = "";
}

abbrev pub everything : List Capability
everything =
    account_view ∷ account_manage ∷ compute_view ∷ compute_operate ∷ eds_view ∷ eds_operate
    ∷ eds_manage ∷ billing_view ∷ billing_sync ∷ []

abbrev pub role_row : ℕ → String → AccessRole
role_row id key = record {
  id = id;
  workspace_id = 1;
  key = key;
  name = key;
  description = "";
  permissions = everything;
  built_in = true;
}

abbrev pub instance_row : Instance
instance_row = record {
  id = 20;
  account_id = 7;
  instance_id = "i-1";
  region = "eu-west-1";
  name = "web";
  state = "running";
  instance_type = "small";
  public_ip = "";
  private_ip = "";
  details = "{}";
}

abbrev pub sample : Db
sample = record {
  workspaces =
      record { id = 1; name = "acme"; slug = "ws-acme"; user_limit = 6; sso_required = false } ∷ [];
  users = alice_row ∷ bob_row ∷ [];
  access_groups = team_row ∷ [];
  user_groups = record { user_id = 2; group_id = 5; role = manager } ∷ [];
  identity_providers = [];
  external_identities = [];
  group_mappings = [];
  sso_grants = [];
  cloud_accounts = cloud_row ∷ [];
  access_roles = role_row 8 "operator" ∷ role_row 9 "account_manager" ∷ [];
  assignments = [];
  instances = instance_row ∷ [];
  tokens = [];
  settings = [];
  service_snapshots = [];
  audit_log = [];
  next_id = 30;
}
