-- ===== src/Services/Buckets.antt =====
-- internal/app/oss.go: the list of the buckets of an account, and the handler that creates one; the
-- list of security groups of security_groups.go.
use netriun_nexus.Prelude.{
  ℕ, String, Bool, true, false, [], ◌∷◌, ◌++◌, ◌||◌, str_eq, Option, Result, ok, problem, Handler,
  pure, require, ◌>>=◌, ◌>>◌,
}
use netriun_nexus.Store.{User, Db, named}
use netriun_nexus.Text.{TextOps}
use netriun_nexus.Request.{Body, Parsed, decode, append_entry, entry}
use netriun_nexus.Services.{Services, Bucket, note}
use netriun_nexus.Services.Handlers.{service_account, region_pattern}
use netriun_nexus.Services.Snapshots.{View, service_snapshot}

pub record BucketRequest : Type 0 where
  pub name : String
  pub region : String
  pub storage_class : String
  pub redundancy_type : String
  pub confirm_cost : Bool

-- A handler of the database alone.
abbrev pub on_db : {A : Type 0} → Result A × Db → Services → Result A × Services
on_db (r, db) q = (r, record q { db = db })

abbrev service_view :
    {M : Type 0} (unmarshal : String → Option M) (no_data : M) (down : Bool) (workspace account : ℕ)
    (service : String)
    → Handler Services (View M)
service_view unmarshal no_data down workspace account service q =
    on_db (service_snapshot unmarshal no_data down workspace account service "" q.db) q

-- ossBuckets.
unfoldable pub oss_buckets :
    {M : Type 0} (unmarshal : String → Option M) (no_data : M) (down : ℕ → Bool)
    → User
    → Parsed
    → Handler Services (View M)
oss_buckets unmarshal no_data down u path = do
  account ← service_account down u path "view"
  service_view unmarshal no_data (down 2) u.workspace_id account "oss.buckets"

-- The handler securityGroups.
unfoldable pub security_group_list :
    {M : Type 0} (unmarshal : String → Option M) (no_data : M) (down : ℕ → Bool)
    → User
    → Parsed
    → Handler Services (View M)
security_group_list unmarshal no_data down u path = do
  account ← service_account down u path "view"
  service_view unmarshal no_data (down 2) u.workspace_id account "ecs.security_groups"

abbrev pub name_pattern : String
name_pattern = "^[a-z0-9][a-z0-9-]{1,61}[a-z0-9]$"

abbrev pub is_storage_class : String → Bool
is_storage_class text =
    str_eq text "Standard" || str_eq text "IA" || str_eq text "Archive" || str_eq text "ColdArchive"

-- `record`, whose error stops the handler.
abbrev pub recorded :
    (down : Bool) → User → (action target message : String) → Handler Services (Unit {0})
recorded true u action target message q = (problem 503 message, q)
recorded false u action target message q =
    (ok tt, record q { db = append_entry (entry u action (named target)) q.db })

abbrev pub sending : (accepted : Bool) → Bucket → Handler Services Bool
sending accepted b q = (ok accepted, record q { sent = q.sent ++ b ∷ [] })

abbrev pub answered : (down taken : Bool) → User → Bucket → Handler Services Bucket
answered down true u b q = (ok b, note down u "oss.bucket.create.accepted" b.name q)
answered down false u b q = (
  problem 502
      "Alibaba OSS rejected bucket creation; check global name availability, region support, RAM permissions, and account activation",
  note down u "oss.bucket.create.failed" b.name q,
)

-- From the entry in the audit log on. `credentials` says whether the account has credentials that
-- can be read, `accepted` what the provider answers.
unfoldable pub submit_bucket :
    (down : ℕ → Bool) (credentials accepted : Bool) → User → Bucket → Handler Services Bucket
submit_bucket down credentials accepted u b = do
  recorded (down 2) u "oss.bucket.create.requested" b.name
      "Bucket was not submitted because audit storage is unavailable"
  require credentials 400 "The selected account is not an Alibaba Cloud connection"
  taken ← sending accepted b
  answered (down 3) taken u b

module _ (ops : TextOps) where
  open ops use {trim_space, matches}

  abbrev pub bucket_of : ℕ → BucketRequest → Bucket
  bucket_of account inp = record {
    account = account;
    name = trim_space inp.name;
    region = trim_space inp.region;
    storage_class = inp.storage_class;
    redundancy_type = inp.redundancy_type;
  }

  unfoldable pub checked_bucket : ℕ → BucketRequest → Handler Services Bucket
  checked_bucket account inp = do
    require (matches name_pattern (trim_space inp.name)) 400
        "Bucket name must be 3–63 lowercase letters, numbers, or hyphens and must start and end with a letter or number"
    require (matches (region_pattern ops) (trim_space inp.region)) 400
        "A valid Alibaba Cloud region is required"
    require (is_storage_class inp.storage_class) 400 "Unsupported OSS storage class"
    require (str_eq inp.redundancy_type "LRS" || str_eq inp.redundancy_type "ZRS") 400
        "OSS redundancy must be LRS or ZRS"
    require inp.confirm_cost 400 "Explicit cost confirmation is required"
    pure (bucket_of account inp)

  -- createOSSBucket.
  unfoldable pub create_oss_bucket :
      (down : ℕ → Bool) (credentials accepted : Bool)
      → User
      → Parsed
      → Body BucketRequest
      → Handler Services Bucket
  create_oss_bucket down credentials accepted u path body = do
    account ← service_account down u path "manage"
    raw ← decode body
    b ← checked_bucket account raw
    submit_bucket down credentials accepted u b
