-- ===== src/Tests/Refreshes.antt =====
-- Refreshes, snapshots and buckets of an Alibaba account.
use netriun_nexus.Prelude.{String, Bool, true, false, ◌≡◌, refl, [], ◌∷◌, Option, some, ok}
use netriun_nexus.Store.{alibaba, Db}
use netriun_nexus.Policy.{account_access, capability_for_mode, can_account}
use netriun_nexus.Request.{positive, json}
use netriun_nexus.Services.{
  eds, oss, Job, ScopeKey, Spawned, Services, new_job, refresh_scope, waiting, queue_job,
  claim_scope, scope_job, load_job, run_refresh,
}
use netriun_nexus.Services.Handlers.{
  eds_scope_key, refresh_eds, refresh_region, eds_snapshot_account,
}
use netriun_nexus.Services.Histories.{start, Reach, here, later, asks}
use netriun_nexus.Services.Answers.{refresh_eds-viewed}
use netriun_nexus.Services.Jobs.{Over, Ended, SameJob, run_refresh-Over}
use netriun_nexus.Services.Buckets.{BucketRequest, create_oss_bucket}
use netriun_nexus.Services.Audited.{Authorised, SentOnlyIf, create_oss_bucket-Authorised}
use netriun_nexus.Services.Snapshots.{save_service_snapshot, upsert, service_snapshot}
use netriun_nexus.Services.Restored.{service_snapshot-save}
use netriun_nexus.Tests.Sample.{plain, up, alice, cloud_row, sample}

abbrev database : Db
database = record sample { cloud_accounts = record cloud_row { provider = alibaba } ∷ [] }

abbrev desktops : ScopeKey
desktops = record { kind = eds; workspace = 1; account = 7; service = "desktops"; region = "all" }

abbrev one_job : Services
one_job = (refresh_scope up alice "first" desktops (start database)).1

one_job_reached : Reach database one_job
one_job_reached = later here (asks up alice "first" desktops refl refl)

-- The second request waits for the job of the first.
joins_first :
    (refresh_eds plain up alice "second" (positive 7) "all" "desktops" one_job).0
    ≡ ok (new_job "first" alice desktops)
unfolding refresh_eds refresh_region eds_snapshot_account eds_scope_key refresh_scope waiting
    queue_job claim_scope scope_job load_job account_access capability_for_mode can_account
joins_first = refl

refresh_eds-viewed_example : account_access one_job.db alice 7 "view" ≡ true
refresh_eds-viewed_example =
    refresh_eds-viewed one_job_reached plain up alice "second" (positive 7) "all" "desktops"
      (new_job "first" alice desktops) joins_first

abbrev buckets_job : Spawned
buckets_job = record {
  key = record { kind = oss; workspace = 1; account = 7; service = ""; region = "" };
  job =
      new_job "first" alice
        (record { kind = oss; workspace = 1; account = 7; service = ""; region = "" });
}

abbrev refused : Db → Option String × Db
refused db = (some "AccessDenied", db)

run_refresh-Over_example :
    (done : Job) × Ended oss (some "AccessDenied") done
    × SameJob buckets_job.job done
    × Over buckets_job done (run_refresh up refused buckets_job one_job)
run_refresh-Over_example = run_refresh-Over up refused buckets_job one_job refl refl

abbrev asked : BucketRequest
asked = record {
  name = "nexus-logs";
  region = "cn-hangzhou";
  storage_class = "Standard";
  redundancy_type = "LRS";
  confirm_cost = true;
}

create_oss_bucket-Authorised_example :
    SentOnlyIf
      (Authorised plain alice (json asked) (start database))
      (start database)
      (create_oss_bucket plain up true true alice (positive 7) (json asked) (start database)).1
create_oss_bucket-Authorised_example =
    create_oss_bucket-Authorised plain up true true alice (positive 7) (json asked) (start database)

-- Payloads that are texts, printed as they are.
abbrev any_key : String → Bool
any_key key = true

abbrev printed : String → Option String
printed text = some text

saved : (save_service_snapshot any_key printed false 5 1 7 "oss.buckets" "" "[]" database).0 ≡ true
unfolding save_service_snapshot upsert
saved = refl

service_snapshot-save_example :
    (service_snapshot printed "" false 1 7 "oss.buckets" ""
      (save_service_snapshot any_key printed false 5 1 7 "oss.buckets" "" "[]" database).1).0
    ≡ ok (record { payload = "[]"; snapshot = true; fetched_at = some 5 })
service_snapshot-save_example =
    service_snapshot-save any_key printed printed "" false 5 1 7 "oss.buckets" "" "[]" "[]" "[]"
      database refl refl tt saved
