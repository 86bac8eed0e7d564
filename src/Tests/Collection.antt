-- ===== src/Tests/Collection.antt =====
-- Collections and refreshes of the inventory.
use netriun_nexus.Prelude.{
  String, Bool, true, false, ◌≡◌, refl, [], ◌∷◌, arith, any, keep, some, none, ok, Option,
}
use netriun_nexus.Store.{Db}
use netriun_nexus.Policy.{accessible_account_ids, order_ids, insert_id, listed_account}
use netriun_nexus.Collector.{Item, is_key, lists, collect_region, reconcile_inventory, store_items}
use netriun_nexus.Collector.Reconcile.{
  collect_region-instances, collect_region-elsewhere, elsewhere,
}
use netriun_nexus.Refresh.{
  Queue, Job, joined, started, new_job, running, refresh_scope_key, scope_job, load_refresh_job,
  is_active, refresh_inventory, run_inventory_refresh, inventory_refresh_status,
}
use netriun_nexus.Refresh.Jobs.{refresh_inventory-once, Over, run_inventory_refresh-Over}
use netriun_nexus.Tests.Sample.{up, alice, bob, sample}

abbrev machine : Item
machine = record {
  id = "i-2";
  region = "eu-west-1";
  name = "db";
  state = "running";
  instance_type = "large";
  public_ip = "";
  private_ip = "";
  details = "{}";
}

collected : (collect_region up 7 "eu-west-1" (machine ∷ []) sample).0 ≡ ok tt
unfolding reconcile_inventory store_items
collected = refl

collect_region-instances_example :
    any
      (is_key 7 "eu-west-1" "i-1")
      (collect_region up 7 "eu-west-1" (machine ∷ []) sample).1.instances
    ≡ lists (machine ∷ []) "i-1"
collect_region-instances_example =
    collect_region-instances up 7 "eu-west-1" (machine ∷ []) sample "i-1" collected

collect_region-elsewhere_example :
    keep
      (elsewhere 7 "us-east-1")
      (collect_region up 7 "us-east-1" (machine ∷ []) sample).1.instances
    ≡ keep (elsewhere 7 "us-east-1") sample.instances
collect_region-elsewhere_example = collect_region-elsewhere up 7 "us-east-1" (machine ∷ []) sample

abbrev nowhere : Item
nowhere = record machine { region = "" }

refused : ¬ ((reconcile_inventory up 7 (nowhere ∷ []) true "" sample).0 ≡ ok tt)
unfolding reconcile_inventory store_items
refused h = ground arith

abbrev idle : Queue
idle = record { db = sample; scopes = []; jobs = []; spawned = [] }

abbrev under_way : Job
under_way = record (new_job "job" bob (7 ∷ [])) { status = running }

abbrev busy : Queue
busy = record {
  db = sample;
  scopes = record { key = record { workspace = 1; ids = 7 ∷ [] }; job = "job" } ∷ [];
  jobs = record { workspace = 1; job = under_way } ∷ [];
  spawned = under_way ∷ [];
}

busy_held : scope_job false (refresh_scope_key 1 (7 ∷ [])) busy ≡ some "job"
unfolding scope_job refresh_scope_key order_ids
busy_held = refl

busy_stored : load_refresh_job false 1 "job" busy ≡ some under_way
unfolding load_refresh_job
busy_stored = refl

busy_active : is_active under_way ≡ true
unfolding is_active
busy_active = refl

idle_free : scope_job false (refresh_scope_key 1 (7 ∷ 3 ∷ [])) idle ≡ none
unfolding scope_job
idle_free = refl

same_order : order_ids (3 ∷ 7 ∷ []) ≡ order_ids (7 ∷ 3 ∷ [])
unfolding order_ids insert_id
same_order = refl

refresh_inventory-once_example :
    ((refresh_inventory up bob "job" (7 ∷ 3 ∷ []) idle).0
      ≡ ok (started (new_job "job" bob (7 ∷ 3 ∷ []))))
    × (refresh_inventory up alice "other"
          (3 ∷ 7 ∷ [])
          (refresh_inventory up bob "job" (7 ∷ 3 ∷ []) idle).1
        ≡ (
          ok (joined (new_job "job" bob (7 ∷ 3 ∷ []))),
          (refresh_inventory up bob "job" (7 ∷ 3 ∷ []) idle).1,
        ))
refresh_inventory-once_example =
    refresh_inventory-once bob alice "job" "other" (7 ∷ 3 ∷ []) (3 ∷ 7 ∷ []) idle refl refl
      idle_free refl same_order

abbrev failing : Db → Option String × Db
failing db = (some "provider unavailable", db)

run_inventory_refresh-Over_example :
    Over under_way (run_inventory_refresh up failing under_way busy)
run_inventory_refresh-Over_example = run_inventory_refresh-Over up failing under_way busy refl refl

abbrev any_text : String → Bool
any_text id = true

status_shown : (inventory_refresh_status any_text up alice "job" busy).0 ≡ ok under_way
unfolding inventory_refresh_status load_refresh_job accessible_account_ids listed_account order_ids
    insert_id
status_shown = refl
