-- ===== src/Collector.antt =====
-- reconcileInventory of internal/app/collector.go, with collectRegion and collectGlobal from the
-- point where the provider has answered: what a collection makes of the stored inventory.
pub mod Reconcile
use netriun_nexus.Prelude.{
  ℕ, String, Bool, true, false, not, List, [], ◌∷◌, ◌++◌, ◌+◌, ◌&&◌, ◌||◌, ◌==◌, str_eq,
  if◌then◌else◌, any, all, keep, change, drop_where, map, is_empty, Result, ok, problem, Handler,
  pure, fail, require, transaction, ◌>>=◌, ◌>>◌,
}
use netriun_nexus.Store.{Instance, Db}
use netriun_nexus.Request.{available, db_message}

-- `cloud.Instance`, its details already in JSON.
pub record Item : Type 0 where
  pub id : String
  pub region : String
  pub name : String
  pub state : String
  pub instance_type : String
  pub public_ip : String
  pub private_ip : String
  pub details : String

-- UNIQUE(account_id,region,instance_id).
abbrev pub is_key : ℕ → String → String → Instance → Bool
is_key account region id x =
    x.account_id == account && str_eq x.region region && str_eq x.instance_id id

abbrev pub refreshed : Item → Instance → Instance
refreshed i x = record x {
  name = i.name;
  state = i.state;
  instance_type = i.instance_type;
  public_ip = i.public_ip;
  private_ip = i.private_ip;
  details = i.details;
}

abbrev pub new_instance : ℕ → ℕ → Item → Instance
new_instance id account i = record {
  id = id;
  account_id = account;
  instance_id = i.id;
  region = i.region;
  name = i.name;
  state = i.state;
  instance_type = i.instance_type;
  public_ip = i.public_ip;
  private_ip = i.private_ip;
  details = i.details;
}

unfoldable pub upsert : ℕ → Item → Db → Db
upsert account i db =
    if any (is_key account i.region i.id) db.instances
    then record db { instances = change (is_key account i.region i.id) (refreshed i) db.instances }
    else record db {
      instances = db.instances ++ new_instance db.next_id account i ∷ [];
      next_id = db.next_id + 1;
    }

unfoldable pub upsert_all : ℕ → List Item → Db → Db
unfolding upsert
upsert_all account [] db = db
upsert_all account (i ∷ items) db = upsert_all account items (upsert account i db)

-- ON CONFLICT DO UPDATE refuses a statement that names a row twice.
abbrev pub same_item : Item → Item → Bool
same_item i j = str_eq j.region i.region && str_eq j.id i.id

abbrev pub has_twice : List Item → Bool
has_twice [] = false
has_twice (i ∷ items) = any (same_item i) items || has_twice items

abbrev pub lists : List Item → String → Bool
lists items id = any (λ (i : Item). str_eq i.id id) items

abbrev pub is_gone : (whole_account : Bool) → ℕ → String → List Item → Instance → Bool
is_gone whole_account account region items x =
    x.account_id == account
    && (whole_account || str_eq x.region region)
    && not (lists items x.instance_id)

unfoldable pub remove_gone : (whole_account : Bool) → ℕ → String → List Item → Db → Db
remove_gone whole_account account region items db = record db {
  instances = drop_where (is_gone whole_account account region items) db.instances;
}

unfoldable pub store_items : ℕ → List Item → Handler Db (Unit {0})
unfolding upsert_all
store_items account items db =
    if has_twice items then (problem 409 db_message, db) else (ok tt, upsert_all account items db)

-- Every error that the function returns is a problem here; its status is not used.
unfoldable pub reconcile_inventory :
    (down : ℕ → Bool) → ℕ → List Item → (whole_account : Bool) → String → Handler Db (Unit {0})
unfolding store_items remove_gone
reconcile_inventory down account items whole_account region = transaction (do
  available (down 0)
  require (all (λ (i : Item). not (str_eq i.region "")) items) 409
      "provider returned an instance without a region"
  available (not (is_empty items) && down 1)
  store_items account items
  available (down 2)
  (λ db. (ok tt, remove_gone whole_account account region items db))
  available (down 3))

-- collectRegion: every item gets the region that was asked for.
abbrev pub in_region : String → Item → Item
in_region region i = record i { region = region }

abbrev pub collect_region : (down : ℕ → Bool) → ℕ → String → List Item → Handler Db (Unit {0})
collect_region down account region items =
    reconcile_inventory down account (map (in_region region) items) false region

-- collectGlobal: of an account with chosen regions only the items of these.
abbrev pub selected_items : List String → List Item → List Item
selected_items regions items =
    if is_empty regions
    then items
    else keep (λ (i : Item). any (λ region. str_eq region i.region) regions) items

abbrev pub collect_global : (down : ℕ → Bool) → ℕ → List String → List Item → Handler Db (Unit {0})
collect_global down account regions items =
    reconcile_inventory down account (selected_items regions items) true ""
