-- ===== src/Collector/Reconcile.antt =====
-- After a collection the stored inventory is what the provider listed.
use netriun_nexus.Prelude.{
  ℕ, String, Bool, true, false, not, ◌≡◌, refl, ap, ◌∙◌, List, [], ◌∷◌, ◌&&◌, ◌||◌, ◌==◌, str_eq,
  str_eq_refl, eq_of_str_eq, any, keep, change, drop_where, map, arith, Bool-cases, inl, inr,
  any-append, Keeps, ok, keep-append_unseen, keep-change_unseen, keep-drop_unseen, ==_refl,
  eq_of_==,
}
use netriun_nexus.Store.{Instance, Db}
use netriun_nexus.Request.{request_rules}
use netriun_nexus.Collector.{
  Item, is_key, refreshed, new_instance, upsert, upsert_all, has_twice, lists, is_gone, remove_gone,
  store_items, reconcile_inventory, in_region, collect_region,
}

-- What an upsert does to any test that reads the key of a row alone.
module _ (p : Instance → Bool) (account : ℕ)
    (by_key : (x y : Instance)
      → x.account_id ≡ y.account_id
      → x.region ≡ y.region
      → x.instance_id ≡ y.instance_id
      → p x ≡ p y) where
  any-refresh :
      (i : Item) (rows : List Instance)
      → any p (change (is_key account i.region i.id) (refreshed i) rows) ≡ any p rows
  any-refresh i [] = refl
  any-refresh i (x ∷ rows) = elim (Bool-cases (is_key account i.region i.id x)) [
    | inl e ↦ rw (e, by_key (refreshed i x) x refl refl refl, any-refresh i rows) refl
    | inr e ↦ rw (e, any-refresh i rows) refl
  ]

  key_found :
      (i : Item) (id : ℕ) (rows : List Instance)
      → any (is_key account i.region i.id) rows ≡ true
      → p (new_instance id account i) ≡ true
      → any p rows ≡ true
  key_found i id [] h q = ground arith
  key_found i id (x ∷ rows) h q = elim (Bool-cases (is_key account i.region i.id x)) [
    | inl e ↦
        let same =
          by_key x (new_instance id account i) (eq_of_== x.account_id account (ground arith))
            (eq_of_str_eq x.region i.region (ground arith))
            (eq_of_str_eq x.instance_id i.id (ground arith)) in
        rw (same, q) refl
    | inr e ↦ let further = key_found i id rows (ground arith) q in ground arith
  ]

  any-upsert :
      (i : Item) (db : Db)
      → any p (upsert account i db).instances ≡ (any p db.instances || p (new_instance 0 account i))
  unfolding upsert
  any-upsert i db = elim (Bool-cases (any (is_key account i.region i.id) db.instances)) [
    | inl e ↦ rw e (
        any-refresh i db.instances ∙ elim (Bool-cases (p (new_instance 0 account i))) [
          | inl q ↦ let found = key_found i 0 db.instances e q in ground arith
          | inr q ↦ ground arith
        ])
    | inr e ↦ rw e (
        any-append p db.instances _
        ∙ rw (by_key (new_instance db.next_id account i) (new_instance 0 account i) refl refl refl)
            (ground arith))
  ]

  any-upsert_all :
      (items : List Item) (db : Db)
      → any p (upsert_all account items db).instances
        ≡ (any p db.instances || any (λ i. p (new_instance 0 account i)) items)
  unfolding upsert_all
  any-upsert_all [] db = ground arith
  any-upsert_all (i ∷ items) db =
      any-upsert_all items (upsert account i db) ∙ rw (any-upsert i db) (ground arith)

any-drop_gone :
    (account : ℕ) (region id : String) (items : List Item) (rows : List Instance)
    → any (is_key account region id) (drop_where (is_gone false account region items) rows)
      ≡ (any (is_key account region id) rows && lists items id)
any-drop_gone account region id items [] = refl
any-drop_gone account region id items (x ∷ rows) = elim (Bool-cases (is_key account region id x)) [
  | inl e ↦
      let same : lists items x.instance_id ≡ lists items id =
        ap (lists items) (eq_of_str_eq x.instance_id id (ground arith)) in
      elim (Bool-cases (lists items id)) [
        | inl l ↦
            let stays : is_gone false account region items x ≡ false = ground (arith, same) in
            rw (stays, e, l) refl
        | inr l ↦
            let goes : is_gone false account region items x ≡ true = ground (arith, same) in
            rw (goes, e, l) (any-drop_gone account region id items rows ∙ ground arith)
      ]
  | inr e ↦ elim (Bool-cases (is_gone false account region items x)) [
    | inl g ↦ rw (g, e) (any-drop_gone account region id items rows)
    | inr g ↦ rw (g, e) (any-drop_gone account region id items rows)
  ]
]

-- A collection that succeeds has upserted every item and deleted what is not listed; one that fails
-- has changed nothing.
reconciled :
    (down : ℕ → Bool) (account : ℕ) (items : List Item) (whole : Bool) (region : String) (db : Db)
    → (reconcile_inventory down account items whole region db).0 ≡ ok tt
    → (reconcile_inventory down account items whole region db).1
      ≡ remove_gone whole account region items (upsert_all account items db)
unfolding reconcile_inventory store_items
reconciled down account items whole region db h = ground arith

listed_in :
    (account : ℕ) (region id : String) (items : List Item)
    → any (λ i. is_key account region id (new_instance 0 account i)) (map (in_region region) items)
      ≡ lists items id
listed_in account region id [] = refl
listed_in account region id (i ∷ items) =
    rw (==_refl account, str_eq_refl region, listed_in account region id items) refl

lists-in_region :
    (region id : String) (items : List Item)
    → lists (map (in_region region) items) id ≡ lists items id
lists-in_region region id [] = refl
lists-in_region region id (i ∷ items) =
    ap (λ b. str_eq i.id id || b) (lists-in_region region id items)

key_lem :
    (account : ℕ) (region id : String) (x y : Instance)
    → x.account_id ≡ y.account_id
    → x.region ≡ y.region
    → x.instance_id ≡ y.instance_id
    → is_key account region id x ≡ is_key account region id y
key_lem account region id x y a r i = rw (a, r, i) refl

-- When the collection of a region succeeds, the stored instances of the account in that region are
-- exactly those that the provider listed.
pub collect_region-instances :
    (down : ℕ → Bool) (account : ℕ) (region : String) (items : List Item) (db : Db) (id : String)
    → (collect_region down account region items db).0 ≡ ok tt
    → any (is_key account region id) (collect_region down account region items db).1.instances
      ≡ lists items id
unfolding remove_gone
collect_region-instances down account region items db id h =
    let all_items = map (in_region region) items in
    rw (reconciled down account all_items false region db h) (
      any-drop_gone account region id all_items (upsert_all account all_items db).instances
      ∙ rw
          (
            any-upsert_all (is_key account region id) account (key_lem account region id) all_items
                db,
            listed_in account region id items,
            lists-in_region region id items,
          )
          (ground arith))

-- The rows that the collection of a region leaves alone.
abbrev pub elsewhere : ℕ → String → Instance → Bool
elsewhere account region x = not (x.account_id == account && str_eq x.region region)

module _ (account : ℕ) (region : String) (rows : List Instance) where
  abbrev pub Untouched : Db → Type 0
  Untouched db = keep (elsewhere account region) db.instances ≡ rows

  upsert-Untouched :
      (i : Item) (db : Db) → Untouched db → Untouched (upsert account (in_region region i) db)
  unfolding upsert
  upsert-Untouched i db u = elim (Bool-cases (any (is_key account region i.id) db.instances)) [
    | inl e ↦ rw e (
        keep-change_unseen (elsewhere account region) (is_key account region i.id)
          (refreshed (in_region region i)) db.instances (λ x k. (ground arith, ground arith))
        ∙ u)
    | inr e ↦ rw e (
        keep-append_unseen (elsewhere account region) db.instances
          (new_instance db.next_id account (in_region region i)) (here i db.next_id)
        ∙ u)
  ]
    where
      here :
          (i : Item) (n : ℕ)
          → elsewhere account region (new_instance n account (in_region region i)) ≡ false
      here i n = rw (==_refl account, str_eq_refl region) refl

  upsert_all-Untouched :
      (items : List Item) (db : Db)
      → Untouched db
      → Untouched (upsert_all account (map (in_region region) items) db)
  unfolding upsert_all
  upsert_all-Untouched [] db u = u
  upsert_all-Untouched (i ∷ items) db u =
      upsert_all-Untouched items (upsert account (in_region region i) db) (upsert-Untouched i db u)

  remove_gone-Untouched :
      (items : List Item) (db : Db)
      → Untouched db
      → Untouched (remove_gone false account region items db)
  unfolding remove_gone
  remove_gone-Untouched items db u =
      keep-drop_unseen (elsewhere account region) (is_gone false account region items) db.instances
        (λ x k. ground arith)
      ∙ u

  store_items-Untouched :
      (items : List Item) → Keeps Untouched (store_items account (map (in_region region) items))
  unfolding store_items
  store_items-Untouched items = record {
    after = λ db u. elim (Bool-cases (has_twice (map (in_region region) items))) [
      | inl e ↦ rw e u
      | inr e ↦ rw e (upsert_all-Untouched items db u)
    ];
  }

  removed-Untouched :
      (items : List Item)
      → Keeps {A = Unit {0}} Untouched (λ db. (ok tt, remove_gone false account region items db))
  removed-Untouched items = record { after = λ db u. remove_gone-Untouched items db u }

  collect_region-Untouched :
      (down : ℕ → Bool) (items : List Item)
      → Keeps Untouched (collect_region down account region items)
  unfolding reconcile_inventory
  collect_region-Untouched down items =
      search (request_rules, store_items-Untouched, removed-Untouched) depth 14

-- Collecting a region leaves the instances of other accounts and other regions as they were,
-- whatever the provider listed and whatever statements fail.
pub collect_region-elsewhere :
    (down : ℕ → Bool) (account : ℕ) (region : String) (items : List Item) (db : Db)
    → keep (elsewhere account region) (collect_region down account region items db).1.instances
      ≡ keep (elsewhere account region) db.instances
collect_region-elsewhere down account region items db =
    (collect_region-Untouched account region (keep (elsewhere account region) db.instances) down
        items).after
      db refl

-- A collection that fails, at whatever statement, leaves the database as it was.
pub reconcile_inventory-failed :
    (down : ℕ → Bool) (account : ℕ) (items : List Item) (whole : Bool) (region : String) (db : Db)
    → ¬ ((reconcile_inventory down account items whole region db).0 ≡ ok tt)
    → (reconcile_inventory down account items whole region db).1 ≡ db
unfolding reconcile_inventory store_items
reconcile_inventory-failed down account items whole region db h = ground arith
