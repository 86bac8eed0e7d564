-- ===== src/Services/Restored.antt =====
-- Snapshots are read as they were saved.
use netriun_nexus.Prelude.{
  ℕ, String, Bool, true, false, not, ◌≡◌, refl, List, [], ◌∷◌, ◌++◌, ◌&&◌, ◌==◌, arith, str_eq_refl,
  ==_refl, any, find, change, Bool-cases, inl, inr, Option, some, ok, All,
}
use netriun_nexus.Store.{Db, Snapshot}
use netriun_nexus.Services.Snapshots.{
  View, is_snapshot, is_own, has_account, replaced, upsert, save_service_snapshot, viewed,
  service_snapshot,
}

-- The foreign key on the account and its workspace.
abbrev pub OfWorkspace : (workspace account : ℕ) → Snapshot → Type 0
OfWorkspace workspace account s = s.account_id ≡ account → s.workspace_id ≡ workspace

module _ {M : Type 0} (unmarshal : String → Option M) (no_data : M) (raw : String) (m : M) (now : ℕ)
    (reads : unmarshal raw ≡ some m) (workspace account : ℕ) (service region : String) where
  abbrev pub fresh : View M
  fresh = record { payload = m; snapshot = true; fetched_at = some now }

  abbrev pub row : Snapshot
  row = record {
    workspace_id = workspace;
    account_id = account;
    service_key = service;
    region = region;
    payload = raw;
    fetched_at = now;
  }

  viewed-change :
      (rows : List Snapshot)
      → any (is_snapshot account service region) rows ≡ true
      → All (OfWorkspace workspace account) rows
      → viewed unmarshal no_data (
          find
            (is_own workspace account service region)
            (change (is_snapshot account service region) (replaced now raw) rows))
        ≡ ok fresh
  viewed-change [] h f = ground arith
  viewed-change (s ∷ rows) h (f, g) = elim (Bool-cases (is_snapshot account service region s)) [
    | inl e ↦
        let own : s.workspace_id ≡ workspace = f (ground arith) in
        rw (e, own, ==_refl workspace, e, reads) refl
    | inr e ↦
        let rest = viewed-change rows (ground arith) g in
        elim (Bool-cases (s.workspace_id == workspace)) [
          | inl w ↦ rw (e, e, w) rest
          | inr w ↦ rw (e, e, w) rest
        ]
  ]

  viewed-append :
      (rows : List Snapshot)
      → any (is_snapshot account service region) rows ≡ false
      → viewed unmarshal no_data (find (is_own workspace account service region) (rows ++ row ∷ []))
        ≡ ok fresh
  viewed-append [] h =
      rw (==_refl workspace, ==_refl account, str_eq_refl service, str_eq_refl region, reads) refl
  viewed-append (s ∷ rows) h = elim (Bool-cases (is_own workspace account service region s)) [
    | inl e ↦ ground arith
    | inr e ↦ rw e (viewed-append rows (ground arith))
  ]

  upsert-viewed :
      (db : Db)
      → All (OfWorkspace workspace account) db.service_snapshots
      → (upsert now workspace account service region raw db).0 ≡ true
      → viewed unmarshal no_data (
          find
            (is_own workspace account service region)
            (upsert now workspace account service region raw db).1.service_snapshots)
        ≡ ok fresh
  unfolding upsert
  upsert-viewed db f h =
      elim (Bool-cases (any (is_snapshot account service region) db.service_snapshots)) [
        | inl e ↦ rw e (viewed-change db.service_snapshots e f)
        | inr e ↦ elim (Bool-cases (has_account workspace account db)) [
          | inl k ↦ rw (e, k) (viewed-append db.service_snapshots e)
          | inr k ↦ let refused : false ≡ true = rw (e, k) at h in ground arith
        ]
      ]

-- A snapshot that is saved, new or in the place of an older one, is what a page then shows, as of the
-- time at which it was saved, where reading undoes printing for it and the rows of the account are
-- of its workspace.
pub service_snapshot-save :
    {A M : Type 0} (is_key : String → Bool) (marshal : A → Option String)
    (unmarshal : String → Option M) (no_data : M) (down : Bool) (now workspace account : ℕ)
    (service region : String) (payload : A) (raw : String) (m : M) (db : Db)
    → marshal payload ≡ some raw
    → unmarshal raw ≡ some m
    → All (OfWorkspace workspace account) db.service_snapshots
    → (save_service_snapshot is_key marshal down now workspace account service region payload db).0
      ≡ true
    → (service_snapshot unmarshal no_data false workspace account service region
        (save_service_snapshot is_key marshal down now workspace account service region payload
          db).1).0
      ≡ ok (record { payload = m; snapshot = true; fetched_at = some now })
unfolding save_service_snapshot service_snapshot
service_snapshot-save is_key marshal unmarshal no_data down now workspace account service region
      payload raw m db prints reads f h =
    elim (Bool-cases (not down && is_key service)) [
      | inl e ↦
          rw (prints, e)
            (upsert-viewed unmarshal no_data raw m now reads workspace account service region db f
              (rw (prints, e) at h))
      | inr e ↦ let refused : false ≡ true = rw (prints, e) at h in ground arith
    ]
