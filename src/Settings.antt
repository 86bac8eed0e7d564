-- ===== src/Settings.antt =====
-- saveSettings of internal/app/admin.go: for how many days the audit log of a workspace is kept.
use netriun_nexus.Prelude.{
  ℕ, ℤ, pos, negsuc, to_ℕ, Bool, not, ◌==◌, ◌||◌, ◌≤◌, arith, change, Handler, require, All,
  All-change, Keeps, Ends-bind, Ends-Keeps, Bool-cases, inl, inr, ◌>>=◌, ◌>>◌,
}
use netriun_nexus.Store.{User, Settings, Db, named}
use netriun_nexus.SecurityGroups.{below, above}
use netriun_nexus.Request.{
  Body, decode, require_admin, exec, audit, request_rules, Keeps-audit, Ends-exec,
}

abbrev pub set_retention : (workspace days : ℕ) → Db → Db
set_retention workspace days db = record db {
  settings =
      change (λ (s : Settings). s.workspace_id == workspace)
        (λ (s : Settings). record s { audit_retention_days = days }) db.settings;
}

-- The settings from the retention that the request names on.
unfoldable pub retain : (down : ℕ → Bool) → User → ℤ → Handler Db (Unit {0})
retain down u retention = do
  require (not (below retention 7 || above retention 3650)) 400
      "Retention must be between 7 and 3650 days"
  exec (down 0) (set_retention u.workspace_id (to_ℕ retention))
  audit (down 1) u "settings.updated" (named "")

unfoldable pub save_settings : (down : ℕ → Bool) → User → Body ℤ → Handler Db (Unit {0})
save_settings down u body = do require_admin u; retention ← decode body; retain down u retention

-- The CHECK of the column.
abbrev pub InRange : Db → Type 0
InRange db =
    All (λ (s : Settings). (7 ≤ s.audit_retention_days) × (s.audit_retention_days ≤ 3650))
      db.settings

retain-InRange :
    (down : ℕ → Bool) (u : User) (retention : ℤ) (db : Db)
    → InRange db
    → InRange (retain down u retention db).1
unfolding retain
retain-InRange down u (negsuc n) db h = h
retain-InRange down u (pos n) db h =
    elim (Bool-cases (not (below (pos n) 7 || above (pos n) 3650))) [
      | inr e ↦ rw e h
      | inl e ↦ rw e (
          (Ends-bind db (exec (down 0) (set_retention u.workspace_id n))
            (λ _. audit (down 1) u "settings.updated" (named ""))
            (Ends-exec {P = InRange} db h (down 0) (set_retention u.workspace_id n) (
              All-change _ (λ x. x.workspace_id == u.workspace_id)
                (λ x. record x { audit_retention_days = n }) db.settings
                (λ s _ _. (ground arith, ground arith)) h))
            (λ _. Keeps-audit (down 1) u _ _ (λ e db k. k))).after)
    ]

-- Every workspace keeps its audit log for 7 to 3650 days: this holds after saving the settings too,
-- whatever the request and whatever statements fail.
pub save_settings-InRange :
    (down : ℕ → Bool) (u : User) (body : Body ℤ) (db : Db)
    → InRange db
    → InRange (save_settings down u body db).1
unfolding save_settings
save_settings-InRange down u body db h =
    (Ends-Keeps {P = InRange} db h (save_settings down u body) kept).after
  where
    Keeps-retain : (retention : ℤ) → Keeps InRange (retain down u retention)
    Keeps-retain retention = record { after = λ db h. retain-InRange down u retention db h }

    kept : Keeps InRange (save_settings down u body)
    kept = search (request_rules, Keeps-retain) depth 12
