-- ===== src/Sso/Names.antt =====
-- The name of a user whom a login creates: availableSSOUsername of internal/app/sso.go.
use netriun_nexus.Prelude.{
  ℕ, String, Bool, ◌+◌, ◌||◌, ◌==◌, str_eq, ltb, suc, zero, if◌then◌else◌, any, Option, some, none,
}
use netriun_nexus.Store.{Account, Db}
use netriun_nexus.Text.{TextOps}
use netriun_nexus.Credentials.{UnicodeOps}

-- The texts of availableSSOUsername: what stands before the first "@", runs of characters outside
-- [A-Za-z0-9._-] replaced by "-", "-._" trimmed, the first n bytes, "%s-%d", and the fallback
-- "sso-" with the first 12 digits of the digest.
pub record NameOps : Type 0 where
  pub before_at : String → String
  pub replace_unsafe : String → String
  pub trim_marks : String → String
  pub first_bytes : ℕ → String → String
  pub numbered : String → ℕ → String
  pub fallback : (email : String) → String

module _ (text : TextOps) (uni : UnicodeOps) (names : NameOps) where
  open text use {trim_space, len}
  open uni use {sql_lower}

  abbrev clipped : String → String
  clipped base =
      let long = if ltb (len base) 3 then "sso-user" else base in
      if ltb 80 (len long) then names.first_bytes 80 long else long

  unfoldable pub base_name : (preferred email : String) → String
  base_name preferred email =
      let given = trim_space preferred in
      clipped (
        names.trim_marks
          (names.replace_unsafe (if str_eq given "" then names.before_at email else given)))

  abbrev pub candidate_name : String → ℕ → String
  candidate_name base i = if i == 0 then base else names.numbered base (i + 1)

  abbrev pub is_taken : String → Db → Bool
  is_taken name db = any (λ (x : Account). str_eq (sql_lower x.username) (sql_lower name)) db.users

  -- The loop from candidate `i` on; a query that fails counts as a name that is taken.
  unfoldable pub first_free : (down : ℕ → Bool) (tries i : ℕ) → String → Db → Option String
  first_free down zero i base db = none
  first_free down (suc tries) i base db =
      let later = first_free down tries (i + 1) base db in
      if down i || is_taken (candidate_name base i) db then later else some (candidate_name base i)

  abbrev pub username_tries : ℕ
  username_tries = 1000

  unfoldable pub available_sso_username :
      (down : ℕ → Bool) → (preferred email : String) → Db → String
  available_sso_username down preferred email db =
      elim (first_free down username_tries 0 (base_name preferred email) db) [
        | some name ↦ name
        | none ↦ names.fallback email
      ]
