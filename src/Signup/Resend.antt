-- ===== src/Signup/Resend.antt =====
-- resendVerification of internal/app/auth.go. `allowed` is what the count of attempts answers, and
-- `digest` that of the new token; what becomes of the message is only logged.
use netriun_nexus.Prelude.{
  ℕ, String, Bool, true, false, ◌≡◌, refl, str_eq, if◌then◌else◌, find, Option, some, none, ok,
  Handler, require, ◌>>=◌, ◌>>◌,
}
use netriun_nexus.Store.{Account, Db}
use netriun_nexus.Text.{TextOps}
use netriun_nexus.Credentials.{UnicodeOps, normalize_email}
use netriun_nexus.Users.{use_tokens, add_token}
use netriun_nexus.Request.{Body, not_json, invalid, trailing, json, decode}

-- The new token in place of the open ones of the user.
unfoldable pub replace_token : (down : ℕ → Bool) (now : ℕ) → String → (id : ℕ) → Db → Db
replace_token down now digest id db =
    if down 1
    then db
    else if down 2
    then use_tokens now id db
    else (add_token now id digest (use_tokens now id db)).1

abbrev pub is_verified : Account → Bool
is_verified x = elim x.email_verified_at [ none ↦ false | some _ ↦ true ]

abbrev pub resend_to : (down : ℕ → Bool) (now : ℕ) → String → Option Account → Db → Db
resend_to down now digest none db = db
resend_to down now digest (some x) db =
    if is_verified x then db else replace_token down now digest x.id db

module _ (ops : TextOps) (uni : UnicodeOps) where
  open uni use {sql_lower}

  abbrev pub resend_address :
      (down : ℕ → Bool) (now : ℕ) → (digest : String) → Option String → Db → Db
  resend_address down now digest none db = db
  resend_address down now digest (some email) db =
      if down 0
      then db
      else resend_to down now digest (find (λ x. str_eq (sql_lower x.email) email) db.users) db

  abbrev pub resent :
      (down : ℕ → Bool) (now : ℕ) → (digest address : String) → Handler Db (Unit {0})
  resent down now digest address db =
      (ok tt, resend_address down now digest (normalize_email ops uni address) db)

  unfoldable pub resend_verification :
      (allowed : Bool) (down : ℕ → Bool) (now : ℕ) (digest : String)
      → Body String
      → Handler Db (Unit {0})
  resend_verification allowed down now digest body = do
    require allowed 429 "Too many requests; try again in five minutes"
    address ← decode body
    resent down now digest address

  -- What a request to send the verification again is answered with tells nothing of the accounts: it
  -- is the same whatever the database holds, whether the address is known, unknown or verified, and
  -- whatever statements fail.
  pub resend_verification-silent :
      (allowed : Bool) (down other_down : ℕ → Bool) (now : ℕ) (digest : String) (body : Body String)
      (db other : Db)
      → (resend_verification allowed down now digest body db).0
        ≡ (resend_verification allowed other_down now digest body other).0
  unfolding resend_verification
  resend_verification-silent true down other_down now digest not_json db other = refl
  resend_verification-silent true down other_down now digest invalid db other = refl
  resend_verification-silent true down other_down now digest trailing db other = refl
  resend_verification-silent true down other_down now digest (json address) db other = refl
  resend_verification-silent false down other_down now digest body db other = refl
