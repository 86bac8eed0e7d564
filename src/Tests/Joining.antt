-- ===== src/Tests/Joining.antt =====
-- Signing up and verifying an address.
use netriun_nexus.Prelude.{String, true, [], ◌∷◌, none, refl}
use netriun_nexus.Request.{json}
use netriun_nexus.Users.Owners.{IsSound}
use netriun_nexus.Signup.{SignupInput, Fresh, signup}
use netriun_nexus.Signup.Owners.{signup-IsSound}
use netriun_nexus.Store.{Db}
use netriun_nexus.Signup.Resend.{resend_verification}
use netriun_nexus.Signup.Tokens.{SingleOpen, resend_verification-SingleOpen}
use netriun_nexus.Tests.Sample.{plain, runes_of, up, alice_row, sample}
use netriun_nexus.Tests.People.{hashing, sample-IsSound}

abbrev dora : SignupInput
dora = record {
  workspace = "initech";
  username = "dora";
  email = "dora@example.com";
  password = "aA1!aA1!aA1!";
}

abbrev fresh : Fresh
fresh = record { slug = "ws-initech"; digest = "verify" }

signup-IsSound_example :
    IsSound (signup plain runes_of hashing up true 100 fresh (json dora) sample).1
signup-IsSound_example =
    signup-IsSound plain runes_of hashing up true 100 fresh (json dora) sample sample-IsSound

abbrev joined_db : Db
joined_db = (signup plain runes_of hashing up true 100 fresh (json dora) sample).1

abbrev as_is : String → String
as_is token = token

-- Alice has not opened the link of her first message.
abbrev unverified : Db
unverified = record sample {
  users = record alice_row { email_verified_at = none } ∷ [];
  tokens = record { user_id = 1; token_digest = "first"; expires_at = 200; used_at = none } ∷ [];
}

unverified-SingleOpen : SingleOpen unverified
unverified-SingleOpen uid = (λ _. refl, tt)

resend_verification-SingleOpen_example :
    SingleOpen
      (resend_verification plain runes_of true up 100 "second"
        (json "alice@example.com")
        unverified).1
resend_verification-SingleOpen_example =
    resend_verification-SingleOpen plain runes_of true up 100 "second" (json "alice@example.com")
      unverified unverified-SingleOpen
