-- ===== src/Tests/People.antt =====
-- Users, groups, sessions and the selection of accounts.
use mathlib.Core.List.{Memᴰ}
use netriun_nexus.Prelude.{
  ℕ, String, Bool, true, false, ◌≡◌, refl, ◌↔◌, All, List, [], ◌∷◌, ◌++◌, ◌&&◌, ◌==◌, str_eq,
  if◌then◌else◌, arith, any, leb, Option, some, none, ok, problem,
}
use netriun_nexus.Store.{admin}
use netriun_nexus.Text.{TextOps}
use netriun_nexus.Request.{json, positive, malformed, Parsed}
use netriun_nexus.Credentials.{strong_password, normalize_email}
use netriun_nexus.Credentials.Laws.{
  strong_password_lem, normalize_email_iff, IsKept, upper_only, digit_only, symbol_only,
}
use netriun_nexus.Users.{UserInput, save_user, delete_user, update_user, Profile}
use netriun_nexus.Users.Owners.{IsSound, save_user-IsSound, delete_user-owner}
use netriun_nexus.Sessions.{
  Web, Carried, LoginInput, Session, expired, authenticate, start_session, sign_in, logout,
  user_with_id, user_with_email, establish_session,
}
use netriun_nexus.Sessions.Revocation.{update_user-revokes}
use netriun_nexus.Sessions.Login.{sign_in-Admitted, Admitted}
use netriun_nexus.Sessions.Limit.{Attempt, InWindow, attempt, after, login-limit}
use netriun_nexus.ClientIp.{NetOps, client_ip, parse_chain}
use netriun_nexus.ClientIp.Laws.{client_ip-right_most}
use netriun_nexus.Selection.{requested_account_ids, provider_count, selection, select, distinct}
use netriun_nexus.Selection.Laws.{Within, requested_account_ids-Within}
use netriun_nexus.Groups.{save_membership, delete_membership}
use netriun_nexus.Groups.Links.{Linked, save_membership-Linked, delete_membership-Linked}
use netriun_nexus.Tests.Sample.{plain, runes_of, up, alice, bob, alice_row, bob_row, sample}

strong_password_example : strong_password plain runes_of "aA1!aA1!aA1!" ≡ (
    leb 10 12
    && leb 12 72
    && true
    && any runes_of.is_lower (1 ∷ 2 ∷ 3 ∷ 4 ∷ [])
    && any (upper_only plain runes_of) (1 ∷ 2 ∷ 3 ∷ 4 ∷ [])
    && any (digit_only plain runes_of) (1 ∷ 2 ∷ 3 ∷ 4 ∷ [])
    && any (symbol_only plain runes_of) (1 ∷ 2 ∷ 3 ∷ 4 ∷ []))
strong_password_example = strong_password_lem plain runes_of "aA1!aA1!aA1!"

-- Trims and lowers the one address below.
abbrev lowering : TextOps
lowering = record plain {
  trim_space = λ s. if str_eq s " Bob@Example.com " then "Bob@Example.com" else s;
  to_lower = λ s. if str_eq s "Bob@Example.com" then "bob@example.com" else s;
}

normalize_email_iff_example :
    (normalize_email lowering runes_of " Bob@Example.com " ≡ some "bob@example.com")
    ↔ IsKept lowering runes_of " Bob@Example.com " "bob@example.com"
normalize_email_iff_example =
    normalize_email_iff lowering runes_of " Bob@Example.com " "bob@example.com"

stored_address : normalize_email lowering runes_of " Bob@Example.com " ≡ some "bob@example.com"
unfolding normalize_email
stored_address = refl

pub sample-IsSound : IsSound sample
sample-IsSound = record {
  owners = (refl, (refl, tt));
  old = (ground arith, (ground arith, tt));
  unique = λ id. (λ h. ground arith, (λ h. refl, tt));
}

abbrev carol : UserInput
carol = record {
  username = "carol";
  email = "carol@example.com";
  password = "aA1!aA1!aA1!";
  role = "user";
}

abbrev pub hashing : String → Option String
hashing password = some "hash"

save_user-IsSound_example :
    IsSound
      (save_user plain runes_of up true hashing 100 "token" alice true malformed
        (json carol)
        sample).1
save_user-IsSound_example =
    save_user-IsSound plain runes_of up true hashing 100 "token" alice true malformed (json carol)
      sample sample-IsSound

delete_user-owner_example : Memᴰ alice_row (delete_user up alice (positive 2) sample).1.users
delete_user-owner_example =
    delete_user-owner up alice (positive 2) alice_row sample refl (Memᴰ.head refl)

abbrev open_session : Session
open_session = record {
  key = "d";
  user_id = 2;
  version = 4;
  sso_provider = "";
  sso_protocol = "";
  sso_subject = "";
}

abbrev web : Web
web = record { db = sample; sessions = open_session ∷ []; counters = [] }

abbrev digest : String → String
digest token = "d"

abbrev carried : Carried
carried = record { bearer = some "t"; cookie = none; legacy_cookie = none }

abbrev demoted : Profile
demoted = record { username = "bob"; email = "bob@example.com"; role = admin }

bob_updated : (update_user plain runes_of 1 2 "" demoted sample).0 ≡ ok tt
unfolding update_user
bob_updated = refl

update_user-revokes_example :
    authenticate digest false false carried
      (record web { db = (update_user plain runes_of 1 2 "" demoted sample).1 })
    ≡ problem 401 expired
update_user-revokes_example =
    update_user-revokes plain runes_of digest false false carried web open_session bob_row 1 ""
      demoted sample-IsSound refl refl refl (ground arith) bob_updated

signed_out : (logout digest false carried web).0 ≡ ok tt
unfolding logout
signed_out = refl

abbrev right_password : (hash password : String) → Bool
right_password hash password = str_eq password "secret"

abbrev asked : LoginInput
asked = record { email = "bob@example.com"; password = "secret" }

-- One wrong password a second, from one address.
abbrev guess : ℕ → Attempt
guess now = record {
  now = now;
  ip = "10.0.0.9";
  token = "t";
  body = json (record { email = "bob@example.com"; password = "guess" });
  down = up;
}

abbrev guesses : List Attempt
guesses =
    guess 0
    ∷ guess 1
    ∷ guess 2
    ∷ guess 3
    ∷ guess 4
    ∷ guess 5
    ∷ guess 6
    ∷ guess 7
    ∷ guess 8
    ∷ guess 9
    ∷ guess 10
    ∷ guess 11
    ∷ guess 12
    ∷ guess 13
    ∷ guess 14
    ∷ guess 15
    ∷ guess 16
    ∷ guess 17
    ∷ guess 18
    ∷ guess 19
    ∷ []

guesses-InWindow : All (λ (a : Attempt). InWindow "d" 0 a.now) guesses
guesses-InWindow = ground arith

abbrev right_one : Attempt
right_one = record (guess 20) { body = json asked }

abbrev guessed : Web
guessed = after plain runes_of digest right_password guesses web

login-limit_example :
    ((attempt plain runes_of digest right_password right_one guessed).0
      ≡ problem 429 "Too many attempts; try again in five minutes")
    × ((attempt plain runes_of digest right_password right_one guessed).1.sessions
        ≡ guessed.sessions)
    × ((attempt plain runes_of digest right_password right_one guessed).1.db ≡ guessed.db)
login-limit_example =
    login-limit plain runes_of digest right_password "10.0.0.9" 0 guesses right_one web refl
      guesses-InWindow (ground arith) refl refl (ground arith)

bob_signs_in : (sign_in plain runes_of digest right_password up "t" (json asked) web).0 ≡ ok bob
unfolding sign_in user_with_email start_session establish_session normalize_email
bob_signs_in = refl

sign_in-Admitted_example : Admitted plain runes_of digest right_password asked sample bob
sign_in-Admitted_example =
    sign_in-Admitted plain runes_of digest right_password up "t" asked web bob bob_signs_in

bob_known : user_with_id 2 sample ≡ some bob
unfolding user_with_id
bob_known = refl

-- Addresses are numbers; 1 is the proxy, which trusts itself.
abbrev net : NetOps ℕ ℕ
net = record {
  split_host_port = λ s. some s;
  parse_ip =
      λ s. if str_eq s "proxy" then some 1 else if str_eq s "client" then some 9 else some 66;
  show_ip = λ ip. if ip == 9 then "client" else "other";
  holds = λ network ip. network == ip;
  trim_space = λ s. s;
  split = λ s. "forged" ∷ "client" ∷ "proxy" ∷ [];
}

three_parsed :
    parse_chain net (1 ∷ []) ("forged" ∷ "client" ∷ "proxy" ∷ []) ≡ some ((66 ∷ []) ++ 9 ∷ 1 ∷ [])
unfolding parse_chain
three_parsed = refl

client_ip-right_most_example : client_ip net (1 ∷ []) "proxy" "forged, client, proxy" ≡ "client"
client_ip-right_most_example =
    client_ip-right_most net (1 ∷ []) "proxy" "forged, client, proxy" 1 (66 ∷ []) 9 (1 ∷ []) refl
      refl refl refl three_parsed refl (refl, tt)

abbrev parts : String → List String
parts raw = "7" ∷ "7" ∷ []

abbrev seven : String → Parsed
seven part = positive 7

seven_selected :
    (requested_account_ids plain parts seven false bob (7 ∷ []) "7,7" "" sample).0 ≡ ok (7 ∷ [])
unfolding requested_account_ids selection select distinct
seven_selected = refl

requested_account_ids-Within_example :
    Within (7 ∷ []) (7 ∷ []) × (provider_count 1 (7 ∷ []) sample ≡ 1)
requested_account_ids-Within_example =
    requested_account_ids-Within plain parts seven false bob (7 ∷ []) "7,7" "" sample (7 ∷ []) refl
      seven_selected

sample-Linked : Linked sample
sample-Linked = (refl, tt)

save_membership-Linked_example :
    Linked (save_membership up bob (positive 5) (positive 1) (json "viewer") sample).1
save_membership-Linked_example =
    save_membership-Linked up bob (positive 5) (positive 1) (json "viewer") sample sample-Linked

delete_membership-Linked_example :
    Linked (delete_membership up bob (positive 5) (positive 2) sample).1
delete_membership-Linked_example =
    delete_membership-Linked up bob (positive 5) (positive 2) sample sample-Linked
