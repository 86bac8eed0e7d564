-- ===== src/Credentials.antt =====
-- internal/app/auth_validation.go: e-mail addresses and passwords.
pub mod Laws
use netriun_nexus.Prelude.{
  ℕ, String, Bool, true, false, not, List, [], ◌∷◌, Option, none, some, ltb, str_eq, ◌&&◌, ◌||◌,
  if◌then◌else◌,
}
use netriun_nexus.Text.{TextOps}

-- What the code asks of net/mail, unicode, unicode/utf8, strings.EqualFold and of lower in SQL.
pub record UnicodeOps : Type 0 where
  pub valid_string : String → Bool
  pub runes : String → List ℕ
  pub is_lower : ℕ → Bool
  pub is_upper : ℕ → Bool
  pub is_digit : ℕ → Bool
  pub is_punct : ℕ → Bool
  pub is_symbol : ℕ → Bool
  pub parse_address : String → Option String
  pub has_at : String → Bool
  pub equal_fold : String → String → Bool
  pub sql_lower : String → String

-- The four flags that the loop over the password sets.
pub record Seen : Type 0 where
  pub lower : Bool
  pub upper : Bool
  pub digit : Bool
  pub symbol : Bool

module _ (ops : TextOps) (uni : UnicodeOps) where
  open ops use {trim_space, to_lower, len}
  open uni use {
    valid_string, runes, is_lower, is_upper, is_digit, is_punct, is_symbol, parse_address, has_at,
  }

  abbrev pub is_address : String → Option String → Bool
  is_address value none = false
  is_address value (some address) = str_eq address value && has_at value

  unfoldable pub normalize_email : String → Option String
  normalize_email raw =
      let value = to_lower (trim_space raw) in
      if ltb (len value) 3 || ltb 254 (len value) || not (valid_string value)
      then none
      else if is_address value (parse_address value)
      then some value
      else none

  abbrev pub see : ℕ → Seen → Seen
  see r s =
      if is_lower r
      then record s { lower = true }
      else if is_upper r
      then record s { upper = true }
      else if is_digit r
      then record s { digit = true }
      else if is_punct r || is_symbol r
      then record s { symbol = true }
      else s

  unfoldable pub scan : List ℕ → Seen → Seen
  scan [] s = s
  scan (r ∷ rs) s = scan rs (see r s)

  unfoldable pub strong_password : String → Bool
  unfolding scan
  strong_password value =
      if ltb (len value) 10 || ltb 72 (len value) || not (valid_string value)
      then false
      else (let s =
            scan (runes value)
              (record { lower = false; upper = false; digit = false; symbol = false }) in
          s.lower && s.upper && s.digit && s.symbol)
