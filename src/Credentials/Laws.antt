-- ===== src/Credentials/Laws.antt =====
-- What an accepted password contains, and what a stored address looks like.
use netriun_nexus.Prelude.{
  ℕ, String, Bool, false, true, not, List, [], ◌∷◌, Option, none, some, ◌↔◌, ◌≤◌, ltb, sym, ap,
  subst, eq_of_str_eq, str_eq_refl, leb, ◌&&◌, ◌||◌, ◌≡◌, refl, sym, ◌∙◌, any, arith,
}
use netriun_nexus.Text.{TextOps}
use netriun_nexus.Credentials.{
  UnicodeOps, Seen, normalize_email, is_address, scan, see, strong_password,
}

module _ (ops : TextOps) (uni : UnicodeOps) where
  open ops use {trim_space, to_lower, len}
  open uni use {
    valid_string, runes, is_lower, is_upper, is_digit, is_punct, is_symbol, parse_address, has_at,
  }

  abbrev pub upper_only : ℕ → Bool
  upper_only r = not (is_lower r) && is_upper r

  abbrev pub digit_only : ℕ → Bool
  digit_only r = not (is_lower r) && not (is_upper r) && is_digit r

  abbrev pub symbol_only : ℕ → Bool
  symbol_only r =
      not (is_lower r) && not (is_upper r) && not (is_digit r) && (is_punct r || is_symbol r)

  scan-lower : (rs : List ℕ) (s : Seen) → (scan ops uni rs s).lower ≡ (s.lower || any is_lower rs)
  unfolding scan
  scan-lower [] s = ground arith
  scan-lower (r ∷ rs) s = scan-lower rs (see ops uni r s) ∙ ground arith

  scan-upper : (rs : List ℕ) (s : Seen) → (scan ops uni rs s).upper ≡ (s.upper || any upper_only rs)
  unfolding scan
  scan-upper [] s = ground arith
  scan-upper (r ∷ rs) s = scan-upper rs (see ops uni r s) ∙ ground arith

  scan-digit : (rs : List ℕ) (s : Seen) → (scan ops uni rs s).digit ≡ (s.digit || any digit_only rs)
  unfolding scan
  scan-digit [] s = ground arith
  scan-digit (r ∷ rs) s = scan-digit rs (see ops uni r s) ∙ ground arith

  scan-symbol :
      (rs : List ℕ) (s : Seen) → (scan ops uni rs s).symbol ≡ (s.symbol || any symbol_only rs)
  unfolding scan
  scan-symbol [] s = ground arith
  scan-symbol (r ∷ rs) s = scan-symbol rs (see ops uni r s) ∙ ground arith

  -- A password is accepted exactly when it has 10 to 72 bytes of valid UTF-8 and a rune of each of
  -- the four kinds, each rune taken as the first kind in the order of the switch that it belongs to.
  pub strong_password_lem :
      (value : String)
      → strong_password ops uni value ≡ (
          leb 10 (len value)
          && leb (len value) 72
          && valid_string value
          && any is_lower (runes value)
          && any upper_only (runes value)
          && any digit_only (runes value)
          && any symbol_only (runes value))
  unfolding strong_password
  strong_password_lem value =
      let start : Seen = record { lower = false; upper = false; digit = false; symbol = false } in
      rw
        (
          scan-lower (runes value) start,
          scan-upper (runes value) start,
          scan-digit (runes value) start,
          scan-symbol (runes value) start,
        )
        (ground arith)

  -- The addresses that the code keeps.
  pub record IsKept (raw value : String) : Type 0 where
    pub normal : value ≡ to_lower (trim_space raw)
    pub low : 3 ≤ len value
    pub high : len value ≤ 254
    pub valid : valid_string value ≡ true
    pub bare : parse_address value ≡ some value
    pub at : has_at value ≡ true

  addressed :
      (value : String) (o : Option String)
      → is_address ops uni value o ≡ true
      → (o ≡ some value) × (has_at value ≡ true)
  addressed value none h = ground arith
  addressed value (some address) h =
      (ap some (eq_of_str_eq address value (ground arith)), ground arith)

  kept : (raw value : String) → normalize_email ops uni raw ≡ some value → IsKept raw value
  unfolding normalize_email
  kept raw value h =
      let text = to_lower (trim_space raw) in
      let same : text ≡ value = ground arith in
      let (bare, at) = addressed text (parse_address text) (ground arith) in
      subst (IsKept raw) same (record {
        normal = refl;
        low = ground arith;
        high = ground arith;
        valid = ground arith;
        bare = bare;
        at = at;
      })

  accepted : (raw value : String) → IsKept raw value → normalize_email ops uni raw ≡ some value
  unfolding normalize_email
  accepted raw value k =
      let low = k.low in
      let high = k.high in
      let sized : (ltb (len value) 3 || ltb 254 (len value)) ≡ false = ground arith in
      rw (sym k.normal, sized, k.valid, k.bare, str_eq_refl value, k.at) refl

  -- An address is accepted, and kept as a text, exactly when that text is the request's, trimmed and
  -- in lower case, has 3 to 254 bytes of valid UTF-8, and net/mail reads it as a bare address, the
  -- same text, with an @ in it.
  pub normalize_email_iff :
      (raw value : String) → (normalize_email ops uni raw ≡ some value) ↔ IsKept raw value
  normalize_email_iff raw value = (kept raw value, accepted raw value)
