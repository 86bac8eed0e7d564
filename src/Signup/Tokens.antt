-- ===== src/Signup/Tokens.antt =====
-- The open verification tokens of a user.
use netriun_nexus.Prelude.{
  ℕ, String, Bool, true, false, ◌≡◌, refl, sym, List, [], ◌∷◌, arith, any, change, str_eq,
  Bool-cases, inl, inr, Option, some, none, eq_of_==, AtMostOne, AtMostOne-snoc,
}
use netriun_nexus.Store.{Account, VerificationToken, Db}
use netriun_nexus.Text.{TextOps}
use netriun_nexus.Credentials.{UnicodeOps, normalize_email}
use netriun_nexus.Users.{is_open, use_tokens, add_token}
use netriun_nexus.Request.{Body, not_json, invalid, trailing, json}
use netriun_nexus.Signup.Resend.{
  is_verified, replace_token, resend_to, resend_address, resend_verification,
}

-- Of every user's tokens, one at most can still be used.
abbrev pub SingleOpen : Db → Type 0
SingleOpen db = (uid : ℕ) → AtMostOne (is_open uid) db.tokens

abbrev closed : ℕ → VerificationToken → VerificationToken
closed now t = record t { used_at = some now }

none_open :
    (uid now : ℕ) (ts : List VerificationToken)
    → any (is_open uid) (change (is_open uid) (closed now) ts) ≡ false
none_open uid now [] = refl
none_open uid now (t ∷ ts) = ground (arith, none_open uid now ts)

fewer_open :
    (uid other now : ℕ) (ts : List VerificationToken)
    → any (is_open other) ts ≡ false
    → any (is_open other) (change (is_open uid) (closed now) ts) ≡ false
fewer_open uid other now [] h = refl
fewer_open uid other now (t ∷ ts) h = elim (Bool-cases (is_open uid t)) [
  | inl e ↦ ground (arith, fewer_open uid other now ts)
  | inr e ↦ ground (arith, fewer_open uid other now ts)
]

closed-AtMostOne :
    (uid other now : ℕ) (ts : List VerificationToken)
    → AtMostOne (is_open other) ts
    → AtMostOne (is_open other) (change (is_open uid) (closed now) ts)
closed-AtMostOne uid other now [] u = tt
closed-AtMostOne uid other now (t ∷ ts) (g, u) = elim (Bool-cases (is_open uid t)) [
  | inl e ↦ rw e (λ k. ground arith, closed-AtMostOne uid other now ts u)
  | inr e ↦ rw e (λ k. fewer_open uid other now ts (g k), closed-AtMostOne uid other now ts u)
]

use_tokens-SingleOpen : (now uid : ℕ) (db : Db) → SingleOpen db → SingleOpen (use_tokens now uid db)
unfolding use_tokens
use_tokens-SingleOpen now uid db s other = closed-AtMostOne uid other now db.tokens (s other)

add_token-SingleOpen :
    (now uid : ℕ) (digest : String) (db : Db)
    → SingleOpen db
    → SingleOpen (add_token now uid digest (use_tokens now uid db)).1
unfolding add_token use_tokens
add_token-SingleOpen now uid digest db s other =
    elim (Bool-cases (any (λ t. str_eq t.token_digest digest) (use_tokens now uid db).tokens)) [
      | inl e ↦ rw e (closed-AtMostOne uid other now db.tokens (s other))
      | inr e ↦ rw e (
          AtMostOne-snoc _ (change (is_open uid) (closed now) db.tokens) _
            (λ k.
              let same = eq_of_== uid other (ground arith) in
              rw (sym same) (none_open uid now db.tokens))
            (closed-AtMostOne uid other now db.tokens (s other)))
    ]

replace_token-SingleOpen :
    (down : ℕ → Bool) (now : ℕ) (digest : String) (uid : ℕ) (db : Db)
    → SingleOpen db
    → SingleOpen (replace_token down now digest uid db)
unfolding replace_token
replace_token-SingleOpen down now digest uid db s = elim (Bool-cases (down 1)) [
  | inl e ↦ rw e s
  | inr e ↦ elim (Bool-cases (down 2)) [
    | inl k ↦ rw (e, k) (use_tokens-SingleOpen now uid db s)
    | inr k ↦ rw (e, k) (add_token-SingleOpen now uid digest db s)
  ]
]

resend_to-SingleOpen :
    (down : ℕ → Bool) (now : ℕ) (digest : String) (o : Option Account) (db : Db)
    → SingleOpen db
    → SingleOpen (resend_to down now digest o db)
resend_to-SingleOpen down now digest none db s = s
resend_to-SingleOpen down now digest (some x) db s = elim (Bool-cases (is_verified x)) [
  | inl e ↦ rw e s
  | inr e ↦ rw e (replace_token-SingleOpen down now digest x.id db s)
]

module _ (ops : TextOps) (uni : UnicodeOps) where
  resend_address-SingleOpen :
      (down : ℕ → Bool) (now : ℕ) (digest : String) (o : Option String) (db : Db)
      → SingleOpen db
      → SingleOpen (resend_address ops uni down now digest o db)
  resend_address-SingleOpen down now digest none db s = s
  resend_address-SingleOpen down now digest (some email) db s = elim (Bool-cases (down 0)) [
    | inl e ↦ rw e s
    | inr e ↦ rw e (resend_to-SingleOpen down now digest _ db s)
  ]

  -- Where every user has one open verification token at most, this holds after a request to send the
  -- verification again too, whatever the request and whatever statements fail.
  pub resend_verification-SingleOpen :
      (allowed : Bool) (down : ℕ → Bool) (now : ℕ) (digest : String) (body : Body String) (db : Db)
      → SingleOpen db
      → SingleOpen (resend_verification ops uni allowed down now digest body db).1
  unfolding resend_verification
  resend_verification-SingleOpen true down now digest not_json db s = s
  resend_verification-SingleOpen true down now digest invalid db s = s
  resend_verification-SingleOpen true down now digest trailing db s = s
  resend_verification-SingleOpen true down now digest (json address) db s =
      resend_address-SingleOpen down now digest (normalize_email ops uni address) db s
  resend_verification-SingleOpen false down now digest body db s = s
