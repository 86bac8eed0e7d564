-- ===== src/Sessions/Limit.antt =====
-- How often `login` is asked from one address.
use netriun_nexus.Prelude.{
  ℕ, String, Bool, true, false, not, ◌≡◌, refl, sym, subst, ap, ◌∙◌, ◌≤◌, ◌<◌, ◌+◌, ◌⊎◌, inl, inr,
  ◌&&◌, List, [], ◌∷◌, arith, Bool-cases, Option, some, none, All, drop_where, count_where,
  find_passes, Result, problem, str_eq, str_eq_refl, eq_of_str_eq, ltb, require, ◌>>=◌, ◌>>◌,
}
use netriun_nexus.Store.{User}
use netriun_nexus.Text.{TextOps}
use netriun_nexus.Credentials.{UnicodeOps}
use netriun_nexus.Request.{Body, not_json, invalid, trailing, json}
use netriun_nexus.Sessions.{
  Web, Found, LoginInput, Counter, live_counter, count_of, attempted, bump, candidate, checked,
  sign_in, login, start_session, establish_session,
}

-- A request of `login`, with the second at which it comes.
pub record Attempt : Type 0 where
  pub now : ℕ
  pub ip : String
  pub token : String
  pub body : Body LoginInput
  pub down : ℕ → Bool

module _ (key : String) (begin : ℕ) where
  abbrev pub InWindow : ℕ → Type 0
  InWindow t = (begin ≤ t) × (t < begin + 300)

  -- No counter of the key lives in the window, or one lives through it, of `n` at least.
  abbrev Quiet : List Counter → Type 0
  Quiet cs = (t : ℕ) → InWindow t → live_counter key t cs ≡ none

  abbrev Counts : ℕ → List Counter → Type 0
  Counts n cs =
      (c : Counter) × (n ≤ c.count) × ((t : ℕ) → InWindow t → live_counter key t cs ≡ some c)

  abbrev Counting : ℕ → List Counter → Type 0
  Counting n cs = (Quiet cs × (n ≡ 0)) ⊎ Counts n cs

  -- What is over at the beginning stays over.
  Quiet-later : (cs : List Counter) → live_counter key begin cs ≡ none → Quiet cs
  Quiet-later [] h t w = refl
  Quiet-later (c ∷ cs) h t w = elim (Bool-cases (str_eq c.key key && ltb begin c.expires_at)) [
    | inl e ↦ let found : some c ≡ none = rw e at h in ground arith
    | inr e ↦
        let off : (str_eq c.key key && ltb t c.expires_at) ≡ false = ground arith in
        rw off (Quiet-later cs (rw e at h) t w)
  ]

  -- Other keys are counted apart.
  apart :
      (other : String) (t : ℕ) (cs : List Counter)
      → str_eq other key ≡ false
      → live_counter key t (drop_where (λ c. str_eq c.key other) cs) ≡ live_counter key t cs
  apart other t [] e = refl
  apart other t (c ∷ cs) e = elim (Bool-cases (str_eq c.key other)) [
    | inl k ↦
        let same = eq_of_str_eq c.key other k in
        let off : str_eq c.key key ≡ false = ap (λ x. str_eq x key) same ∙ e in
        rw (k, off) (apart other t cs e)
    | inr k ↦ rw k (ground (arith, apart other t cs e))
  ]

  other_key :
      (other : String) (now t : ℕ) (web : Web)
      → str_eq other key ≡ false
      → live_counter key t (bump other now web).counters ≡ live_counter key t web.counters
  unfolding bump
  other_key other now t web e = other_counter (live_counter other now web.counters)
    where
      other_counter :
          (o : Option Counter)
          → live_counter key t
              (attempted other now o ∷ drop_where (λ c. str_eq c.key other) web.counters)
            ≡ live_counter key t web.counters
      other_counter none = rw e (apart other t web.counters e)
      other_counter (some c) = rw e (apart other t web.counters e)

  within : (now t : ℕ) → InWindow now → InWindow t → ltb t (now + 300) ≡ true
  within now t w v = ground arith

  alive :
      (c : Counter) (t : ℕ) (cs : List Counter)
      → live_counter key t cs ≡ some c
      → ltb t c.expires_at ≡ true
  alive c t cs h =
      let both = find_passes (λ x. str_eq x.key key && ltb t x.expires_at) cs c h in ground arith

  -- An attempt of the key in the window counts.
  own_key :
      (now n : ℕ) (web : Web)
      → InWindow now
      → Counting n web.counters
      → Counts (n + 1) (bump key now web).counters
  unfolding bump
  own_key now n web w (inl (quiet, z)) = (
    attempted key now none,
    ground arith,
    λ t v. rw (quiet now w, str_eq_refl key, within now t w v) refl,
  )
  own_key now n web w (inr (c, le, lives)) = (
    attempted key now (some c),
    ground arith,
    λ t v. rw (lives now w, str_eq_refl key, alive c t web.counters (lives t v)) refl,
  )

  other-Counting :
      (other : String) (now n : ℕ) (web : Web)
      → str_eq other key ≡ false
      → Counting n web.counters
      → Counting n (bump other now web).counters
  other-Counting other now n web e (inl (quiet, z)) =
      inl (λ t v. other_key other now t web e ∙ quiet t v, z)
  other-Counting other now n web e (inr (c, le, lives)) =
      inr (c, le, λ t v. other_key other now t web e ∙ lives t v)

  Counts-mono : (m n : ℕ) (cs : List Counter) → n ≤ m → Counts m cs → Counts n cs
  Counts-mono m n cs le (c, h, lives) = (c, ground arith, lives)

  Counting-mono : (m n : ℕ) (cs : List Counter) → n ≤ m → Counting m cs → Counting n cs
  Counting-mono m n cs le (inl (quiet, z)) = inl (quiet, ground arith)
  Counting-mono m n cs le (inr k) = inr (Counts-mono m n cs le k)

module _ (ops : TextOps) (uni : UnicodeOps) (digest : String → String)
    (compare_hash : (hash password : String) → Bool) where
  unfoldable pub attempt : Attempt → Web → Result User × Web
  attempt a web = login ops uni digest compare_hash a.down a.now a.ip a.token a.body web

  -- Attempts, the first one first.
  unfoldable pub after : List Attempt → Web → Web
  after [] web = web
  after (a ∷ rest) web = after rest (attempt a web).1

  -- An attempt from the address that Redis counts.
  abbrev pub counts : (ip : String) → Attempt → Bool
  counts ip a = not (a.down 0) && str_eq a.ip ip

  start_session-counters :
      (redis_down db_down : Bool) (key action : String) (u : User) (web : Web)
      → (start_session redis_down db_down key u action web).1.counters ≡ web.counters
  unfolding start_session establish_session
  start_session-counters true db_down key action u web = refl
  start_session-counters false true key action u web = refl
  start_session-counters false false key action u web = refl

  abbrev passed : (down : ℕ → Bool) (token : String) → Found → Web → Result User × Web
  passed down token f =
      require f.verified 403 "Verify your email before signing in"
      >> (require (not (f.sso_required && not f.signed.is_owner)) 403
            "This workspace requires SSO; use its identity provider to sign in"
          >> start_session (down 2) (down 3) (digest token) f.signed "auth.login")

  found-counters :
      (down : ℕ → Bool) (token password : String) (o : Option Found) (web : Web)
      → ((checked ops uni digest compare_hash o password >>= passed down token) web).1.counters
        ≡ web.counters
  found-counters down token password none web = refl
  found-counters down token password (some f) web =
      ground
        (arith, start_session-counters (down 2) (down 3) (digest token) "auth.login" f.signed web)

  sign_in-counters :
      (down : ℕ → Bool) (token : String) (body : Body LoginInput) (web : Web)
      → (sign_in ops uni digest compare_hash down token body web).1.counters ≡ web.counters
  unfolding sign_in
  sign_in-counters down token not_json web = refl
  sign_in-counters down token invalid web = refl
  sign_in-counters down token trailing web = refl
  sign_in-counters down token (json inp) web =
      found-counters down token inp.password
        (candidate ops uni digest compare_hash (down 1) inp.email web.db) web

  attempt-counters :
      (a : Attempt) (web : Web)
      → a.down 0 ≡ false
      → (attempt a web).1.counters ≡ (bump (digest a.ip) a.now web).counters
  unfolding login attempt
  attempt-counters a web up =
      elim (Bool-cases
        (ltb 20 (count_of (digest a.ip) a.now (bump (digest a.ip) a.now web).counters))) [
          | inl e ↦ rw (up, e) refl
          | inr e ↦
              rw (up, e) (sign_in-counters a.down a.token a.body (bump (digest a.ip) a.now web))
        ]

  attempt_down : (a : Attempt) (web : Web) → a.down 0 ≡ true → (attempt a web).1 ≡ web
  unfolding login attempt
  attempt_down a web down = rw down refl

  module _ (ip : String) (begin : ℕ) where
    abbrev State : ℕ → Web → Type 0
    State n web = Counting (digest ip) begin n web.counters

    counted_attempt :
        (a : Attempt) (n : ℕ) (web : Web)
        → InWindow (digest ip) begin a.now
        → counts ip a ≡ true
        → State n web
        → State (n + 1) (attempt a web).1
    counted_attempt a n web w h k =
        let same = eq_of_str_eq a.ip ip (ground arith) in
        rw (attempt-counters a web (ground arith), same)
          (inr (own_key (digest ip) begin a.now n web w k))

    other_attempt :
        (a : Attempt) (n : ℕ) (web : Web)
        → InWindow (digest ip) begin a.now
        → State n web
        → State n (attempt a web).1
    other_attempt a n web w k = elim (Bool-cases (a.down 0)) [
      | inl e ↦ rw (attempt_down a web e) k
      | inr e ↦ elim (Bool-cases (str_eq (digest a.ip) (digest ip))) [
        | inr d ↦
            rw (attempt-counters a web e)
              (other-Counting (digest ip) begin (digest a.ip) a.now n web d k)
        | inl d ↦
            let same = eq_of_str_eq (digest a.ip) (digest ip) d in
            rw (attempt-counters a web e, same)
              (inr (
                Counts-mono (digest ip) begin (n + 1) n _ (ground arith)
                  (own_key (digest ip) begin a.now n web w k)))
      ]
    ]

    counted_all :
        (earlier : List Attempt) (n : ℕ) (web : Web)
        → All (λ a. InWindow (digest ip) begin a.now) earlier
        → State n web
        → State (n + count_where (counts ip) earlier) (after earlier web)
    unfolding after
    counted_all [] n web w k = Counting-mono (digest ip) begin n _ _ (ground arith) k
    counted_all (a ∷ earlier) n web (w, ws) k = elim (Bool-cases (counts ip a)) [
      | inl e ↦ rw e (
          Counting-mono (digest ip) begin (n + 1 + count_where (counts ip) earlier) _ _
            (ground arith)
            (counted_all earlier (n + 1) (attempt a web).1 ws (counted_attempt a n web w e k)))
      | inr e ↦ rw e (counted_all earlier n (attempt a web).1 ws (other_attempt a n web w k))
    ]

    limit_met :
        (last : Attempt) (web : Web)
        → last.down 0 ≡ false
        → ltb 20 (count_of (digest last.ip) last.now (bump (digest last.ip) last.now web).counters)
          ≡ true
        → attempt last web ≡ (
          problem 429 "Too many attempts; try again in five minutes",
          bump (digest last.ip) last.now web,
        )
    unfolding login attempt
    limit_met last web up over = rw (up, over) refl

    over_limit :
        (now n : ℕ) (web : Web)
        → InWindow (digest ip) begin now
        → 20 ≤ n
        → State n web
        → ltb 20 (count_of (digest ip) now (bump (digest ip) now web).counters) ≡ true
    over_limit now n web w many k =
        let (c, le, lives) = own_key (digest ip) begin now n web w k in
        rw (lives now w) (ground arith)

    -- Where no counter of an address is left from before, and 20 or more attempts from it, among
    -- whatever others, were counted in less than 300 seconds from then, a further attempt in that time
    -- is answered 429 whatever it carries, the correct password included, and leaves the sessions and
    -- the database as they were.
    pub login-limit :
        (earlier : List Attempt) (last : Attempt) (web : Web)
        → live_counter (digest ip) begin web.counters ≡ none
        → All (λ a. InWindow (digest ip) begin a.now) earlier
        → InWindow (digest ip) begin last.now
        → last.ip ≡ ip
        → last.down 0 ≡ false
        → 20 ≤ count_where (counts ip) earlier
        → ((attempt last (after earlier web)).0
            ≡ problem 429 "Too many attempts; try again in five minutes")
          × ((attempt last (after earlier web)).1.sessions ≡ (after earlier web).sessions)
          × ((attempt last (after earlier web)).1.db ≡ (after earlier web).db)
    unfolding bump
    login-limit earlier last web quiet ws w same up many =
        let total = 0 + count_where (counts ip) earlier in
        let unused : State 0 web = inl (Quiet-later (digest ip) begin web.counters quiet, refl) in
        let over =
          over_limit last.now total (after earlier web) w (ground arith)
            (counted_all earlier 0 web ws unused) in
        let e = limit_met last (after earlier web) up (
          subst
            (λ i.
              ltb 20 (
                count_of (digest i) last.now
                  (bump (digest i) last.now (after earlier web)).counters)
              ≡ true)
            (sym same) over) in
        (ap (λ r. r.0) e, ap (λ r. r.1.sessions) e, ap (λ r. r.1.db) e)
