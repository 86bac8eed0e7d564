-- ===== src/Sso/Replay.antt =====
-- A login that was started is finished once.
use netriun_nexus.Prelude.{
  ℕ, String, Bool, true, false, ◌≡◌, arith, any, find, str_eq, Bool-cases, Option-cases, inl, inr,
  Result, problem, Ends-bind, Keeps, keeps_rules, any-drop_self, find-none, any_of_find-none,
}
use netriun_nexus.Store.{IdentityProvider, User, Protocol, oidc}
use netriun_nexus.Credentials.{UnicodeOps}
use netriun_nexus.Sso.ProviderConfig.{SsoOps}
use netriun_nexus.Sso.Claims.{ClaimOps}
use netriun_nexus.Sso.Names.{NameOps}
use netriun_nexus.Sso.Links.{SsoIdentity}
use netriun_nexus.Sso.Login.{failed_status, failed_page}
use netriun_nexus.Sso.State.{SsoWeb, Pending, Resumed, consume_sso_state}
use netriun_nexus.Sso.Callback.{
  OidcOps, Surroundings, finish_identity, exchange_code, oidc_callback,
}

-- No state is kept under the key.
abbrev pub Spent : String → SsoWeb → Type 0
Spent key s = any (λ (x : Pending). str_eq x.key key) s.states ≡ false

module _ (ops : SsoOps) (digest : String → String) where
  consume-Spent :
      (redis_down : Bool) (down : ℕ → Bool) (token : String) (protocol : Protocol) (path : String)
      (s : SsoWeb)
      → redis_down ≡ false
      → str_eq token "" ≡ false
      → Spent (digest token) (consume_sso_state ops digest redis_down down token protocol path s).1
  unfolding consume_sso_state
  consume-Spent redis_down down token protocol path s up h =
      elim (Option-cases (find (λ (x : Pending). str_eq x.key (digest token)) s.states)) [
        | inl q ↦
            ground
              (arith, any_of_find-none (λ (x : Pending). str_eq x.key (digest token)) s.states q)
        | inr (x, q) ↦
            ground (arith, any-drop_self (λ (x : Pending). str_eq x.key (digest token)) s.states)
      ]

  consume-empty :
      (redis_down : Bool) (down : ℕ → Bool) (token : String) (protocol : Protocol) (path : String)
      (s : SsoWeb)
      → str_eq token "" ≡ true
      → consume_sso_state ops digest redis_down down token protocol path s
        ≡ (problem failed_status failed_page, s)
  unfolding consume_sso_state
  consume-empty redis_down down token protocol path s h = ground arith

  consume-refused :
      (redis_down : Bool) (down : ℕ → Bool) (token : String) (protocol : Protocol) (path : String)
      (s : SsoWeb)
      → Spent (digest token) s
      → consume_sso_state ops digest redis_down down token protocol path s
        ≡ (problem failed_status failed_page, s)
  unfolding consume_sso_state
  consume-refused redis_down down token protocol path s h =
      let gone = find-none (λ (x : Pending). str_eq x.key (digest token)) s.states h in ground arith

module _ (ops : SsoOps) (claims : ClaimOps) (uni : UnicodeOps) (names : NameOps)
    (digest : String → String) (key : String) where
  finish_identity-Spent :
      (w : Surroundings) (p : IdentityProvider) (identity : SsoIdentity)
      → Keeps (Spent key) (finish_identity ops claims uni names digest w p identity)
  unfolding finish_identity
  finish_identity-Spent w p identity = record { after = λ s h. h }

  exchange_code-Spent :
      (remote : OidcOps) (w : Surroundings) (origin code : String) (r : Resumed)
      → Keeps (Spent key) (exchange_code ops claims uni names digest remote w origin code r)
  unfolding exchange_code
  exchange_code-Spent remote w origin code r = search (keeps_rules, finish_identity-Spent) depth 16

module _ (ops : SsoOps) (claims : ClaimOps) (uni : UnicodeOps) (names : NameOps)
    (digest : String → String) (remote : OidcOps) where
  -- One callback with everything that the browser, the provider and the database answer.
  pub record Callback : Type 0 where
    pub around : Surroundings
    pub redis_down : Bool
    pub origin : String
    pub path : String
    pub code : String

  abbrev pub called : Callback → (token : String) → SsoWeb → Result User × SsoWeb
  called c token =
      oidc_callback ops claims uni names digest remote c.around c.redis_down c.origin c.path token
        c.code

  called-Spent :
      (c : Callback) (token : String) (s : SsoWeb)
      → c.redis_down ≡ false
      → str_eq token "" ≡ false
      → Spent (digest token) (called c token s).1
  unfolding oidc_callback
  called-Spent c token s up h =
      (Ends-bind s
        (consume_sso_state ops digest c.redis_down c.around.down_before token oidc c.path)
        (exchange_code ops claims uni names digest remote c.around c.origin c.code)
        (record {
          after =
              consume-Spent ops digest c.redis_down c.around.down_before token oidc c.path s up h;
        })
        (exchange_code-Spent ops claims uni names digest (digest token) remote c.around c.origin
          c.code)).after

  called-refused :
      (c : Callback) (token : String) (s : SsoWeb)
      → consume_sso_state ops digest c.redis_down c.around.down_before token oidc c.path s
        ≡ (problem failed_status failed_page, s)
      → called c token s ≡ (problem failed_status failed_page, s)
  unfolding oidc_callback
  called-refused c token s e = rw e

  -- The state of a login is good for one callback: once Redis has answered one, whatever became of
  -- it, every further callback with that state is refused and changes nothing.
  pub oidc_callback-once :
      (a b : Callback) (token : String) (s : SsoWeb)
      → a.redis_down ≡ false
      → called b token (called a token s).1
        ≡ (problem failed_status failed_page, (called a token s).1)
  oidc_callback-once a b token s up = elim (Bool-cases (str_eq token "")) [
    | inl q ↦
        called-refused b token _
          (consume-empty ops digest b.redis_down b.around.down_before token oidc b.path _ q)
    | inr q ↦ called-refused b token _ (
        consume-refused ops digest b.redis_down b.around.down_before token oidc b.path _
          (called-Spent a token s up q))
  ]
