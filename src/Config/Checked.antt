-- ===== src/Config/Checked.antt =====
-- What a configuration that the server starts with is like.
use netriun_nexus.Request.{positive}
use netriun_nexus.Prelude.{ℕ, Bool, true, false, [], ◌∷◌, ◌≡◌, ◌≢◌, ◌≤◌, ◌⊎◌, All, some}
use netriun_nexus.Config.{
  ConfigOps, RuntimeConfig, Environment, Url, is_origin, cookie_setting, parse_trusted_proxies,
}

module _ {Network : Type 0} (ops : ConfigOps Network) where
  -- An exact http or https origin, with cookies that an https origin keeps to https.
  pub record IsOrigin (url : Url) (secure : Bool) : Type 0 where
    pub scheme : (url.scheme ≡ "http") ⊎ (url.scheme ≡ "https")
    pub host : url.host ≢ ""
    pub no_user : url.has_user ≡ false
    pub no_path : (url.path ≡ "") ⊎ (url.path ≡ "/")
    pub no_query : url.raw_query ≡ ""
    pub no_fragment : url.fragment ≡ ""
    pub cookies : (url.scheme ≡ "http") ⊎ (secure ≡ true)

  -- What holds of the configuration `c` that an environment leads to: `url` is what APP_ORIGIN
  -- parses to.
  pub record IsChecked (env : Environment) (c : RuntimeConfig Network) : Type 0 where
    pub database : (c.database_url ≡ ops.trim_space (env "DATABASE_URL")) × (c.database_url ≢ "")
    pub redis : (c.redis_url ≡ ops.trim_space (env "REDIS_URL")) × (c.redis_url ≢ "")
    pub key : (c.encryption_key ≡ ops.trim_space (env "ENCRYPTION_KEY")) × (c.encryption_key ≢ "")
    pub mail :
        All
          (λ name. ops.trim_space (env name) ≢ "")
          ("SMTP_HOST" ∷ "SMTP_PORT" ∷ "SMTP_USERNAME" ∷ "SMTP_PASSWORD" ∷ "SMTP_FROM_ADDRESS"
            ∷ "SMTP_FROM_NAME" ∷ [])
    pub port : (n : ℕ) × (ops.parse_port c.smtp_port ≡ positive n) × (1 ≤ n) × (n ≤ 65535)
    pub url : Url
    pub parsed : ops.parse_url (ops.trim_space (env "APP_ORIGIN")) ≡ some url
    pub is_origin : IsOrigin url c.secure_cookies
    pub cookie : cookie_setting ops (ops.trim_space (env "COOKIE_SECURE")) ≡ some c.secure_cookies
    pub origin : c.origin ≡ ops.trim_slash url.text
    pub proxies : parse_trusted_proxies ops (env "TRUSTED_PROXY_CIDRS") ≡ some c.trusted_proxies
