-- ===== src/Config.antt =====
-- loadRuntimeConfig and parseTrustedProxies of internal/app/config.go. An error is a problem whose
-- status is not used.
pub mod Checked
use netriun_nexus.Prelude.{
  ℕ, String, Bool, true, false, not, List, [], ◌∷◌, ◌&&◌, ◌||◌, str_eq, ltb, if◌then◌else◌, any,
  Option, some, none, Result, ok, problem, Handler, pure, fail, require, row_or, ◌>>=◌, ◌>>◌,
}
use netriun_nexus.Request.{Parsed, positive, negative, malformed}

-- What url.Parse finds in a text; `has_user` is whether it names one.
pub record Url : Type 0 where
  pub scheme : String
  pub host : String
  pub has_user : Bool
  pub path : String
  pub raw_query : String
  pub fragment : String
  pub text : String

-- What the code asks of os, strings, strconv, net/url and net. The environment is the state.
pub record ConfigOps (Network : Type 0) : Type 0 where
  pub trim_space : String → String
  pub trim_slash : String → String
  pub split : String → List String
  pub parse_port : String → Parsed
  pub parse_url : String → Option Url
  pub parse_bool : String → Option Bool
  pub with_bits : String → String
  pub parse_cidr : String → Option Network

pub record RuntimeConfig (Network : Type 0) : Type 0 where
  pub database_url : String
  pub redis_url : String
  pub encryption_key : String
  pub origin : String
  pub secure_cookies : Bool
  pub trusted_proxies : List Network
  pub smtp_host : String
  pub smtp_port : String
  pub smtp_username : String
  pub smtp_password : String
  pub smtp_from_address : String
  pub smtp_from_name : String

abbrev pub Environment : Type 0
Environment = String → String

abbrev pub is_blank : String → Bool
is_blank text = str_eq text ""

abbrev pub is_port : Parsed → Bool
is_port (positive n) = not (ltb n 1 || ltb 65535 n)
is_port _ = false

abbrev pub is_origin : Url → Bool
is_origin url =
    (str_eq url.scheme "http" || str_eq url.scheme "https")
    && not (is_blank url.host)
    && not url.has_user
    && (is_blank url.path || str_eq url.path "/")
    && is_blank url.raw_query
    && is_blank url.fragment

module _ {Network : Type 0} (ops : ConfigOps Network) where
  open ops use {
    trim_space, trim_slash, split, parse_port, parse_url, parse_bool, with_bits, parse_cidr,
  }

  -- The loop; `with_bits` adds the length of the prefix to a text that is an address alone.
  unfoldable pub parse_networks : List String → Option (List Network)
  parse_networks [] = some []
  parse_networks (value ∷ values) =
      let rest = parse_networks values in
      elim (parse_cidr (with_bits (trim_space value))) [
        | none ↦ none
        | some network ↦ elim rest [ none ↦ none | some networks ↦ some (network ∷ networks) ]
      ]

  unfoldable pub parse_trusted_proxies : String → Option (List Network)
  unfolding parse_networks
  parse_trusted_proxies raw =
      if is_blank (trim_space raw) then some [] else parse_networks (split raw)

  abbrev pub variable : Environment → String → String
  variable env name = trim_space (env name)

  abbrev pub cookie_setting : String → Option Bool
  cookie_setting raw = if is_blank raw then some true else parse_bool raw

  abbrev config_of : Environment → Url → Bool → List Network → RuntimeConfig Network
  config_of env url secure proxies = record {
    database_url = variable env "DATABASE_URL";
    redis_url = variable env "REDIS_URL";
    encryption_key = variable env "ENCRYPTION_KEY";
    origin = trim_slash url.text;
    secure_cookies = secure;
    trusted_proxies = proxies;
    smtp_host = variable env "SMTP_HOST";
    smtp_port = variable env "SMTP_PORT";
    smtp_username = variable env "SMTP_USERNAME";
    smtp_password = variable env "SMTP_PASSWORD";
    smtp_from_address = variable env "SMTP_FROM_ADDRESS";
    smtp_from_name = variable env "SMTP_FROM_NAME";
  }

  abbrev pub required : List String
  required = "DATABASE_URL" ∷ "REDIS_URL" ∷ "ENCRYPTION_KEY" ∷ []

  abbrev pub required_mail : List String
  required_mail =
      "SMTP_HOST" ∷ "SMTP_PORT" ∷ "SMTP_USERNAME" ∷ "SMTP_PASSWORD" ∷ "SMTP_FROM_ADDRESS"
      ∷ "SMTP_FROM_NAME" ∷ []

  abbrev pub is_missing : Environment → List String → Bool
  is_missing env names = any (λ name. is_blank (variable env name)) names

  unfoldable pub load_runtime_config : Handler Environment (RuntimeConfig Network)
  unfolding parse_trusted_proxies
  load_runtime_config env =
      (require (not (is_missing env required)) 500
            "DATABASE_URL, REDIS_URL and ENCRYPTION_KEY are required"
          >> (require (not (is_missing env required_mail)) 500
                "SMTP_HOST, SMTP_PORT, SMTP_USERNAME, SMTP_PASSWORD, SMTP_FROM_ADDRESS and SMTP_FROM_NAME are required"
              >> (require (is_port (parse_port (variable env "SMTP_PORT"))) 500
                    "SMTP_PORT must be a valid TCP port"
                  >> (row_or (parse_url (variable env "APP_ORIGIN")) 500
                        "APP_ORIGIN must be an exact http(s) origin without a path, query or fragment"
                      >>= λ url.
                          require (is_origin url) 500
                            "APP_ORIGIN must be an exact http(s) origin without a path, query or fragment"
                          >> (row_or (cookie_setting (variable env "COOKIE_SECURE")) 500
                                "COOKIE_SECURE must be true or false"
                              >>= λ secure.
                                  require (not (str_eq url.scheme "https" && not secure)) 500
                                    "COOKIE_SECURE must be true when APP_ORIGIN uses https"
                                  >> (row_or (parse_trusted_proxies (env "TRUSTED_PROXY_CIDRS")) 500
                                        "TRUSTED_PROXY_CIDRS must be a comma-separated list of IP addresses or CIDRs"
                                      >>= λ proxies. pure (config_of env url secure proxies)))))))
        env
