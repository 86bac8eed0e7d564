-- ===== src/Tests/Settings.antt =====
-- A configuration that loads.
use netriun_nexus.Prelude.{String, true, false, [], ◌∷◌, some, str_eq, if◌then◌else◌}
use netriun_nexus.Request.{positive}
use netriun_nexus.Config.{ConfigOps, RuntimeConfig, Environment, Url}

abbrev console : Url
console = record {
  scheme = "https";
  host = "nexus.example.com";
  has_user = false;
  path = "";
  raw_query = "";
  fragment = "";
  text = "https://nexus.example.com";
}

-- Networks are texts here.
abbrev system : ConfigOps String
system = record {
  trim_space = λ s. s;
  trim_slash = λ s. s;
  split = λ s. s ∷ [];
  parse_port = λ s. positive 587;
  parse_url = λ s. some console;
  parse_bool = λ s. some true;
  with_bits = λ s. s;
  parse_cidr = λ s. some s;
}

abbrev environment : Environment
environment name = if str_eq name "TRUSTED_PROXY_CIDRS" then "10.0.0.0/8" else "set"

abbrev loaded : RuntimeConfig String
loaded = record {
  database_url = "set";
  redis_url = "set";
  encryption_key = "set";
  origin = "https://nexus.example.com";
  secure_cookies = true;
  trusted_proxies = "10.0.0.0/8" ∷ [];
  smtp_host = "set";
  smtp_port = "set";
  smtp_username = "set";
  smtp_password = "set";
  smtp_from_address = "set";
  smtp_from_name = "set";
}
