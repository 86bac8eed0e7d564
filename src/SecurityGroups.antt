-- ===== src/SecurityGroups.antt =====
-- Security group rules of internal/app/security_groups.go: the check of a rule, and the handlers that
-- create and delete one. What is sent to the provider is a list of calls.
pub mod Audited
use netriun_nexus.Prelude.{
  ℕ, ℤ, pos, negsuc, to_ℕ, String, Bool, true, false, not, List, [], ◌∷◌, ◌++◌, ◌&&◌, ◌||◌, ◌==◌,
  str_eq, ltb, if◌then◌else◌, find, Option, some, none, Result, ok, problem, Handler, pure, fail,
  require, ◌>>=◌, ◌>>◌,
}
use netriun_nexus.Store.{User, CloudAccount, Provider, alibaba, Db, named}
use netriun_nexus.Text.{TextOps}
use netriun_nexus.Policy.{account_access}
use netriun_nexus.Request.{Body, Parsed, decode, path_id, db_message, no_rows, append_entry, entry}

pub record RuleRequest : Type 0 where
  pub region : String
  pub direction : String
  pub protocol : String
  pub port_from : ℤ
  pub port_to : ℤ
  pub cidr : String
  pub policy : String
  pub priority : ℤ
  pub description : String

-- "-1/-1", or the two ports with a slash between them.
pub data PortRange : Type 0 where
  every_port : PortRange
  ports : (first last : ℕ) → PortRange

-- cloud.AlibabaSecurityGroupRuleInput; the priority is printed when it is sent.
pub record Rule : Type 0 where
  pub direction : String
  pub protocol : String
  pub port_range : PortRange
  pub cidr : String
  pub policy : String
  pub priority : ℕ
  pub description : String

pub data Call : Type 0 where
  authorize : (account : ℕ) (region group : String) → Rule → Call
  revoke : (account : ℕ) (region group rule direction : String) → Call

pub record World : Type 0 where
  pub db : Db
  pub sent : List Call

-- `x < n` and `x > n`.
abbrev pub below : ℤ → ℕ → Bool
below (pos m) n = ltb m n
below (negsuc m) n = true

abbrev pub above : ℤ → ℕ → Bool
above (pos m) n = ltb n m
above (negsuc m) n = false

-- `x < y`.
abbrev pub is_less : ℤ → ℤ → Bool
is_less x (pos n) = below x n
is_less (pos m) (negsuc n) = false
is_less (negsuc m) (negsuc n) = ltb n m

abbrev pub has_ports : String → Bool
has_ports protocol = str_eq protocol "tcp" || str_eq protocol "udp"

abbrev pub bad_ports : ℤ → ℤ → Bool
bad_ports first last = below first 1 || above first 65535 || is_less last first || above last 65535

-- net.ParseCIDR, as whether it reads a text.
module _ (ops : TextOps) (is_cidr : String → Bool) where
  open ops use {trim_space, to_lower, matches, rune_count}

  abbrev pub region_pattern : String
  region_pattern = "^[a-z0-9][a-z0-9-]{0,62}$"

  abbrev pub clean : RuleRequest → RuleRequest
  clean inp = record inp {
    region = trim_space inp.region;
    direction = to_lower (trim_space inp.direction);
    protocol = to_lower (trim_space inp.protocol);
    cidr = trim_space inp.cidr;
    policy = to_lower (trim_space inp.policy);
    description = trim_space inp.description;
  }

  abbrev rule_of : PortRange → RuleRequest → Rule
  rule_of range inp = record {
    direction = inp.direction;
    protocol = inp.protocol;
    port_range = range;
    cidr = inp.cidr;
    policy = inp.policy;
    priority = to_ℕ inp.priority;
    description = inp.description;
  }

  abbrev is_direction : String → Bool
  is_direction text = str_eq text "ingress" || str_eq text "egress"

  -- A message is a problem of status 400.
  unfoldable pub checked_rule : {S : Type 0} → RuleRequest → S → Result Rule × S
  checked_rule inp = do
    require (matches region_pattern inp.region) 400 "Select a valid Alibaba Cloud region"
    require (is_direction inp.direction) 400 "Direction must be ingress or egress"
    require (has_ports inp.protocol || str_eq inp.protocol "icmp" || str_eq inp.protocol "all") 400
        "Protocol must be tcp, udp, icmp or all"
    require (is_cidr inp.cidr) 400 "Enter a valid IPv4 or IPv6 CIDR block"
    require (str_eq inp.policy "accept" || str_eq inp.policy "drop") 400
        "Policy must be accept or drop"
    require (not (below inp.priority 1 || above inp.priority 100)) 400
        "Priority must be between 1 and 100"
    require (not (ltb 512 (rune_count inp.description))) 400
        "Description cannot exceed 512 characters"
    require (not (has_ports inp.protocol && bad_ports inp.port_from inp.port_to)) 400
        "Use a valid port range between 1 and 65535"
    pure (
        rule_of
          (if has_ports inp.protocol
            then ports (to_ℕ inp.port_from) (to_ℕ inp.port_to)
            else every_port)
          inp)

  unfoldable pub validate_security_group_rule : {S : Type 0} → RuleRequest → S → Result Rule × S
  unfolding checked_rule
  validate_security_group_rule raw = checked_rule (clean raw)

  abbrev is_alibaba : Provider → Bool
  is_alibaba alibaba = true
  is_alibaba _ = false

  abbrev provider_row : (down : Bool) → ℕ → ℕ → Handler World CloudAccount
  provider_row down workspace id world =
      if down
      then (problem 409 db_message, world)
      else elim (find (λ (a : CloudAccount). a.id == id && a.workspace_id == workspace)
          world.db.cloud_accounts) [ none ↦ (problem 404 no_rows, world) | some a ↦ (ok a, world) ]

  -- accountAccess: a query that fails is a refusal.
  abbrev may_manage : (down : Bool) → User → ℕ → Handler World (Unit {0})
  may_manage down u id world =
      if not down && account_access world.db u id "manage"
      then (ok tt, world)
      else (problem 403 "Cloud account access required", world)

  unfoldable pub security_group_account : (down : ℕ → Bool) → User → Parsed → Handler World ℕ
  security_group_account down u path = do
    id ← path_id path
    may_manage (down 0) u id
    row ← provider_row (down 1) u.workspace_id id
    require (is_alibaba row.provider) 400 "The selected account is not an Alibaba Cloud connection"
    pure id

  -- `record`, whose error stops the handler.
  abbrev recorded :
      (down : Bool) → User → (action target message : String) → Handler World (Unit {0})
  recorded down u action target message world =
      if down
      then (problem 503 message, world)
      else (ok tt, record world { db = append_entry (entry u action (named target)) world.db })

  abbrev noted : (down : Bool) → User → (action target : String) → Handler World (Unit {0})
  noted down u action target world = (
    ok tt,
    if down
        then world
        else record world { db = append_entry (entry u action (named target)) world.db },
  )

  -- The call, which the provider takes or refuses; `client` says whether there is a client to send
  -- it with.
  unfoldable pub submitted : (client accepted : Bool) → Call → Handler World Bool
  submitted client accepted call world =
      if client
      then (ok accepted, record world { sent = world.sent ++ call ∷ [] })
      else (ok false, world)

  abbrev settled :
      (down taken : Bool) → User → (done failed target message : String) → Handler World (Unit {0})
  settled down true u done failed target message = noted down u done target
  settled down false u done failed target message = noted down u failed target >> fail 502 message

  abbrev pub group_pattern : String
  group_pattern = "^sg-[A-Za-z0-9-]{1,128}$"

  abbrev pub rule_pattern : String
  rule_pattern = "^sgr-[A-Za-z0-9-]{1,128}$"

  unfoldable pub create_security_group_rule :
      (down : ℕ → Bool) (client accepted : Bool)
      → User
      → Parsed
      → (group : String) → Body RuleRequest
      → Handler World (Unit {0})
  unfolding security_group_account validate_security_group_rule submitted
  create_security_group_rule down client accepted u path group body = do
    account ← security_group_account down u path
    require (matches group_pattern group) 400 "Invalid security group ID"
    raw ← decode body
    rule ← validate_security_group_rule raw
    recorded (down 2) u "ecs.security_group_rule.create_requested" group
        "Rule was not submitted because audit storage is unavailable"
    taken ← submitted client accepted (authorize account (clean raw).region group rule)
    settled (down 3) taken u "ecs.security_group_rule.created"
        "ecs.security_group_rule.create_failed" group
        "Alibaba ECS rejected the rule; check RAM permissions, CIDR, ports, and security group state"

  unfoldable pub delete_security_group_rule :
      (down : ℕ → Bool) (client accepted : Bool)
      → User
      → Parsed
      → (group rule region direction : String) → Handler World (Unit {0})
  unfolding security_group_account submitted
  delete_security_group_rule down client accepted u path group rule raw_region raw_direction = do
    account ← security_group_account down u path
    let region = trim_space raw_region
    let direction = to_lower (trim_space raw_direction)
    require (matches group_pattern group && matches rule_pattern rule) 400
        "Invalid security group or rule ID"
    require (matches region_pattern region && is_direction direction) 400
        "A valid region and rule direction are required"
    recorded (down 2) u "ecs.security_group_rule.delete_requested" rule
        "Rule was not deleted because audit storage is unavailable"
    taken ← submitted client accepted (revoke account region group rule direction)
    settled (down 3) taken u "ecs.security_group_rule.deleted"
        "ecs.security_group_rule.delete_failed" rule
        "Alibaba ECS rejected the deletion; check RAM permissions and rule state"
