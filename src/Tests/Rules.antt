-- ===== src/Tests/Rules.antt =====
-- Security group rules.
use netriun_nexus.Prelude.{String, Bool, true, ◌≡◌, refl, [], ◌∷◌, pos, ok}
use netriun_nexus.Store.{alibaba}
use netriun_nexus.Request.{positive}
use netriun_nexus.SecurityGroups.{
  RuleRequest, Rule, ports, World, checked_rule, validate_security_group_rule,
  delete_security_group_rule,
}
use netriun_nexus.SecurityGroups.Audited.{
  SentOnlyIf, Authorised, RightRevoke, delete_security_group_rule-Authorised, IsRule,
  validate_security_group_rule-IsRule,
}
use netriun_nexus.Tests.Sample.{plain, up, alice, cloud_row, sample}

abbrev any_cidr : String → Bool
any_cidr text = true

abbrev world : World
world = record {
  db = record sample { cloud_accounts = record cloud_row { provider = alibaba } ∷ [] };
  sent = [];
}

abbrev asked : RuleRequest
asked = record {
  region = "cn-hangzhou";
  direction = "ingress";
  protocol = "tcp";
  port_from = pos 443;
  port_to = pos 444;
  cidr = "10.0.0.0/8";
  policy = "accept";
  priority = pos 1;
  description = "";
}

abbrev granted : Rule
granted = record {
  direction = "ingress";
  protocol = "tcp";
  port_range = ports 443 444;
  cidr = "10.0.0.0/8";
  policy = "accept";
  priority = 1;
  description = "";
}

accepted : (validate_security_group_rule plain any_cidr asked world).0 ≡ ok granted
unfolding validate_security_group_rule checked_rule
accepted = refl

validate_security_group_rule-IsRule_example : IsRule plain any_cidr granted
validate_security_group_rule-IsRule_example =
    validate_security_group_rule-IsRule plain any_cidr asked world granted accepted

delete_security_group_rule-Authorised_example :
    SentOnlyIf plain any_cidr
      (Authorised plain any_cidr alice
        (positive 7)
        "ecs.security_group_rule.delete_requested"
        "sgr-1"
        (RightRevoke plain any_cidr "sg-1" "sgr-1" "cn-hangzhou" "ingress")
        world)
      world
      (delete_security_group_rule plain any_cidr up true true alice
        (positive 7)
        "sg-1"
        "sgr-1"
        "cn-hangzhou"
        "ingress"
        world).1
delete_security_group_rule-Authorised_example =
    delete_security_group_rule-Authorised plain any_cidr up true true alice (positive 7) "sg-1"
      "sgr-1" "cn-hangzhou" "ingress" world
