-- ===== src/SecurityGroups/Audited.antt =====
-- Rules that are sent to the provider are valid, asked for by a manager of the account, and recorded
-- before.
use mathlib.Core.List.{Memᴰ}
use netriun_nexus.Prelude.{
  ℕ, ℤ, pos, negsuc, String, Bool, true, false, not, ◌≡◌, refl, ap, subst, [], ◌∷◌, ◌++◌, ◌≤◌, ◌&&◌,
  ◌||◌, ◌⊎◌, inl, inr, arith, Bool-cases, if◌then◌else◌, Result, ok, require_passed, Ends,
  Ends-read, Ends-require, mem-append_left, mem-append_right, ◌>>=◌, ◌>>◌, ltb, str_eq, to_ℕ,
}
use netriun_nexus.Store.{User, AuditEntry, named}
use netriun_nexus.Text.{TextOps}
use netriun_nexus.Policy.{account_access}
use netriun_nexus.Request.{Body, Parsed, positive, negative, malformed, json, entry, append_entry}
use netriun_nexus.SecurityGroups.{
  RuleRequest, Rule, PortRange, every_port, ports, Call, authorize, revoke, World, has_ports, below,
  above, bad_ports, clean, checked_rule, validate_security_group_rule, security_group_account,
  recorded, submitted, settled, delete_security_group_rule, group_pattern, rule_pattern,
  region_pattern, is_direction, rule_of,
}

-- What the ports of a rule may be.
abbrev pub PortsFit : String → PortRange → Type 0
PortsFit protocol every_port = has_ports protocol ≡ false
PortsFit protocol (ports first last) =
    (has_ports protocol ≡ true) × (1 ≤ first) × (first ≤ last) × (last ≤ 65535)

ports_fit :
    (protocol : String) (first last : ℤ)
    → not (has_ports protocol && bad_ports first last) ≡ true
    → PortsFit protocol (if has_ports protocol then ports (to_ℕ first) (to_ℕ last) else every_port)
ports_fit protocol first last h = elim (Bool-cases (has_ports protocol)) [
  | inr e ↦ rw e e
  | inl e ↦
      let (low, between, high) = fitting first last (ground arith) in rw e (e, low, between, high)
]
  where
    fitting :
        (first last : ℤ)
        → bad_ports first last ≡ false
        → (1 ≤ to_ℕ first) × (to_ℕ first ≤ to_ℕ last) × (to_ℕ last ≤ 65535)
    fitting (pos m) (pos n) k = (ground arith, ground arith, ground arith)
    fitting (pos m) (negsuc n) k = ground arith
    fitting (negsuc m) last k = ground arith

module _ (ops : TextOps) (is_cidr : String → Bool) where
  read_account :
      (down : ℕ → Bool) (u : User) (path : Parsed) (w : World)
      → (security_group_account ops is_cidr down u path w).1 ≡ w
  unfolding security_group_account
  read_account down u (positive n) w = ground arith
  read_account down u (negative n) w = refl
  read_account down u malformed w = refl

  managed :
      (down : ℕ → Bool) (u : User) (path : Parsed) (w : World) (id : ℕ)
      → (security_group_account ops is_cidr down u path w).0 ≡ ok id
      → (account_access w.db u id "manage" ≡ true) × (path ≡ positive id)
  unfolding security_group_account
  managed down u (positive n) w id h =
      let same : n ≡ id = ground arith in (ground arith, ap positive same)
  managed down u (negative n) w id h = ground arith
  managed down u malformed w id h = ground arith

  -- An accepted rule has a priority from 1 to 100 and the ports that suit its protocol: for tcp and
  -- udp an ascending range within 1 to 65535, else every port.
  pub record IsRule (r : Rule) : Type 0 where
    pub low : 1 ≤ r.priority
    pub high : r.priority ≤ 100
    pub fit : PortsFit r.protocol r.port_range

  in_range : (p : ℤ) → not (below p 1 || above p 100) ≡ true → (1 ≤ to_ℕ p) × (to_ℕ p ≤ 100)
  in_range (pos n) h = (ground arith, ground arith)
  in_range (negsuc n) h = ground arith

  abbrev made : RuleRequest → Rule
  made inp =
      rule_of ops is_cidr
        (if has_ports inp.protocol
          then ports (to_ℕ inp.port_from) (to_ℕ inp.port_to)
          else every_port)
        inp

  returned : {a b : Rule} → ◌≡◌ {A = Result Rule} (ok a) (ok b) → a ≡ b
  returned e = ground arith

  -- The accepted rule, and the last tests that it passed.
  validated :
      (raw : RuleRequest) (w : World) (r : Rule)
      → (validate_security_group_rule ops is_cidr raw w).0 ≡ ok r
      → (made (clean ops is_cidr raw) ≡ r)
        × (not (below raw.priority 1 || above raw.priority 100) ≡ true)
        × (not (has_ports (clean ops is_cidr raw).protocol && bad_ports raw.port_from raw.port_to)
            ≡ true)
  unfolding validate_security_group_rule checked_rule
  validated raw w r h =
      let inp = clean ops is_cidr raw in
      let (_, h1) =
        require_passed (ops.matches (region_pattern ops is_cidr) inp.region) _ _ _ w r h in
      let (_, h2) = require_passed (is_direction ops is_cidr inp.direction) _ _ _ w r h1 in
      let (_, h3) =
        require_passed
          (has_ports inp.protocol || str_eq inp.protocol "icmp" || str_eq inp.protocol "all") _ _ _
          w r h2 in
      let (_, h4) = require_passed (is_cidr inp.cidr) _ _ _ w r h3 in
      let (_, h5) =
        require_passed (str_eq inp.policy "accept" || str_eq inp.policy "drop") _ _ _ w r h4 in
      let (priority, h6) =
        require_passed (not (below raw.priority 1 || above raw.priority 100)) _ _ _ w r h5 in
      let (_, h7) = require_passed (not (ltb 512 (ops.rune_count inp.description))) _ _ _ w r h6 in
      let (fit, h8) =
        require_passed (not (has_ports inp.protocol && bad_ports raw.port_from raw.port_to)) _ _ _ w
          r h7 in
      (returned h8, priority, fit)

  -- A rule that the check accepts has a priority from 1 to 100, and for tcp and udp an ascending
  -- range of ports within 1 to 65535, else every port.
  pub validate_security_group_rule-IsRule :
      (raw : RuleRequest) (w : World) (r : Rule)
      → (validate_security_group_rule ops is_cidr raw w).0 ≡ ok r
      → IsRule r
  validate_security_group_rule-IsRule raw w r h =
      let (same, priority, fit) = validated raw w r h in
      let (low, high) = in_range raw.priority priority in
      subst IsRule same (record {
        low = low;
        high = high;
        fit = ports_fit (clean ops is_cidr raw).protocol raw.port_from raw.port_to fit;
      })

  -- What a rule takes from its request.
  pub record Described (raw : RuleRequest) (r : Rule) : Type 0 where
    pub direction : r.direction ≡ ops.to_lower (ops.trim_space raw.direction)
    pub protocol : r.protocol ≡ ops.to_lower (ops.trim_space raw.protocol)
    pub cidr : r.cidr ≡ ops.trim_space raw.cidr
    pub policy : r.policy ≡ ops.to_lower (ops.trim_space raw.policy)
    pub description : r.description ≡ ops.trim_space raw.description
    pub priority : raw.priority ≡ pos r.priority

  -- What is so when something was sent: the call is the one that `Right` allows for the account of
  -- the path, which the user may manage.
  pub record Authorised (u : User) (path : Parsed) (action target : String)
      (Right : ℕ → Call → Type 0) (w w' : World) : Type 0 where
    pub account : ℕ
    pub call : Call
    pub sent : w'.sent ≡ w.sent ++ call ∷ []
    pub asked : path ≡ positive account
    pub right : Right account call
    pub manager : account_access w.db u account "manage" ≡ true
    pub logged : Memᴰ (entry u action (named target)) w'.db.audit_log

  -- The call for a new rule is of the account and the group, with the rule that the request describes.
  pub record RightRule (group : String) (body : Body RuleRequest) (account : ℕ) (call : Call)
      : Type 0 where
    pub request : RuleRequest
    pub rule : Rule
    pub asked : body ≡ json request
    pub same_call : call ≡ authorize account (ops.trim_space request.region) group rule
    pub is_group : ops.matches "^sg-[A-Za-z0-9-]{1,128}$" group ≡ true
    pub is_rule : IsRule rule
    pub described : Described request rule

  -- The call for a deletion is of the account, the group and the rule of the path.
  pub record RightRevoke (group rule region direction : String) (account : ℕ) (call : Call)
      : Type 0 where
    pub same_call :
        call
        ≡ revoke account
            (ops.trim_space region)
            group
            rule
            (ops.to_lower (ops.trim_space direction))
    pub is_group : ops.matches "^sg-[A-Za-z0-9-]{1,128}$" group ≡ true
    pub is_rule : ops.matches "^sgr-[A-Za-z0-9-]{1,128}$" rule ≡ true

  abbrev pub SentOnlyIf : (World → Type 0) → World → World → Type 0
  SentOnlyIf P w w' = (w'.sent ≡ w.sent) ⊎ P w'

  -- The answer sends nothing more and leaves the audit log longer at most.
  settled_keeps :
      (down taken : Bool) (u : User) (done failed target message : String) (w : World)
      (e : AuditEntry)
      → Memᴰ e w.db.audit_log
      → ((settled ops is_cidr down taken u done failed target message w).1.sent ≡ w.sent)
        × Memᴰ e (settled ops is_cidr down taken u done failed target message w).1.db.audit_log
  settled_keeps true true u done failed target message w e m = (refl, m)
  settled_keeps true false u done failed target message w e m = (refl, m)
  settled_keeps false true u done failed target message w e m = (refl, mem-append_left _ _ m)
  settled_keeps false false u done failed target message w e m = (refl, mem-append_left _ _ m)

  -- The end of both handlers, from the request's entry in the audit log on.
  ending :
      (log client accepted quiet : Bool) (u : User) (path : Parsed)
      (action done failed target message refusal : String) (account : ℕ) (call : Call)
      (Right : ℕ → Call → Type 0) (w : World)
      → (account_access w.db u account "manage" ≡ true) × (path ≡ positive account)
      → Right account call
      → Ends (SentOnlyIf (Authorised u path action target Right w) w) w (
          recorded ops is_cidr log u action target refusal
          >> (submitted ops is_cidr client accepted call >>= λ taken.
              settled ops is_cidr quiet taken u done failed target message))
  unfolding submitted
  ending true client accepted quiet u path action done failed target message refusal account call
        Right w m right =
      record { after = inl refl }
  ending false false accepted quiet u path action done failed target message refusal account call
        Right w m right =
      let e = entry u action (named target) in
      let (sent, _) =
        settled_keeps quiet false u done failed target message
          (record w { db = append_entry e w.db }) e
          (mem-append_right w.db.audit_log _ (Memᴰ.head refl)) in
      record { after = inl sent }
  ending false true accepted quiet u path action done failed target message refusal account call
        Right w (m, asked) right =
      let e = entry u action (named target) in
      let (sent, logged) =
        settled_keeps quiet accepted u done failed target message
          (record w { db = append_entry e w.db; sent = w.sent ++ call ∷ [] }) e
          (mem-append_right w.db.audit_log _ (Memᴰ.head refl)) in
      record {
        after = inr (record {
          account = account;
          call = call;
          sent = sent;
          asked = asked;
          right = right;
          manager = m;
          logged = logged;
        });
      }

  delete_security_group_rule-Ends :
      (down : ℕ → Bool) (client accepted : Bool) (u : User) (path : Parsed)
      (group rule region direction : String) (w : World)
      → Ends
          (SentOnlyIf
            (Authorised u path "ecs.security_group_rule.delete_requested" rule
              (RightRevoke group rule region direction)
              w)
            w)
          w
          (delete_security_group_rule ops is_cidr down client accepted u path group rule region
            direction)
  unfolding delete_security_group_rule
  delete_security_group_rule-Ends down client accepted u path group rule region direction w =
      Ends-read w (inl refl) (security_group_account ops is_cidr down u path) _
        (read_account down u path w)
        (λ account h.
          Ends-require w (inl refl)
            (ops.matches (group_pattern ops is_cidr) group
              && ops.matches (rule_pattern ops is_cidr) rule)
            _ _ _
            (λ ids.
              Ends-require w (inl refl)
                (ops.matches (region_pattern ops is_cidr) (ops.trim_space region)
                  && is_direction ops is_cidr (ops.to_lower (ops.trim_space direction)))
                _ _ _
                (λ _.
                  ending (down 2) client accepted (down 3) u path _ _ _ rule _ _ account _
                    (RightRevoke group rule region direction) w (managed down u path w account h)
                    (record {
                      same_call = refl;
                      is_group = ground arith;
                      is_rule = ground arith;
                    }))))

  -- Deleting a rule likewise: nothing is sent, or one call, for the account of the path, which the
  -- user may manage, and for the group, rule, region and direction of the request, with the
  -- request's entry in the audit log.
  pub delete_security_group_rule-Authorised :
      (down : ℕ → Bool) (client accepted : Bool) (u : User) (path : Parsed)
      (group rule region direction : String) (w : World)
      → SentOnlyIf
          (Authorised u path "ecs.security_group_rule.delete_requested" rule
            (RightRevoke group rule region direction)
            w)
          w
          (delete_security_group_rule ops is_cidr down client accepted u path group rule region
            direction w).1
  delete_security_group_rule-Authorised down client accepted u path group rule region direction w =
      (delete_security_group_rule-Ends down client accepted u path group rule region direction
        w).after
