-- ===== src/Roles.antt =====
-- internal/app/account_access.go, access roles: which sets of capabilities a role may hold, and the
-- handlers that save and delete a role.
pub mod Closure
pub mod Requests
pub mod Handlers
use netriun_nexus.Prelude.{
  ℕ, String, Bool, true, false, Option, none, some, List, [], ◌∷◌, ◌||◌, ◌&&◌, not, str_eq,
  if◌then◌else◌, keep, is_empty,
}
use netriun_nexus.Store.{
  Capability, account_view, account_manage, compute_view, compute_operate, eds_view, eds_operate,
  eds_manage, billing_view, billing_sync,
}
use netriun_nexus.Policy.{same_capability, supported_capabilities}
use netriun_nexus.Text.{TextOps}

-- The map `valid`: the texts of the constants of policy.go.
unfoldable pub capability_of : String → Option Capability
capability_of s =
    if str_eq s "account.view"
    then some account_view
    else if str_eq s "account.manage"
    then some account_manage
    else if str_eq s "compute.view"
    then some compute_view
    else if str_eq s "compute.operate"
    then some compute_operate
    else if str_eq s "eds.view"
    then some eds_view
    else if str_eq s "eds.operate"
    then some eds_operate
    else if str_eq s "eds.manage"
    then some eds_manage
    else if str_eq s "billing.view"
    then some billing_view
    else if str_eq s "billing.sync"
    then some billing_sync
    else none

abbrev pub text_of : Capability → String
text_of account_view = "account.view"
text_of account_manage = "account.manage"
text_of compute_view = "compute.view"
text_of compute_operate = "compute.operate"
text_of eds_view = "eds.view"
text_of eds_operate = "eds.operate"
text_of eds_manage = "eds.manage"
text_of billing_view = "billing.view"
text_of billing_sync = "billing.sync"

-- The map `unique`: what has not been set is false.
abbrev pub CapabilitySet : Type 0
CapabilitySet = Capability → Bool

-- `unique[c] = true`.
abbrev pub mark : Capability → CapabilitySet → CapabilitySet
mark c unique d = same_capability c d || unique d

abbrev mark_if : Bool → Capability → CapabilitySet → CapabilitySet
mark_if test c unique d = test && same_capability c d || unique d

-- The `if` statements after the loop, in their order.
unfoldable pub close : CapabilitySet → CapabilitySet
close u0 =
    let u1 : CapabilitySet = mark_if (u0 account_manage) account_view u0 in
    let u2 : CapabilitySet = mark_if (u1 compute_view || u1 compute_operate) account_view u1 in
    let u3 : CapabilitySet = mark_if (u2 compute_operate) compute_view u2 in
    let eds : Bool = u3 eds_view || u3 eds_operate || u3 eds_manage in
    let u4 : CapabilitySet = mark_if eds eds_view (mark_if eds account_view u3) in
    mark_if (u4 eds_manage) eds_operate u4

abbrev pub with_flag : List Capability → List Capability × Bool
with_flag permissions = (permissions, not (is_empty permissions))

-- The answer after the loop: `nil, false`, or the permissions in the order of supportedCapabilities.
unfoldable pub verdict : Option CapabilitySet → List Capability × Bool
unfolding close supported_capabilities
verdict none = ([], false)
verdict (some unique) = with_flag (keep (close unique) supported_capabilities)

module _ (ops : TextOps) where
  -- The loop over the values; `none` is the early return for a value that is not supported.
  unfoldable pub collect : List String → CapabilitySet → Option CapabilitySet
  unfolding capability_of
  collect [] unique = some unique
  collect (value ∷ values) unique = elim (capability_of (ops.trim_space (ops.to_lower value))) [
    | none ↦ none
    | some c ↦ collect values (mark c unique)
  ]

  unfoldable pub valid_role_permissions : List String → List Capability × Bool
  unfolding collect verdict
  valid_role_permissions values = verdict (collect values (λ c. false))
