-- ===== src/Roles/Closure.antt =====
-- The permissions of a role are the least set that holds what was asked for and what it implies.
use netriun_nexus.Prelude.{true, ◌≡◌, ◌||◌, ◌&&◌, arith, keep, any, any_of_keep, ◌∙◌, Bool_ext}
use mathlib.Core.Path.{fun_ext}
use netriun_nexus.Store.{
  Capability, account_view, account_manage, compute_view, compute_operate, eds_view, eds_operate,
  eds_manage,
}
use netriun_nexus.Policy.{permits, same_capability, supported_capabilities}
use netriun_nexus.Roles.{CapabilitySet, close}

-- What a capability implies.
pub record IsClosed (p : CapabilitySet) : Type 0 where
  pub manage_view : p account_manage ≡ true → p account_view ≡ true
  pub compute_account : p compute_view ≡ true → p account_view ≡ true
  pub operate_view : p compute_operate ≡ true → p compute_view ≡ true
  pub eds_account : p eds_view ≡ true → p account_view ≡ true
  pub eds_operate_view : p eds_operate ≡ true → p eds_view ≡ true
  pub eds_manage_operate : p eds_manage ≡ true → p eds_operate ≡ true

-- The set in one step.
abbrev pub implied : CapabilitySet → CapabilitySet
implied u account_view =
    u account_view
    || u account_manage
    || u compute_view
    || u compute_operate
    || u eds_view
    || u eds_operate
    || u eds_manage
implied u compute_view = u compute_view || u compute_operate
implied u eds_view = u eds_view || u eds_operate || u eds_manage
implied u eds_operate = u eds_operate || u eds_manage
implied u c = u c

pub close-implied : (u : CapabilitySet) (c : Capability) → close u c ≡ implied u c
unfolding close
close-implied u account_view = ground arith
close-implied u c = ground arith

pub implied-IsClosed : (u : CapabilitySet) → IsClosed (implied u)
implied-IsClosed u = ground arith

pub implied-above : (u : CapabilitySet) (c : Capability) → u c ≡ true → implied u c ≡ true
implied-above u account_view h = ground arith
implied-above u c h = ground arith

pub implied-least :
    (u p : CapabilitySet) (c : Capability)
    → IsClosed p
    → ((d : Capability) → u d ≡ true → p d ≡ true)
    → implied u c ≡ true
    → p c ≡ true
implied-least u p account_view k f h = ground (
  arith,
  f account_view,
  f account_manage,
  f compute_view,
  f compute_operate,
  f eds_view,
  f eds_operate,
  f eds_manage,
)
implied-least u p compute_view k f h = ground (arith, f compute_view, f compute_operate)
implied-least u p eds_view k f h = ground (arith, f eds_view, f eds_operate, f eds_manage)
implied-least u p eds_operate k f h = ground (arith, f eds_operate, f eds_manage)
implied-least u p c k f h = f c h

pub permits-keep :
    (u : CapabilitySet) (c : Capability) → permits (keep u supported_capabilities) c ≡ u c
unfolding supported_capabilities
permits-keep u c = any_of_keep (λ d. same_capability d c) u supported_capabilities ∙ member c
  where
    member : (c : Capability) → any (λ d. u d && same_capability d c) supported_capabilities ≡ u c
    member account_view = ground arith
    member c = ground arith

close-IsClosed : (u : CapabilitySet) → IsClosed (close u)
close-IsClosed u = rw (fun_ext (close-implied u)) (implied-IsClosed u)

pub close_idempotent : (u : CapabilitySet) (c : Capability) → close (close u) c ≡ close u c
close_idempotent u c =
    Bool_ext _ _
      (λ h.
        implied-least (close u) (close u) c (close-IsClosed u) (λ d k. k)
          (rw (close-implied (close u) c) at h))
      (λ h. rw (close-implied (close u) c) (implied-above (close u) c h))

pub close_congr :
    (u v : CapabilitySet) (c : Capability) → ((d : Capability) → u d ≡ v d) → close u c ≡ close v c
close_congr u v c f = rw (fun_ext f)
