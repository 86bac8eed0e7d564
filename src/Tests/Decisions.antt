-- ===== src/Tests/Decisions.antt =====
-- Access decisions, roles and assignments.
use mathlib.Core.List.{Memᴰ}
use netriun_nexus.Prelude.{true, false, ◌≡◌, ◌↔◌, refl, sym, ◌∙◌, [], ◌∷◌, arith, contains}
use netriun_nexus.Store.{
  Db, AccessGroup, AccessRole, CloudAccount, Capability, account_view, compute_operate, eds_view,
  eds_operate, eds_manage, person,
}
use netriun_nexus.Policy.{
  checked_account, checked_assignment, checked_grant, checked_legacy, checked_member, is_unassigned,
  principal_may, can_account, accessible_account_ids, permits, supported_capabilities,
}
use netriun_nexus.Policy.Agreement.{accessible_account_ids-can_account}
use netriun_nexus.Policy.Isolation.{can_account_isolated}
use netriun_nexus.Policy.Grants.{can_account_iff, Granted, Names, directly, through}
use netriun_nexus.Roles.{valid_role_permissions, verdict, collect, close, capability_of}
use netriun_nexus.Roles.Requests.{valid_role_permissions-IsLeastClosed, IsLeastClosed}
use netriun_nexus.Roles.Closure.{IsClosed}
use netriun_nexus.Roles.Handlers.{RoleInput, save_access_role, delete_access_role}
use netriun_nexus.Roles.Handlers.Invariants.{IsSound, save_access_role-IsSound}
use netriun_nexus.Roles.Handlers.Deleted.{Outcome, delete_access_role-Outcome}
use netriun_nexus.Access.{replace_assignment}
use netriun_nexus.Access.Migration.{IsSeeded}
use netriun_nexus.Access.Peers.{replace_assignment-peers}
use netriun_nexus.Request.{json, positive}
use netriun_nexus.Tests.Sample.{
  plain, up, alice, bob, team_row, cloud_row, everything, role_row, sample,
}

accessible_account_ids-can_account_example :
    contains (accessible_account_ids sample bob account_view) 7
    ≡ can_account sample bob 7 account_view
accessible_account_ids-can_account_example =
    accessible_account_ids-can_account sample bob account_view 7

can_account_iff_example : (can_account sample bob 7 compute_operate ≡ true) ↔ (
    (a : CloudAccount) × Memᴰ a sample.cloud_accounts
    × (a.id ≡ 7)
    × (a.workspace_id ≡ 1)
    × Granted sample bob compute_operate a)
can_account_iff_example = can_account_iff sample bob 7 compute_operate

-- The same workspace beside another one.
abbrev beside : Db
beside = record sample {
  cloud_accounts = record cloud_row { id = 40; workspace_id = 2 } ∷ cloud_row ∷ [];
}

can_account_isolated_example :
    can_account sample bob 7 account_view ≡ can_account beside bob 7 account_view
can_account_isolated_example = can_account_isolated sample beside bob account_view 7 refl

manage_closed :
    valid_role_permissions plain ("eds.manage" ∷ [])
    ≡ (account_view ∷ eds_view ∷ eds_operate ∷ eds_manage ∷ [], true)
unfolding valid_role_permissions verdict collect close capability_of supported_capabilities
manage_closed = refl

valid_role_permissions-IsLeastClosed_example :
    IsLeastClosed plain
      ("eds.manage" ∷ [])
      (account_view ∷ eds_view ∷ eds_operate ∷ eds_manage ∷ [])
valid_role_permissions-IsLeastClosed_example =
    valid_role_permissions-IsLeastClosed plain ("eds.manage" ∷ [])
      (account_view ∷ eds_view ∷ eds_operate ∷ eds_manage ∷ []) manage_closed

abbrev auditor : RoleInput
auditor = record {
  key = "auditor";
  name = "Auditor";
  description = "";
  permissions = "billing.view" ∷ [];
}

roles-IsSound : IsSound sample
roles-IsSound = record { closed = (every, (every, tt)); referenced = tt }
  where
    every : IsClosed (permits everything)
    every = record {
      manage_view = λ h. refl;
      compute_account = λ h. refl;
      operate_view = λ h. refl;
      eds_account = λ h. refl;
      eds_operate_view = λ h. refl;
      eds_manage_operate = λ h. refl;
    }

save_access_role-IsSound_example :
    IsSound (save_access_role plain up true alice (positive 0) (json auditor) sample).1
save_access_role-IsSound_example =
    save_access_role-IsSound plain up true alice (positive 0) (json auditor) sample roles-IsSound

abbrev with_auditor : Db
with_auditor = record sample {
  access_roles = record (role_row 12 "auditor") { built_in = false } ∷ sample.access_roles;
}

delete_access_role-Outcome_example :
    Outcome alice
      (positive 12)
      with_auditor
      (delete_access_role up alice (positive 12) with_auditor)
delete_access_role-Outcome_example = delete_access_role-Outcome up alice (positive 12) with_auditor

everything-permits : (c : Capability) → permits everything c ≡ true
everything-permits account_view = refl
everything-permits _ = refl

seeded_role :
    (r : AccessRole)
    → Memᴰ r sample.access_roles
    → (c : Capability) → permits r.permissions c ≡ true
seeded_role r (Memᴰ.head e) c = rw e (everything-permits c)
seeded_role r (Memᴰ.tail (Memᴰ.head e)) c = rw e (everything-permits c)
seeded_role r (Memᴰ.tail (Memᴰ.tail m)) c = elim m [ ]

one_group : (g : AccessGroup) → Memᴰ g sample.access_groups → g ≡ team_row
one_group g (Memᴰ.head e) = e
one_group g (Memᴰ.tail m) = elim m [ ]

sample-IsSeeded : IsSeeded 1 sample
sample-IsSeeded = record {
  has_operator = refl;
  has_manager = refl;
  operator_may = λ r m w k c h. seeded_role r m c;
  manager_may = λ r m w k c h. seeded_role r m c;
  one_group = λ g g' m m' e. one_group g m ∙ sym (one_group g' m');
}

bob_unnamed : ¬ (Names sample bob account_view (person 1))
bob_unnamed (directly e) = ground arith
bob_unnamed (through m e _ _ _) = ground arith

bob_views : can_account sample bob 7 account_view ≡ true
unfolding can_account checked_account checked_assignment checked_grant checked_legacy checked_member
    is_unassigned principal_may
bob_views = refl

replace_assignment-peers_example :
    can_account (replace_assignment up 1 (person 1) 7 "operator" sample).1 bob 7 account_view ≡ true
replace_assignment-peers_example =
    replace_assignment-peers bob account_view 7 (person 1) up "operator" sample sample-IsSeeded
      bob_unnamed bob_views
