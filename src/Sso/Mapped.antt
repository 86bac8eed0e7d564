-- ===== src/Sso/Mapped.antt =====
-- Which memberships single sign-on gives, by the rows of the tables.
use mathlib.Core.List.{Memᴰ}
use netriun_nexus.Prelude.{
  ℕ, String, Bool, true, not, ◌≡◌, ◌↔◌, refl, sym, ap, ◌∙◌, subst, List, ◌||◌, ◌==◌, arith, any,
  any_mem, any_of_mem, keep, str_eq, str_eq_refl, ==_refl, eq_of_==, eq_of_str_eq, keep_congr,
  mem_of_keep, mem_of_map, from_keep, from_map,
}
use netriun_nexus.Store.{SsoGrant, GroupMapping, Db}
use netriun_nexus.Sso.Grants.{is_granted, is_mapped, grant_of, mapped_grants}
use netriun_nexus.Sso.Synced.{Rewritten}

module _ (ws provider uid : ℕ) where
  abbrev grant_at : GroupMapping → (w p : ℕ) → SsoGrant
  grant_at m w p = record {
    workspace_id = w;
    provider_id = p;
    user_id = uid;
    group_id = m.group_id;
    external_group = m.external_group;
    role = m.role;
  }

  -- A membership that a mapping of the provider gives the user for one of the groups.
  pub record Given (groups : List String) (db : Db) (g : SsoGrant) : Type 0 where
    pub mapping : GroupMapping
    pub is_mapping : Memᴰ mapping db.group_mappings
    pub of_workspace : mapping.workspace_id ≡ ws
    pub of_provider : mapping.provider_id ≡ provider
    pub of_group : Memᴰ mapping.external_group groups
    pub same : g ≡ record {
      workspace_id = ws;
      provider_id = provider;
      user_id = uid;
      group_id = mapping.group_id;
      external_group = mapping.external_group;
      role = mapping.role;
    }

  -- A membership of another user, or by another provider.
  abbrev pub is_other : SsoGrant → Bool
  is_other g = not (g.provider_id == provider) || not (g.user_id == uid)

  pub record Synced (groups : List String) (before after : Db) : Type 0 where
    pub exact :
        (g : SsoGrant)
        → (Memᴰ g after.sso_grants × (g.provider_id ≡ provider) × (g.user_id ≡ uid))
          ↔ Given groups before g
    pub others : keep is_other after.sso_grants ≡ keep is_other before.sso_grants

  mapped-Given :
      (groups : List String) (db : Db) (g : SsoGrant)
      → Memᴰ g (mapped_grants ws provider uid groups db)
      → Given groups db g
  mapped-Given groups db g m =
      let (x, k, e) =
        from_map (grant_of uid) (keep (is_mapped ws provider groups) db.group_mappings) m in
      let (row, mapped) = from_keep (is_mapped ws provider groups) db.group_mappings k in
      let (name, named, is) = any_mem (λ t. str_eq t x.external_group) groups (ground arith) in
      let of_ws = eq_of_== x.workspace_id ws (ground arith) in
      let of_provider = eq_of_== x.provider_id provider (ground arith) in
      record {
        mapping = x;
        is_mapping = row;
        of_workspace = of_ws;
        of_provider = of_provider;
        of_group = subst (λ t. Memᴰ t groups) (eq_of_str_eq name x.external_group is) named;
        same =
            e ∙ ap (grant_at x x.workspace_id) of_provider ∙ ap (λ w. grant_at x w provider) of_ws;
      }

  Given-mapped :
      (groups : List String) (db : Db) (g : SsoGrant)
      → Given groups db g
      → Memᴰ g (mapped_grants ws provider uid groups db)
  Given-mapped groups db g v =
      let x = v.mapping in
      let named : any (λ t. str_eq t x.external_group) groups ≡ true =
        any_of_mem _ groups v.of_group (str_eq_refl x.external_group) in
      let mapped : is_mapped ws provider groups x ≡ true =
        rw (v.of_workspace, v.of_provider, ==_refl ws, ==_refl provider) named in
      let made =
        mem_of_map (grant_of uid) (keep (is_mapped ws provider groups) db.group_mappings)
          (mem_of_keep (is_mapped ws provider groups) db.group_mappings v.is_mapping mapped) in
      let same =
        v.same
        ∙ ap (λ w. grant_at x w provider) (sym v.of_workspace)
        ∙ ap (grant_at x x.workspace_id) (sym v.of_provider) in
      subst (λ t. Memᴰ t (mapped_grants ws provider uid groups db)) (sym same) made

  same_test : (g : SsoGrant) → is_other g ≡ not (is_granted provider uid g)
  same_test g = ground arith

  pub synced :
      (groups : List String) (before after : Db)
      → Rewritten ws provider uid groups before after
      → Synced groups before after
  synced groups before after r = record {
    exact = λ g. (
      λ (m, p, w). mapped-Given groups before g (
          subst (Memᴰ g) r.exact (
            mem_of_keep (is_granted provider uid) after.sso_grants m
              (rw (p, w, ==_refl provider, ==_refl uid) refl))),
      λ v. (
        (from_keep (is_granted provider uid) after.sso_grants
            (subst (Memᴰ g) (sym r.exact) (Given-mapped groups before g v))).0,
        ap (λ x. x.provider_id) v.same,
        ap (λ x. x.user_id) v.same,
      ),
    );
    others =
        keep_congr is_other (λ g. not (is_granted provider uid g)) after.sso_grants same_test
        ∙ r.others
        ∙ sym (
            keep_congr is_other (λ g. not (is_granted provider uid g)) before.sso_grants same_test);
  }
