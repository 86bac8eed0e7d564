-- ===== src/Roles/Requests.antt =====
-- What valid_role_permissions accepts, and which permissions it answers with.
use netriun_nexus.Prelude.{
  String, Bool, true, false, ◌≡◌, refl, ap, Option, none, some, List, [], ◌∷◌, ◌||◌, arith, keep,
  any, All, Option-cases, inl, inr, map, ◌↔◌, ◌≢◌, ◌∙◌, sym, subst, keep_congr, ==_refl, is_empty,
  not,
}
use mathlib.Core.Path.{fun_ext}
use mathlib.Core.Option.{some-injective}
use netriun_nexus.Store.{Capability, account_view}
use netriun_nexus.Policy.{permits, code, same_capability, supported_capabilities}
use netriun_nexus.Text.{TextOps}
use netriun_nexus.Roles.{
  capability_of, text_of, CapabilitySet, mark, close, collect, verdict, with_flag,
  valid_role_permissions,
}
use netriun_nexus.Roles.Closure.{
  IsClosed, implied, close-implied, implied-IsClosed, implied-above, implied-least, permits-keep,
  close_idempotent, close_congr,
}

abbrev is_capability : Option Capability → Capability → Bool
is_capability none c = false
is_capability (some d) c = same_capability d c

module _ (ops : TextOps) where
  -- What a value asks for, after trimming and lowering.
  abbrev asks : String → Option Capability
  asks value = capability_of (ops.trim_space (ops.to_lower value))

  -- Whether one of the values asks for a capability.
  abbrev pub requested : List String → CapabilitySet
  requested values c = any (λ v. is_capability (asks v) c) values

  abbrev pub IsSupported : String → Type 0
  IsSupported value = asks value ≢ none

  collect_lem :
      (values : List String) (u u' : CapabilitySet) (c : Capability)
      → collect ops values u ≡ some u'
      → u' c ≡ (u c || requested values c)
  unfolding collect
  collect_lem [] u u' c h = rw (← some-injective u u' h) (ground arith)
  collect_lem (v ∷ vs) u u' c h = elim (Option-cases (asks v)) [
    | inl e ↦ let h' : ◌≡◌ {A = Option CapabilitySet} none (some u') = rw (e, collect) at h in cc
    | inr (d, e) ↦
        let h' : collect ops vs (mark d u) ≡ some u' = rw (e, collect) at h in
        rw e (ground (arith, collect_lem vs (mark d u) u' c h'))
  ]

  collect-IsSupported :
      (values : List String) (u u' : CapabilitySet)
      → collect ops values u ≡ some u'
      → All IsSupported values
  unfolding collect
  collect-IsSupported [] u u' h = tt
  collect-IsSupported (v ∷ vs) u u' h = elim (Option-cases (asks v)) [
    | inl e ↦ let h' : ◌≡◌ {A = Option CapabilitySet} none (some u') = rw (e, collect) at h in cc
    | inr (d, e) ↦ (
      λ n. let n' : ◌≡◌ {A = Option Capability} none (some d) = sym n ∙ e in cc,
      collect-IsSupported vs (mark d u) u' (rw (e, collect) at h),
    )
  ]

  -- What valid_role_permissions answers when it accepts.
  pub record IsLeastClosed (values : List String) (permissions : List Capability) : Type 0 where
    pub supported : All IsSupported values
    pub asked : (c : Capability) → requested values c ≡ true → permits permissions c ≡ true
    pub closed : IsClosed (permits permissions)
    pub least :
        (p : CapabilitySet)
        → IsClosed p
        → ((c : Capability) → requested values c ≡ true → p c ≡ true)
        → (c : Capability) → permits permissions c ≡ true
        → p c ≡ true

  accepted :
      (values : List String) (permissions : List Capability)
      → valid_role_permissions ops values ≡ (permissions, true)
      → (u : CapabilitySet) × (collect ops values (λ c. false) ≡ some u)
        × (verdict (some u) ≡ (permissions, true))
  unfolding valid_role_permissions
  accepted values permissions h = elim (Option-cases (collect ops values (λ c. false))) [
    | inl e ↦ let h' : verdict none ≡ (permissions, true) = ap verdict (sym e) ∙ h in cc
    | inr (u, e) ↦ (u, e, ap verdict (sym e) ∙ h)
  ]

  permits-implied :
      (values : List String) (u : CapabilitySet)
      → collect ops values (λ c. false) ≡ some u
      → (c : Capability)
      → permits (keep (close u) supported_capabilities) c ≡ implied (requested values) c
  permits-implied values u e c =
      let same : u ≡ requested values = fun_ext (λ d. collect_lem values (λ x. false) u d e) in
      permits-keep (close u) c ∙ close-implied u c ∙ ap (λ (v : CapabilitySet). implied v c) same

  least_closed :
      (values : List String) (u : CapabilitySet)
      → collect ops values (λ c. false) ≡ some u
      → IsLeastClosed values (keep (close u) supported_capabilities)
  least_closed values u e =
      let same = permits-implied values u e in
      record {
        supported = collect-IsSupported values (λ c. false) u e;
        asked = λ c h. same c ∙ implied-above (requested values) c h;
        closed = subst IsClosed (sym (fun_ext same)) (implied-IsClosed (requested values));
        least = λ p k f c h. implied-least (requested values) p c k f (sym (same c) ∙ h);
      }

  -- An accepted request names supported capabilities only, and the permissions are the least set
  -- that has all of them and is closed under what capabilities imply.
  pub valid_role_permissions-IsLeastClosed :
      (values : List String) (permissions : List Capability)
      → valid_role_permissions ops values ≡ (permissions, true)
      → IsLeastClosed values permissions
  unfolding verdict
  valid_role_permissions-IsLeastClosed values permissions h =
      let (u, e, k) = accepted values permissions h in
      subst (IsLeastClosed values) (ap (λ (r : List Capability × Bool). r.0) k)
        (least_closed values u e)

  -- The texts of the constants are read as they are written.
  abbrev pub KeepsConstants : Type 0
  KeepsConstants = (c : Capability) → ops.trim_space (ops.to_lower (text_of c)) ≡ text_of c

  capability_of-text_of : (c : Capability) → capability_of (text_of c) ≡ some c
  unfolding capability_of
  capability_of-text_of account_view = refl
  capability_of-text_of _ = refl

  collect_texts :
      KeepsConstants
      → (cs : List Capability) (u : CapabilitySet)
      → (u' : CapabilitySet) × (collect ops (map text_of cs) u ≡ some u')
        × ((c : Capability) → u' c ≡ (u c || permits cs c))
  unfolding collect
  collect_texts keeps [] u = (u, refl, λ c. ground arith)
  collect_texts keeps (d ∷ ds) u =
      let (u', e, f) = collect_texts keeps ds (mark d u) in
      (u', rw (keeps d, capability_of-text_of d, collect) e, λ c. ground (arith, f c))

  same_verdict :
      (u u' : CapabilitySet) (permissions : List Capability)
      → verdict (some u) ≡ (permissions, true)
      → ((c : Capability) → u' c ≡ permits permissions c)
      → verdict (some u') ≡ verdict (some u)
  unfolding verdict
  same_verdict u u' permissions k f =
      let kept : keep (close u) supported_capabilities ≡ permissions =
        ap (λ (r : List Capability × Bool). r.0) k in
      ap with_flag (
        keep_congr (close u') (close u) supported_capabilities (λ c.
          close_congr u' (close u) c (λ d.
            f d ∙ ap (λ (l : List Capability). permits l d) (sym kept) ∙ permits-keep (close u) d)
          ∙ close_idempotent u c))

  -- Saving the permissions that an accepted request led to is accepted and leads to them again.
  pub valid_role_permissions_stable :
      (keeps : KeepsConstants) (values : List String) (permissions : List Capability)
      → valid_role_permissions ops values ≡ (permissions, true)
      → valid_role_permissions ops (map text_of permissions) ≡ (permissions, true)
  unfolding valid_role_permissions
  valid_role_permissions_stable keeps values permissions h =
      let (u, e, k) = accepted values permissions h in
      let (u', e', f) = collect_texts keeps permissions (λ c. false) in
      ap verdict e' ∙ same_verdict u u' permissions k f ∙ k

  nonempty_of_permits :
      (cs : List Capability) (c : Capability) → permits cs c ≡ true → not (is_empty cs) ≡ true
  nonempty_of_permits [] c h = cc
  nonempty_of_permits (d ∷ ds) c h = refl

  asks_something :
      (value : String) (values : List String)
      → IsSupported value
      → (c : Capability) × (requested (value ∷ values) c ≡ true)
  asks_something value values s = elim (Option-cases (asks value)) [
    | inl e ↦ absurd (s e)
    | inr (c, e) ↦ (c, rw e (ground (arith, ==_refl (code c))))
  ]

  collect-some :
      (values : List String) (u : CapabilitySet)
      → All IsSupported values
      → (u' : CapabilitySet) × (collect ops values u ≡ some u')
  unfolding collect
  collect-some [] u h = (u, refl)
  collect-some (v ∷ vs) u (s, h) = elim (Option-cases (asks v)) [
    | inl e ↦ absurd (s e)
    | inr (d, e) ↦ rw (e, collect) (collect-some vs (mark d u) h)
  ]

  verdict_flag :
      (o : Option CapabilitySet) → (verdict o).1 ≡ true → (u : CapabilitySet) × (o ≡ some u)
  unfolding verdict
  verdict_flag none h = cc
  verdict_flag (some u) h = (u, refl)

  -- A request is accepted exactly when it names at least one capability and only supported ones.
  pub valid_role_permissions_iff :
      (values : List String)
      → ((valid_role_permissions ops values).1 ≡ true) ↔ ((values ≢ []) × All IsSupported values)
  unfolding valid_role_permissions verdict
  valid_role_permissions_iff [] =
      (λ h. unfold collect close supported_capabilities in cc, λ k. absurd (k.0 refl))
  valid_role_permissions_iff (v ∷ vs) = (
    λ h.
        let (u, e) = verdict_flag (collect ops (v ∷ vs) (λ c. false)) h in
        (cc, collect-IsSupported (v ∷ vs) (λ c. false) u e),
    λ k.
        let (u, e) = collect-some (v ∷ vs) (λ c. false) k.1 in
        let (c, asked) = asks_something v vs k.1.0 in
        rw e (
          nonempty_of_permits _ c
            (permits-implied (v ∷ vs) u e c ∙ implied-above (requested (v ∷ vs)) c asked)),
  )

  -- Accepted or not, the permissions are closed under what capabilities imply.
  pub valid_role_permissions-IsClosed :
      (values : List String) → IsClosed (permits (valid_role_permissions ops values).0)
  unfolding valid_role_permissions verdict
  valid_role_permissions-IsClosed values = elim (Option-cases (collect ops values (λ c. false))) [
    | inl e ↦ rw e (record {
      manage_view = λ h. h;
      compute_account = λ h. h;
      operate_view = λ h. h;
      eds_account = λ h. h;
      eds_operate_view = λ h. h;
      eds_manage_operate = λ h. h;
    })
    | inr (u, e) ↦ rw e (least_closed values u e).closed
  ]
