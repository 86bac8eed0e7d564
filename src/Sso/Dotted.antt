-- ===== src/Sso/Dotted.antt =====
-- Attributes of SAML whose names have a dot, as all the names that the server fills in by itself do:
-- claimValues takes such a name apart and finds nothing.
use netriun_nexus.Prelude.{
  String, false, ◌≡◌, ◌≢◌, refl, ap, ◌∙◌, List, [], ◌∷◌, arith, str_eq, Bool-cases, inl, inr,
  Option, none, ok, problem, Option-cases, str_eq_refl,
}
use netriun_nexus.Store.{IdentityProvider, User}
use netriun_nexus.Credentials.{UnicodeOps}
use netriun_nexus.Sso.ProviderConfig.{
  SsoOps, ServiceProvider, Loaded, loaded, refused, panicked, saml_service_provider,
}
use netriun_nexus.Sso.Claims.{
  Claim, text, texts, flag, items, object, other, Fields, none_left, field, ClaimOps, member, walk,
  claim_values, first_claim, Attribute, attribute_fields,
}
use netriun_nexus.Sso.Names.{NameOps}
use netriun_nexus.Sso.Links.{SsoIdentity}
use netriun_nexus.Sso.Login.{is_complete, trimmed_identity, finish_sso, failed_status, failed_page}
use netriun_nexus.Sso.State.{SsoWeb, Resumed}
use netriun_nexus.Sso.Callback.{
  Assertion, NameId, saml_identity, asserted, accepted, request_ids, Surroundings, finish_identity,
  accept_assertion,
}

-- No attribute is an object.
abbrev IsFlat : Claim → Type 0
IsFlat (object fields) = ⊥
IsFlat _ = Unit

abbrev AllFlat : Fields → Type 0
AllFlat none_left = Unit
AllFlat (field name value rest) = IsFlat value × AllFlat rest

member-IsFlat : (part : String) (fields : Fields) → AllFlat fields → IsFlat (member part fields)
unfolding member
member-IsFlat part none_left h = tt
member-IsFlat part (field name value rest) (v, h) = elim (Bool-cases (str_eq name part)) [
  | inl e ↦ rw e v
  | inr e ↦ rw e (member-IsFlat part rest h)
]

module _ (ops : ClaimOps) where
  attribute_fields-AllFlat :
      (attributes : List Attribute) (fields : Fields)
      → AllFlat fields
      → AllFlat (attribute_fields ops attributes fields)
  unfolding attribute_fields
  attribute_fields-AllFlat [] fields h = h
  attribute_fields-AllFlat (a ∷ rest) fields h = elim (Bool-cases (str_eq a.friendly_name "")) [
    | inl e ↦ rw e (attribute_fields-AllFlat rest _ (tt, h))
    | inr e ↦ rw e (attribute_fields-AllFlat rest _ (tt, (tt, h)))
  ]

  walk-flat :
      (part : String) (parts : List String) (value : Claim)
      → IsFlat value
      → walk (part ∷ parts) value ≡ none
  unfolding walk
  walk-flat part parts (object fields) h = absurd h
  walk-flat part parts (text s) h = refl
  walk-flat part parts (texts s) h = refl
  walk-flat part parts (flag s) h = refl
  walk-flat part parts (items s) h = refl
  walk-flat part parts (other s) h = refl

  -- An attribute whose name has a dot is never found, whatever the assertion carries.
  pub claim_values-dotted :
      (attributes : List Attribute) (path first second : String) (rest : List String)
      → ops.split path ≡ first ∷ second ∷ rest
      → claim_values ops (attribute_fields ops attributes none_left) path ≡ []
  unfolding claim_values walk
  claim_values-dotted attributes path first second rest e =
      rw
        (
          claim_values,
          e,
          walk-flat second rest (member first fields) (member-IsFlat first fields flat),
        )
        refl
    where
      fields : Fields
      fields = attribute_fields ops attributes none_left

      flat : AllFlat fields
      flat = attribute_fields-AllFlat attributes none_left tt

  first_claim-dotted :
      (attributes : List Attribute) (path first second : String) (rest : List String)
      → ops.split path ≡ first ∷ second ∷ rest
      → first_claim ops (attribute_fields ops attributes none_left) path ≡ ""
  unfolding first_claim
  first_claim-dotted attributes path first second rest e =
      rw (first_claim, claim_values-dotted attributes path first second rest e) refl

module _ (ops : SsoOps) (claims : ClaimOps) (uni : UnicodeOps) (names : NameOps)
    (digest : String → String)
    (parse_response : ServiceProvider → (request_ids : List String) → Option Assertion) where
  finish_identity-incomplete :
      (w : Surroundings) (p : IdentityProvider) (identity : SsoIdentity) (s : SsoWeb)
      → is_complete (trimmed_identity ops.text uni names identity) ≡ false
      → finish_identity ops claims uni names digest w p identity s
        ≡ (problem failed_status failed_page, s)
  unfolding finish_identity finish_sso
  finish_identity-incomplete w p identity s h = rw h refl

  -- So no login by SAML succeeds with a provider whose email attribute has a dot in its name, where
  -- trimming and lower-casing leave the empty text as it is.
  pub accept_assertion-dotted :
      (w : Surroundings) (origin : String) (r : Resumed) (s : SsoWeb) (u : User)
      (first second : String) (rest : List String)
      → claims.split r.config.email_attribute ≡ first ∷ second ∷ rest
      → ops.text.to_lower (ops.text.trim_space "") ≡ ""
      → (accept_assertion ops claims uni names digest parse_response w origin r s).0 ≢ ok u
  unfolding accept_assertion trimmed_identity
  accept_assertion-dotted w origin r s u first second rest e blank h =
      chosen (saml_service_provider ops origin r.provider.public_id r.config) h
    where
      incomplete :
          (assertion : Assertion) (name : NameId)
          → is_complete (
              trimmed_identity ops.text uni names
                (saml_identity ops claims uni names digest r.config assertion name))
            ≡ false
      incomplete assertion name =
          let nothing =
            ap (λ x. str_eq (ops.text.to_lower (ops.text.trim_space x)) "")
              (first_claim-dotted claims assertion.attributes r.config.email_attribute first second
                rest e)
            ∙ ap (λ x. str_eq x "") blank
            ∙ str_eq_refl "" in
          ground arith

      incomplete_login :
          (assertion : Assertion) (name : NameId)
          → finish_identity ops claims uni names digest w r.provider
              (saml_identity ops claims uni names digest r.config assertion name)
              s
            ≡ (problem failed_status failed_page, s)
      incomplete_login assertion name =
          finish_identity-incomplete w r.provider _ s (incomplete assertion name)

      failed :
          (sp : ServiceProvider)
          → (asserted ops claims uni names digest parse_response w r sp s).0 ≢ ok u
      failed sp k = elim (Option-cases (parse_response sp (request_ids r.state))) [
        | inl q ↦ ground arith
        | inr (a, q) ↦ elim (Option-cases a.name_id) [
          | inl q' ↦ ground arith
          | inr (n, q') ↦ ground (arith, incomplete_login a n)
        ]
      ]

      chosen : (l : Loaded) → (accepted ops claims uni names digest parse_response w r l s).0 ≢ ok u
      chosen refused k = ground arith
      chosen panicked k = ground arith
      chosen (loaded sp) k = failed sp k
