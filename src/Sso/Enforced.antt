-- ===== src/Sso/Enforced.antt =====
-- A workspace that requires single sign-on keeps an enabled identity provider.
pub mod Requests
use mathlib.Core.Bool.{false≢true}
use netriun_nexus.Prelude.{
  ℕ, String, Bool, true, false, not, ◌≡◌, refl, ◌∙◌, subst, List, [], ◌∷◌, ◌++◌, ◌<◌, ◌+◌, ◌&&◌,
  ◌==◌, eq_of_==, arith, ||_inl, any, any-append, any-change, any-drop, any_mono, any_of_keep, find,
  change, drop_where, Option, some, none, Result, ok, Keeps, Ends, Ends-read, Ends-bind, Ends-Keeps,
  keeps_rules, ◌⊎◌, inl, inr, Bool-cases, Option-cases, All, All-append, All-mono, All-keep,
  All-change, AtMostOne, AtMostOne-snoc, AtMostOne-keep, AtMostOne-change, AtMostOne-mono, any_new,
  Keeps-of_Ends, Ends-require, ◌>>◌, ◌>>=◌, Ends-row_or, ◌||◌, if◌then◌else◌, pure,
}
use netriun_nexus.Store.{Workspace, IdentityProvider, Protocol, User, Db, AuditEntry, numbered}
use netriun_nexus.Text.{TextOps}
use netriun_nexus.Request.{
  Body, Parsed, audit, request_rules, append_entry, Ends-query_row, Ends-path_id, Ends-available,
}
use netriun_nexus.Sso.ProviderConfig.{IdentityProviderConfig, SsoOps}
use netriun_nexus.Sso.Providers.{
  is_enabled, is_other, is_provider, edited_draft, Draft, keep_enforcement, enforcement, Values,
  edited_provider, IdentityProviderInput, insert_provider, update_provider, is_refused,
  is_bad_public_id, store_provider, reachable, prepare_config, write_draft, draft_of, values_of,
  store_draft, save_identity_provider, remove_provider, delete_provider_rows, deletion,
  delete_identity_provider, set_required, save_sso_settings,
}

abbrev pub required_in : ℕ → List Workspace → Bool
required_in workspace rows = elim (find (λ (w : Workspace). w.id == workspace) rows) [
  | none ↦ false
  | some w ↦ w.sso_required
]

abbrev pub is_required : ℕ → Db → Bool
is_required workspace db = required_in workspace db.workspaces

-- Provider ids are unique, and a workspace that requires single sign-on has an enabled provider.
pub record Enforced (db : Db) : Type 0 where
  pub old : All (λ (p : IdentityProvider). p.id < db.next_id) db.identity_providers
  pub unique : (id : ℕ) → AtMostOne (λ (p : IdentityProvider). p.id == id) db.identity_providers
  pub holds :
      (workspace : ℕ)
      → is_required workspace db ≡ true
      → any (is_enabled workspace) db.identity_providers ≡ true

pub Enforced-audit : (e : AuditEntry) (db : Db) → Enforced db → Enforced (append_entry e db)
Enforced-audit e db f = record { old = f.old; unique = f.unique; holds = f.holds }

-- The request leaves an enabled provider: it enables this one, or another is, or none is needed.
abbrev pub Allowed : (enabled : Bool) → ℕ → ℕ → Db → Type 0
Allowed enabled ws id db =
    (enabled ≡ true)
    ⊎ ((is_required ws db && not (any (is_other ws id) db.identity_providers)) ≡ false)

module _ (db : Db) (e : Enforced db) (ws id : ℕ) where
  others :
      (is_required ws db && not (any (is_other ws id) db.identity_providers)) ≡ false
      → is_required ws db ≡ true
      → any (is_other ws id) db.identity_providers ≡ true
  others a h = ground arith

  pub updated :
      (v : Values)
      → Allowed v.enabled ws id db
      → (w : ℕ) → is_required w db ≡ true
      → any (is_enabled w) (change (is_provider ws id) (edited_provider v) db.identity_providers)
        ≡ true
  updated v (inl on) w r =
      any-change (is_enabled w) (is_enabled w) (is_provider ws id) (edited_provider v)
        db.identity_providers (λ p h. ground arith) (e.holds w r)
  updated v (inr a) w r = elim (Bool-cases (w == ws)) [
    | inl same ↦
        any-change (is_other ws id) (is_enabled w) (is_provider ws id) (edited_provider v)
          db.identity_providers (λ p h. ground arith)
          (others a (subst (λ x. is_required x db ≡ true) (eq_of_== w ws same) r))
    | inr apart ↦
        any-change (is_enabled w) (is_enabled w) (is_provider ws id) (edited_provider v)
          db.identity_providers (λ p h. ground arith) (e.holds w r)
  ]

  -- What stays of the rows that pass a test that the deleted rows fail.
  stays :
      (w : ℕ) (p : IdentityProvider → Bool)
      → ((x : IdentityProvider) → p x ≡ true → (not (is_provider ws id x) && is_enabled w x) ≡ true)
      → any p db.identity_providers ≡ true
      → any (is_enabled w) (drop_where (is_provider ws id) db.identity_providers) ≡ true
  stays w p f h = any_of_keep _ _ db.identity_providers ∙ any_mono p _ db.identity_providers f h

  pub removed :
      (p : IdentityProvider)
      → find (is_provider ws id) db.identity_providers ≡ some p
      → (is_required ws db && p.enabled && not (any (is_other ws id) db.identity_providers)) ≡ false
      → (w : ℕ) → is_required w db ≡ true
      → any (is_enabled w) (drop_where (is_provider ws id) db.identity_providers) ≡ true
  removed p found a w r = elim (Bool-cases (w == ws)) [
    | inr apart ↦ stays w (is_enabled w) (λ x h. ground arith) (e.holds w r)
    | inl same ↦
        let here : is_required ws db ≡ true =
          subst (λ x. is_required x db ≡ true) (eq_of_== w ws same) r in
        elim (Bool-cases p.enabled) [
          | inl on ↦ stays w (is_other ws id) (λ x h. ground arith) (others (ground arith) here)
          | inr off ↦
              any-drop (is_enabled w) (is_provider ws id) p db.identity_providers
                (AtMostOne-mono _ _ db.identity_providers (λ x h. ground arith) (e.unique id)) found
                (ground arith) (e.holds w r)
        ]
  ]

module _ (text : TextOps) where
  pub insert_provider-Enforced :
      (ws : ℕ) (public_id : String) (protocol : Protocol) (v : Values)
      → Keeps Enforced (insert_provider text ws public_id protocol v)
  insert_provider-Enforced ws public_id protocol v = record {
    after = λ db e.
        elim (Bool-cases
          (is_refused text ws db.next_id v db || is_bad_public_id text public_id db)) [
            | inl r ↦ rw r e
            | inr r ↦ rw r (record {
              old =
                  All-append _ db.identity_providers _
                    (All-mono _ _ db.identity_providers (λ x h. omega arith) e.old)
                    (omega arith, tt);
              unique = λ id.
                  AtMostOne-snoc _ db.identity_providers _
                    (λ h.
                      subst
                        (λ n.
                          any (λ (x : IdentityProvider). x.id == n) db.identity_providers ≡ false)
                        (eq_of_== db.next_id id h)
                        (any_new (λ (x : IdentityProvider). x.id) db.next_id db.identity_providers
                          e.old))
                    (e.unique id);
              holds = λ w q. any-append _ db.identity_providers _ ∙ ||_inl _ _ (e.holds w q);
            })
          ];
  }

  pub update_provider-Enforced :
      (ws id : ℕ) (v : Values) (db : Db)
      → Enforced db
      → Allowed v.enabled ws id db
      → Ends Enforced db (update_provider text ws id v)
  update_provider-Enforced ws id v db e a = record {
    after = elim (Bool-cases (any (is_provider ws id) db.identity_providers)) [
      | inr q ↦ rw q e
      | inl q ↦ elim (Bool-cases (is_refused text ws id v db)) [
        | inl r ↦ rw (q, r) e
        | inr r ↦
            rw (q, r)
              (record {
                old = All-change _ _ _ db.identity_providers (λ x k h. h) e.old;
                unique = λ n. AtMostOne-change _ _ _ db.identity_providers (λ x. refl) (e.unique n);
                holds = updated db e ws id v a;
              })
      ]
    ];
  }
