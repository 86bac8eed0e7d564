-- ===== src/Sso/Enforced/Requests.antt =====
-- Requests keep a workspace that requires single sign-on with an enabled identity provider.
use mathlib.Core.Bool.{false≢true}
use netriun_nexus.Prelude.{
  ℕ, String, Bool, true, false, not, ◌≡◌, refl, subst, List, [], ◌∷◌, ◌&&◌, ◌==◌, arith, any, find,
  change, some, Result, ok, Keeps, Ends, Ends-read, Ends-bind, Ends-Keeps, ◌⊎◌, inl, inr,
  Bool-cases, Option-cases, All-keep, AtMostOne-keep, Keeps-of_Ends, ◌>>◌, ◌>>=◌, if◌then◌else◌,
  pure,
}
use netriun_nexus.Store.{Workspace, IdentityProvider, Protocol, User, Db, numbered, named}
use netriun_nexus.Request.{
  Body, Parsed, audit, available, exec, request_rules, Ends-available, Ends-exec,
}
use netriun_nexus.Sso.ProviderConfig.{IdentityProviderConfig, SsoOps}
use netriun_nexus.Sso.Providers.{
  is_enabled, is_other, is_provider, edited_draft, Draft, keep_enforcement, Values,
  IdentityProviderInput, store_provider, reachable, prepare_config, write_draft, draft_of,
  values_of, store_draft, save_identity_provider, remove_provider, delete_provider_rows, deletion,
  delete_identity_provider, check_deletion, allow_enforcement, some_enabled, set_required,
  save_sso_settings,
}
use netriun_nexus.Sso.Enforced.{
  is_required, required_in, Enforced, Enforced-audit, Allowed, removed, insert_provider-Enforced,
  update_provider-Enforced,
}

module _ (ops : SsoOps) (down : ℕ → Bool) (ws : ℕ) (path : Parsed) (protocol : Protocol)
    (enabled : Bool) (config : IdentityProviderConfig) where
  keep_enforcement-Keeps :
      (P : Db → Type 0) (d : Bool) (id : ℕ) → Keeps P (keep_enforcement d ws id)
  unfolding keep_enforcement
  keep_enforcement-Keeps P d id = search request_rules depth 14

  edited_draft-reads : (db : Db) → (edited_draft ops down ws path protocol enabled config db).1 ≡ db
  unfolding edited_draft
  edited_draft-reads db =
      (let k : Keeps (λ s. s ≡ db) (edited_draft ops down ws path protocol enabled config) =
            search (request_rules, keep_enforcement-Keeps) depth 16 in
          k).after
        db refl

  edited_draft-Allowed :
      (db : Db) (d : Draft)
      → (edited_draft ops down ws path protocol enabled config db).0 ≡ ok d
      → Allowed enabled ws d.id db
  unfolding edited_draft keep_enforcement
  edited_draft-Allowed db d h = ground arith

module _ (ops : SsoOps) where
  reachable-Keeps :
      (P : Db → Type 0) (protocol : Protocol) (origin public_id : String)
      (config : IdentityProviderConfig)
      → Keeps P (reachable ops protocol origin public_id config)
  reachable-Keeps P protocol origin public_id config = record { after = λ db h. ground arith }

  prepare_config-Keeps :
      (P : Db → Type 0) (protocol : Protocol) (origin public_id : String) (enabled : Bool)
      (config : IdentityProviderConfig)
      → Keeps P (prepare_config ops origin public_id protocol enabled config)
  unfolding prepare_config
  prepare_config-Keeps P protocol origin public_id enabled config = record {
    after = λ db h. ground arith;
  }

  module _ (down : ℕ → Bool) (nonce : String) (u : User) (post : Bool) (protocol : Protocol)
      (inp : IdentityProviderInput) where
    abbrev Supported : Draft → Db → Type 0
    Supported draft db = (post ≡ true) ⊎ Allowed inp.enabled u.workspace_id draft.id db

    write_draft-Enforced :
        (draft : Draft) (encoded : String) (db : Db)
        → Enforced db
        → Supported draft db
        → Ends Enforced db (write_draft ops down nonce u post protocol inp draft encoded)
    unfolding write_draft
    write_draft-Enforced draft encoded db e a = Ends-available db e (down 2) _ (
        Ends-bind db (store_provider ops.text post u.workspace_id draft protocol v) noted
          (stored post a) λ id. noted-Keeps id)
      where
        v : Values
        v = values_of ops inp (ops.encrypt nonce encoded)

        noted : ℕ → Db → Result ℕ × Db
        noted id = audit (down 3) u "identity_provider.saved" (numbered id) >> pure id

        noted-Keeps : (id : ℕ) → Keeps Enforced (noted id)
        noted-Keeps id = search (request_rules, Enforced-audit) depth 12

        stored :
            (p : Bool)
            → (p ≡ true) ⊎ Allowed inp.enabled u.workspace_id draft.id db
            → Ends Enforced db (store_provider ops.text p u.workspace_id draft protocol v)
        stored true q =
            Ends-Keeps db e _
              (insert_provider-Enforced ops.text u.workspace_id draft.public_id protocol v)
        stored false (inl q) = absurd (false≢true q)
        stored false (inr q) = update_provider-Enforced ops.text u.workspace_id draft.id v db e q

    module _ (origin token : String) (path : Parsed) where
      draft_of-reads :
          (db : Db) → (draft_of ops down token u.workspace_id post path protocol inp db).1 ≡ db
      unfolding draft_of
      draft_of-reads db = elim (Bool-cases post) [
        | inl q ↦ rw q refl
        | inr q ↦
            rw q
              (edited_draft-reads ops down u.workspace_id path protocol inp.enabled inp.config db)
      ]

      draft_of-Supported :
          (db : Db) (draft : Draft)
          → (draft_of ops down token u.workspace_id post path protocol inp db).0 ≡ ok draft
          → Supported draft db
      unfolding draft_of
      draft_of-Supported db draft h = elim (Bool-cases post) [
        | inl q ↦ inl q
        | inr q ↦ inr (
            edited_draft-Allowed ops down u.workspace_id path protocol inp.enabled inp.config db
              draft
              (subst
                (λ b.
                  ((if b
                      then pure (record { id = 0; public_id = token; config = inp.config })
                      else edited_draft ops down u.workspace_id path protocol inp.enabled
                          inp.config)
                    db).0
                  ≡ ok draft)
                q h))
      ]

      drafted-Enforced :
          (db : Db)
          → Enforced db
          → Ends Enforced db (
              draft_of ops down token u.workspace_id post path protocol inp
              >>= store_draft ops down origin nonce u post protocol inp)
      unfolding store_draft
      drafted-Enforced db e =
          Ends-read db e (draft_of ops down token u.workspace_id post path protocol inp)
            (store_draft ops down origin nonce u post protocol inp) (draft_of-reads db)
            λ draft h.
              Ends-read db e
                (prepare_config ops origin draft.public_id protocol inp.enabled draft.config)
                (write_draft ops down nonce u post protocol inp draft)
                ((prepare_config-Keeps (λ s. s ≡ db) protocol origin draft.public_id inp.enabled
                    draft.config).after
                  db refl)
                λ encoded _. write_draft-Enforced draft encoded db e (draft_of-Supported db draft h)

  save_identity_provider-Keeps :
      (down : ℕ → Bool) (origin token nonce : String) (u : User) (post : Bool) (path : Parsed)
      (body : Body IdentityProviderInput)
      → Keeps Enforced (save_identity_provider ops down origin token nonce u post path body)
  unfolding save_identity_provider
  save_identity_provider-Keeps down origin token nonce u post path body =
      search (request_rules, drafted-Keeps) depth 16
    where
      drafted-Keeps :
          (protocol : Protocol) (inp : IdentityProviderInput)
          → Keeps Enforced (
              draft_of ops down token u.workspace_id post path protocol inp
              >>= store_draft ops down origin nonce u post protocol inp)
      drafted-Keeps protocol inp =
          Keeps-of_Ends _
            (λ db e. drafted-Enforced down nonce u post protocol inp origin token path db e)

  -- Where ids are unique and every workspace that requires single sign-on has an enabled provider,
  -- this holds after a provider is created or edited too, whatever the request and whatever fails.
  pub save_identity_provider-Enforced :
      (down : ℕ → Bool) (origin token nonce : String) (u : User) (post : Bool) (path : Parsed)
      (body : Body IdentityProviderInput) (db : Db)
      → Enforced db
      → Enforced (save_identity_provider ops down origin token nonce u post path body db).1
  save_identity_provider-Enforced down origin token nonce u post path body db e =
      (save_identity_provider-Keeps down origin token nonce u post path body).after db e

module _ (ws id : ℕ) (db : Db) (e : Enforced db) where
  spared :
      (r : Bool × Bool × Bool) (p : IdentityProvider)
      → deletion ws id db ≡ some r
      → not (r.0 && r.1 && not r.2) ≡ true
      → find (is_provider ws id) db.identity_providers ≡ some p
      → (is_required ws db && p.enabled && not (any (is_other ws id) db.identity_providers)) ≡ false
  spared r p found allowed q = ground arith

  rows-Enforced :
      (p : IdentityProvider)
      → find (is_provider ws id) db.identity_providers ≡ some p
      → (is_required ws db && p.enabled && not (any (is_other ws id) db.identity_providers)) ≡ false
      → Ends Enforced db (delete_provider_rows ws id)
  unfolding delete_provider_rows remove_provider
  rows-Enforced p q a = record {
    after = elim (Bool-cases (any (is_provider ws id) db.identity_providers)) [
      | inr n ↦ rw n e
      | inl n ↦ rw n (record {
        old = All-keep _ _ db.identity_providers e.old;
        unique = λ n. AtMostOne-keep _ _ db.identity_providers (e.unique n);
        holds = removed db e ws id p q a;
      })
    ];
  }

  deleted-Enforced :
      (d : Bool)
      → (check_deletion d ws id db).0 ≡ ok tt
      → Ends Enforced db (delete_provider_rows ws id)
  unfolding check_deletion
  deleted-Enforced d h = elim (Option-cases (find (is_provider ws id) db.identity_providers)) [
    | inl q ↦ absurd (false≢true (ground arith))
    | inr (p, q) ↦ rows-Enforced p q (spared p q)
  ]
    where
      spared :
          (p : IdentityProvider)
          → find (is_provider ws id) db.identity_providers ≡ some p
          → (is_required ws db && p.enabled && not (any (is_other ws id) db.identity_providers))
            ≡ false
      spared p q = ground arith

required_after :
    (ws w : ℕ) (b : Bool) (rows : List Workspace)
    → required_in w (
        change
          (λ (x : Workspace). x.id == ws)
          (λ (x : Workspace). record x { sso_required = b })
          rows)
      ≡ true
    → (required_in w rows ≡ true) ⊎ ((w ≡ ws) × (b ≡ true))
required_after ws w b [] h = ground arith
required_after ws w b (x ∷ rows) h = elim (Bool-cases (x.id == w)) [
  | inl here ↦ ground arith
  | inr past ↦ rw (past, required_in) (required_after ws w b rows (ground arith))
]

module _ (down : ℕ → Bool) (u : User) where
  check_deletion-reads : (d : Bool) (ws id : ℕ) (db : Db) → (check_deletion d ws id db).1 ≡ db
  unfolding check_deletion
  check_deletion-reads d ws id db = ground arith

  allow_enforcement-reads :
      (d : Bool) (ws : ℕ) (b : Bool) (db : Db) → (allow_enforcement d ws b db).1 ≡ db
  unfolding allow_enforcement some_enabled
  allow_enforcement-reads d ws b db = ground arith

  allow_enforcement-allows :
      (d : Bool) (ws : ℕ) (b : Bool) (db : Db)
      → (allow_enforcement d ws b db).0 ≡ ok tt
      → b ≡ true
      → any (is_enabled ws) db.identity_providers ≡ true
  unfolding allow_enforcement some_enabled
  allow_enforcement-allows d ws b db h q = ground arith

  required-Enforced :
      (d : Bool) (ws : ℕ) (b : Bool) (db : Db)
      → Enforced db
      → (allow_enforcement d ws b db).0 ≡ ok tt
      → Enforced (set_required ws b db)
  required-Enforced d ws b db e h = record {
    old = e.old;
    unique = e.unique;
    holds = λ w r. elim (required_after ws w b db.workspaces r) [
      | inl q ↦ e.holds w q
      | inr (same, on) ↦ rw same (allow_enforcement-allows d ws b db h on)
    ];
  }

  delete_identity_provider-Keeps :
      (path : Parsed) → Keeps Enforced (delete_identity_provider down u path)
  unfolding delete_identity_provider
  delete_identity_provider-Keeps path = search (request_rules, checked-Keeps) depth 12
    where
      rest : ℕ → Db → Result (Unit {0}) × Db
      rest id = do
        available (down 1)
        delete_provider_rows u.workspace_id id
        audit (down 2) u "identity_provider.deleted" (numbered id)

      noted-Keeps :
          (id : ℕ) → Keeps Enforced (audit (down 2) u "identity_provider.deleted" (numbered id))
      noted-Keeps id = search (request_rules, Enforced-audit)

      checked-Keeps :
          (id : ℕ) → Keeps Enforced (check_deletion (down 0) u.workspace_id id >> rest id)
      checked-Keeps id = Keeps-of_Ends _ λ db e.
          Ends-read db e (check_deletion (down 0) u.workspace_id id) (λ _. rest id)
            (check_deletion-reads (down 0) u.workspace_id id db)
            λ _ h. Ends-available db e (down 1) _ (
              Ends-bind db (delete_provider_rows u.workspace_id id)
                (λ _. audit (down 2) u "identity_provider.deleted" (numbered id))
                (deleted-Enforced u.workspace_id id db e (down 0) h) λ _. noted-Keeps id)

  save_sso_settings-Keeps : (body : Body Bool) → Keeps Enforced (save_sso_settings down u body)
  unfolding save_sso_settings
  save_sso_settings-Keeps body = search (request_rules, allowed-Keeps) depth 12
    where
      rest : Bool → Db → Result (Unit {0}) × Db
      rest b = do
        exec (down 1) (set_required u.workspace_id b)
        audit (down 2) u "sso.enforcement_updated" (named "")

      rest-Enforced :
          (b : Bool) (db : Db)
          → Enforced db
          → Enforced (set_required u.workspace_id b db)
          → Ends Enforced db (rest b)
      rest-Enforced b db e f =
          Ends-bind db (exec (down 1) (set_required u.workspace_id b))
            (λ _. audit (down 2) u "sso.enforcement_updated" (named ""))
            (Ends-exec db e (down 1) (set_required u.workspace_id b) f)
            λ _. search (request_rules, Enforced-audit)

      allowed-Keeps :
          (b : Bool) → Keeps Enforced (allow_enforcement (down 0) u.workspace_id b >> rest b)
      allowed-Keeps b = Keeps-of_Ends _ λ db e.
          Ends-read db e (allow_enforcement (down 0) u.workspace_id b) (λ _. rest b)
            (allow_enforcement-reads (down 0) u.workspace_id b db)
            λ _ h. rest-Enforced b db e (required-Enforced (down 0) u.workspace_id b db e h)

  -- Where ids are unique and every workspace that requires single sign-on has an enabled provider,
  -- this holds after a request to delete a provider too, whatever fails.
  pub delete_identity_provider-Enforced :
      (path : Parsed) (db : Db) → Enforced db → Enforced (delete_identity_provider down u path db).1
  delete_identity_provider-Enforced path db e = (delete_identity_provider-Keeps path).after db e

  -- Where ids are unique and every workspace that requires single sign-on has an enabled provider,
  -- this holds after a request to require it, or to stop requiring it, too.
  pub save_sso_settings-Enforced :
      (body : Body Bool) (db : Db) → Enforced db → Enforced (save_sso_settings down u body db).1
  save_sso_settings-Enforced body db e = (save_sso_settings-Keeps body).after db e
