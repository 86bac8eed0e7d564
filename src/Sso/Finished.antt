-- ===== src/Sso/Finished.antt =====
-- What a request of finishSSO that is answered with a user has done.
use netriun_nexus.Prelude.{
  ℕ, String, Bool, true, ◌≡◌, sym, ◌∙◌, subst, arith, Option, Result, ok, problem, ◌>>◌, ◌>>=◌,
  gate_ok, require,
}
use netriun_nexus.Store.{IdentityProvider, User, Db}
use netriun_nexus.Text.{TextOps}
use netriun_nexus.Credentials.{UnicodeOps, normalize_email}
use netriun_nexus.Users.{answering}
use netriun_nexus.Sessions.{Web}
use netriun_nexus.Sso.Names.{NameOps}
use netriun_nexus.Sso.Links.{SsoIdentity}
use netriun_nexus.Sso.Synced.{from_after}
use netriun_nexus.Sso.Mapped.{Synced, synced}
use netriun_nexus.Sso.Signed.{signed_user-Rewritten}
use netriun_nexus.Sso.Login.{
  signed_user, trimmed_identity, is_complete, is_address, finish_sso, failed_status, failed_page,
  on_db, open_session, establish_sso_session,
}

module _ (text : TextOps) (uni : UnicodeOps) (names : NameOps) (down free : ℕ → Bool) (now : ℕ)
    (hash : Option String) (p : IdentityProvider) where
  abbrev pub login_of : SsoIdentity → Web → Result User × Db
  login_of raw web =
      signed_user text uni names down free now hash p (trimmed_identity text uni names raw) web.db

  -- What the transaction of the login left is in the database.
  pub record Stored (u : User) (r : Result User × Db) (after : Web) : Type 0 where
    pub signed : r.0 ≡ ok u
    pub grants : after.db.sso_grants ≡ r.1.sso_grants
    pub identities : after.db.external_identities ≡ r.1.external_identities
    pub users : after.db.users ≡ r.1.users
    pub workspaces : after.db.workspaces ≡ r.1.workspaces

  pub record Finished (raw : SsoIdentity) (u : User) (web after : Web) : Type 0 where
    pub complete : is_complete (trimmed_identity text uni names raw) ≡ true
    pub stored : Stored u (login_of raw web) after

  module _ (key subject : String) (u : User) (web : Web) where
    abbrev ending : Result User × Db → Result User × Web
    ending r =
        (on_db (answering failed_status failed_page (λ _. r)) >>= open_session down key p subject)
          web

    ending-Stored : (r : Result User × Db) → (ending r).0 ≡ ok u → Stored u r (ending r).1
    unfolding open_session establish_sso_session
    ending-Stored (ok v, db) h = record {
      signed = ground arith;
      grants = ground arith;
      identities = ground arith;
      users = ground arith;
      workspaces = ground arith;
    }
    ending-Stored (problem c t, db) h = ground arith

  module _ (key : String) (raw : SsoIdentity) (u : User) (web : Web) where
    abbrev identity : SsoIdentity
    identity = trimmed_identity text uni names raw

    abbrev last : Web → Result User × Web
    last =
        on_db (
          answering failed_status failed_page
            (signed_user text uni names down free now hash p identity))
        >>= open_session down key p identity.subject

    abbrev addressed : Bool
    addressed = is_address (normalize_email text uni identity.email)

    pub finish_sso_ok :
        (finish_sso text uni names down free now hash key p raw web).0 ≡ ok u
        → Finished raw u web (finish_sso text uni names down free now hash key p raw web).1
    unfolding finish_sso
    finish_sso_ok h =
        let (whole, h', e) =
          gate_ok (is_complete identity) failed_status failed_page
            (require addressed failed_status failed_page >> last) web u h in
        let (_, h'', e') = gate_ok addressed failed_status failed_page last web u h' in
        subst (Finished raw u web) (sym (e ∙ e')) (record {
          complete = whole;
          stored = ending-Stored key identity.subject u web (login_of raw web) h'';
        })

    -- After a login of single sign-on that succeeds, the memberships that the user holds by this
    -- provider are exactly those that a mapping of the provider gives to a group of the identity, and
    -- the memberships of other users or by other providers are as before.
    pub finish_sso-Synced :
        (finish_sso text uni names down free now hash key p raw web).0 ≡ ok u
        → Synced p.workspace_id p.id u.id raw.groups web.db
            (finish_sso text uni names down free now hash key p raw web).1.db
    unfolding trimmed_identity
    finish_sso-Synced h =
        let f = finish_sso_ok h in
        synced _ _ _ _ _ _ (
          from_after (sym f.stored.grants) (
            signed_user-Rewritten text uni names down free now hash p identity u web.db
              f.stored.signed))
