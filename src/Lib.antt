-- ===== src/Lib.antt =====
-- Verification of Netriun Nexus, a multi-tenant console for cloud accounts (Go, internal/app).
--
-- A request passes the session check (Sessions), then a handler: it checks the user's rights (Policy),
-- selects accounts (Selection), reads and changes the database in a transaction and writes an audit
-- entry. Background refreshes (Refresh) collect what the providers list into the database (Collector).
--
-- What is modelled, by file:
--   Store        the tables of internal/app/migrations as lists of records, one `Db` for all; ids come
--                from one counter.
--   Text         strings, regexp and unicode/utf8 as an interface.
--   Request      internal/app/app.go (decode, dbError, audit, record), auth.go (admin, pathID) and
--                admin.go (pagination).
--   Policy       internal/app/policy.go: CanAccount, AccessibleAccountIDs, CanGroup, mergeAccountIDs.
--   Roles        internal/app/account_access.go: validRolePermissions; Roles/Handlers: saveAccessRole and
--                deleteAccessRole.
--   Access       internal/app/account_access.go: saveAccountAccess with the migration of an account.
--   Credentials  internal/app/auth_validation.go.
--   Users        internal/app/admin.go: saveUser and deleteUser; auth.go: sendNewVerification.
--   Groups       internal/app/admin.go: saveGroup, deleteGroup, saveMembership, deleteMembership.
--   Sessions     internal/app/auth.go: sessionToken, auth, login, allowAttempt, startSession, logout.
--   Settings     internal/app/admin.go: saveSettings.
--   Signup       internal/app/auth.go: signup and verifyEmail; Resend: resendVerification.
--   Selection    internal/app/auth.go: requestedAccountIDs.
--   ClientIp     internal/app/auth.go: clientIP and containsIP.
--   Collector    internal/app/collector.go: reconcileInventory, collectRegion, collectGlobal.
--   Lease        internal/app/collector.go: withAccountCollectorLock; eds_refresh.go:
--                withServiceCollectorLock.
--   Refresh      internal/app/refresh_jobs.go.
--   Services     the jobs of internal/app/eds_refresh.go, security_groups.go and oss.go; Handlers (the
--                requests for refreshes and their status), Snapshots (internal/app/snapshots.go), Buckets
--                (ossBuckets, createOSSBucket, securityGroups).
--   SecurityGroups  internal/app/security_groups.go: validateSecurityGroupRule,
--                createSecurityGroupRule, deleteSecurityGroupRule, securityGroupAccount.
--   Sso          internal/app/sso.go: ProviderConfig and Providers (the configuration of a provider,
--                saveIdentityProvider, deleteIdentityProvider, saveSSOSettings), Mappings
--                (identityGroupMappings, deleteIdentityGroupMapping), State (startSSO,
--                consumeSSOState), Claims, Callback (oidcCallback, samlCallback), Names, Links, Grants
--                and Login (finishSSO and what it calls).
--   Config       internal/app/config.go.
--   Prelude      lists, tests, the monad of handlers and the rules for invariants of handlers.
--   Tests        the theorems at concrete inputs.
--
-- A handler is a function of the state that answers with a value or a problem and leaves a state; a
-- transaction that ends in a problem leaves the state in which it began. SQL is written out over the
-- lists of rows: EXISTS is `any`, SELECT is `keep`, UPDATE is `change`, DELETE is `drop_where`, with the
-- unique indexes, CHECKs and foreign keys that a statement meets. A handler takes `down`, which says for
-- each statement whether it fails, so a theorem about a handler is about every pattern of failures.
-- Handlers run one after the other: the advisory locks that the code takes have no other effect here.
-- No function uses fuel; all recursion is on lists.
--
-- Parameters stand for code outside of the repository: bcrypt, SHA-256, net, net/mail, unicode, the
-- providers, OpenID Connect, SAML, X.509 and the mail server. Left out: the expiry of Redis keys
-- but for the keys of leases, of the refreshes of services and of the counts of logins, times but for the expiry of tokens, the
-- JSON details of audit entries, concurrency within a handler, the pure lists and reports, the logout
-- at an identity provider, the requests for desktops, billing, what a collection makes of the desktops
-- and buckets of a provider, and the calls of the SDKs.
pub mod Prelude
pub mod Store
pub mod Text
pub mod Request
pub mod Access
pub mod ClientIp
pub mod Collector
pub mod Config
pub mod Credentials
pub mod Groups
pub mod Lease
pub mod Policy
pub mod Refresh
pub mod Roles
pub mod SecurityGroups
pub mod Selection
pub mod Services
pub mod Sessions
pub mod Settings
pub mod Signup
pub mod Sso
pub mod Tests
pub mod Users
