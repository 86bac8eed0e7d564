-- ===== src/Sso.antt =====
-- Single sign-on: internal/app/sso.go.
pub mod ProviderConfig
pub mod Providers
pub mod Enforced
pub mod Mappings
pub mod Claims
pub mod Names
pub mod Links
pub mod Grants
pub mod Mapped
pub mod Synced
pub mod Login
pub mod Signed
pub mod Finished
pub mod Stable
pub mod State
pub mod Callback
pub mod Replay
pub mod Dotted
