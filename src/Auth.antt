-- ===== src/Auth.antt =====
-- crates/auth: the configured OIDC providers, and the two halves of a login.
pub mod Error
pub mod Apple
pub mod Providers
