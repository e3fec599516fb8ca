-- ===== src/Auth.antt =====
-- internal/auth and internal/oauthstepup: what the OAuth endpoints compute before they touch a store.
pub mod StepUp
pub mod StepUpLaws
pub mod Pkce
pub mod Scopes
pub mod ScopeText
pub mod Grants
pub mod Resolve
mod Tests
