-- ===== src/Oauth.antt =====
-- The OAuth server: store/oauth.go, store/local_accounts.go, and mastodonapi/oauth.go,
-- mastodonapi/post_apps.go and the bearer tokens of mastodonapi/mastodonapi.go.
mod Tests
pub mod State
pub mod Store
pub mod Params
pub mod Authorize
pub mod Token
pub mod Register
pub mod Soundness
pub mod Consistent
pub mod Preservation
pub mod Steps
pub mod SingleUse
pub mod Redirects
