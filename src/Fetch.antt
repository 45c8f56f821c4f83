-- ===== src/Fetch.antt =====
-- The package internal/fetch: outbound requests and the policy that constrains them.
pub mod Ip
pub mod Policy
mod Guard
mod Tests
pub mod Client
pub mod Inbox
mod Steps
pub mod PublicKey
mod Keys
