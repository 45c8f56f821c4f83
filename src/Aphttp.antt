-- ===== src/Aphttp.antt =====
-- The package aphttp: the inboxes that other servers post to, and the outbox of the local actors.
mod Tests
pub mod Fields
pub mod Inbox
pub mod Audience
pub mod Outbox
pub mod Stored
pub mod InboxLaws
pub mod InboxRepeated
pub mod OutboxLaws
