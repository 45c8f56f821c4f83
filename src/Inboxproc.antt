-- ===== src/Inboxproc.antt =====
-- The package internal/inboxproc: what a stored activity changes in the database.
pub mod Audience
pub mod Objects
pub mod Follow
pub mod Social
pub mod Undo
pub mod Process
mod Tests
mod Closed
mod Authors
mod Rest
mod Frames
mod Isolation
mod ObjectFrame
mod FollowFrame
