-- ===== src/Store.antt =====
-- The package store: the tables of db/migrations, and one function for each statement.
mod Rows
mod Table
mod Upsert
pub mod FollowLaws
mod LikeLaws
mod Tests
pub mod Follows
pub mod Interactions
pub mod Objects
pub mod Activities
pub mod Actors
pub mod Resolve
pub use Rows.*
pub use Table.*
pub use Upsert.*
