-- ===== src/Worker.antt =====
-- internal/worker and the loop of cmd/apw/main.go: jobs are taken from the SQL queue, run, and
-- acknowledged or returned.
pub mod Backoff
mod Retry
mod Budget
mod Claims
mod Termination
mod Tests
pub mod Deliver
pub mod Step
