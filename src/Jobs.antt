-- ===== src/Jobs.antt =====
-- internal/jobs: the queue of background jobs that workers claim and run.
pub mod Store
pub mod Queue
pub mod Admin
pub mod Fetching
pub mod Races
pub mod Unread
pub mod Abandoned
pub mod Untried
pub mod Unhandled
