-- ===== src/Demo.antt =====
-- internal/demo and its loop in cmd/demo: browser sessions, poll planning, the poll loop, the live
-- pipeline, replay and write health.
pub mod PollSeconds
pub mod Session
pub mod Poll
pub mod Health
pub mod Pipeline
pub mod Replay
pub mod Loop
pub mod Snapshots
