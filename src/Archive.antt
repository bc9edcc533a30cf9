-- ===== src/Archive.antt =====
-- ARCHIVE/Jul252026/internal: an earlier metrics service that the repository keeps for reference.
pub mod Metric
pub mod Wire
pub mod Marshal
pub mod Unmarshal
pub mod Server
pub mod Client
pub mod Http
