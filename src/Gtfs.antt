-- ===== src/Gtfs.antt =====
-- internal/gtfs: the catalogue of feeds and regions, positions and their keys, and the poller.
pub mod Bounds
pub mod Feeds
pub mod Regions
pub mod Position
pub mod Poller
