-- ===== src/Web.antt =====
-- internal/web/demo: what the handlers of the live map decide and answer; and the dashboard of
-- internal/web.
pub mod Views
pub mod Handlers
pub mod Stream
pub mod Dashboard
pub mod Playback
