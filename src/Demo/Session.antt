-- ===== src/Demo/Session.antt =====
-- internal/demo/session.go: `Store` has the state and its file, `Methods` the exported methods;
-- the other modules prove what they promise.
pub mod Store
pub mod Methods
pub mod Invariant
pub mod Preserve
pub mod History
pub mod Live
pub mod Persist
