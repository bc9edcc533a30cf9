-- ===== src/Debug.antt =====
-- internal/isledbdebug/harness.go and cmd/isledb-debug/main.go: experiments with the store library.
pub mod Harness
pub mod Experiments
pub mod Verdicts
